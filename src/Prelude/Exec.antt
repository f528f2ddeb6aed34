-- ===== src/Prelude/Exec.antt =====
-- An asynchronous method as a function on the state that it shares: what it returns or throws, and
-- the state after it. What was written before a throw stays written.
use native.Mathlib.Omega.{arith}
use mathlib.Core.Bool.{Bool, true, false}
use mathlib.Core.Option.{Option, none, some}
use mathlib.Core.Logic.{◌⊎◌, inl, inr}
use mathlib.Core.Path.{◌≡◌, refl, ap}
use access_service.Prelude.Tests.{if◌then◌else◌}

pub data Result (E A : Type 0) : Type 0 where
  ok : A → Result E A
  err : E → Result E A

abbrev pub Action : Type 0 → Type 0 → Type 0 → Type 0
Action S E A = S → Result E A × S

-- An answer comes from the second branch of a test that throws in the first.
pub otherwise :
    {E A : Type 0} (b : Bool) (r : Result E A) (e : E) (a : A)
    → (if b then err e else r) ≡ ok a
    → (b ≡ false) × (r ≡ ok a)
otherwise true r e a h = ground arith
otherwise false r e a h = (refl, h)

pub ok_inj : {E A : Type 0} (a b : A) → Path (Result E A) (ok a) (ok b) → a ≡ b
ok_inj a b h = ground arith

module _ {S E A : Type 0} where
  abbrev pub pure : A → Action S E A
  pure a s = (ok a, s)

  abbrev pub throw : E → Action S E A
  throw e s = (err e, s)

  abbrev pub gets : (S → A) → Action S E A
  gets f s = (ok (f s), s)

  abbrev pub caught : (E → Action S E A) → Result E A × S → Result E A × S
  caught h (ok a, s) = (ok a, s)
  caught h (err e, s) = h e s

  -- `try { m } catch (e) { h e }`
  abbrev pub catch : Action S E A → (E → Action S E A) → Action S E A
  catch m h s = caught h (m s)

  abbrev pub or_throw : Option A → E → Action S E A
  or_throw none e = throw e
  or_throw (some a) e = pure a

  abbrev pub when_else : Bool → Action S E A → Action S E A → Action S E A
  when_else b m k s = if b then m s else k s

module _ {S E : Type 0} where
  abbrev pub modify : (S → S) → Action S E (Unit {0})
  modify f s = (ok tt, f s)

  abbrev pub throw_if : Bool → E → Action S E (Unit {0})
  throw_if b e s = (if b then err e else ok tt, s)

abbrev pub proceed : {S E A B : Type 0} → (A → Action S E B) → Result E A × S → Result E B × S
proceed f (ok a, s) = f a s
proceed f (err e, s) = (err e, s)

infixl 5 ◌>>=◌ ◌>>◌
abbrev pub ◌>>=◌ : {S E A B : Type 0} → Action S E A → (A → Action S E B) → Action S E B
◌>>=◌ m f s = proceed f (m s)

abbrev pub ◌>>◌ : {S E A B : Type 0} → Action S E A → Action S E B → Action S E B
m >> k = m >>= λ _. k

module _ {S E A : Type 0} (m : Action S E A) (h : E → Action S E A) (s t : S) where
  pub catch-ok : (a : A) → m s ≡ (ok a, t) → catch m h s ≡ (ok a, t)
  catch-ok a e = ap (caught h) e

  pub catch-err : (x : E) → m s ≡ (err x, t) → catch m h s ≡ h x t
  catch-err x e = ap (caught h) e

module _ {S E A B : Type 0} (m : Action S E A) (f : A → Action S E B) (s t : S) where
  pub bind-ok : (a : A) → m s ≡ (ok a, t) → (m >>= f) s ≡ f a t
  bind-ok a e = ap (proceed f) e

  pub bind-err : (x : E) → m s ≡ (err x, t) → (m >>= f) s ≡ (err x, t)
  bind-err x e = ap (proceed f) e

-- What an answer of two steps says of each.
module _ {S E A B : Type 0} (f : A → Action S E B) (b : B) (t : S) where
  abbrev pub Came : Result E A × S → Type 0
  Came r = (a : A) × ((s : S) × ((r ≡ (ok a, s)) × (f a s ≡ (ok b, t))))

  pub proceed-inv : (r : Result E A × S) → proceed f r ≡ (ok b, t) → Came r
  proceed-inv (ok a, s) h = (a, (s, (refl, h)))
  proceed-inv (err e, s) h = ground (arith, ap (λ x. x.0) h)

  pub bind-inv : (m : Action S E A) (s : S) → (m >>= f) s ≡ (ok b, t) → Came (m s)
  bind-inv m s h = proceed-inv (m s) h

-- A step that always throws.
module _ {S E A : Type 0} where
  abbrev pub Never : Action S E A → Type 0
  Never m = (s t : S) (a : A) → m s ≡ (ok a, t) → ⊥

  pub throw-Never : (e : E) → Never (throw e)
  throw-Never e s t a h = ground (arith, ap (λ x. x.0) h)

  pub when_else-inv :
      (b : Bool) (m k : Action S E A) (s : S) (r : Result E A × S)
      → when_else b m k s ≡ r
      → ((b ≡ true) × (m s ≡ r)) ⊎ ((b ≡ false) × (k s ≡ r))
  when_else-inv true m k s r h = inl (refl, h)
  when_else-inv false m k s r h = inr (refl, h)

pub bind-Never :
    {S E A B : Type 0} (m : Action S E A) (f : A → Action S E B)
    → ((a : A) → Never (f a))
    → Never (m >>= f)
bind-Never m f n s t b h = let (a, (s', (e, g))) = bind-inv f b t m s h in n a s' t b g

-- An answer of a guarded step is one of the step.
pub guard-inv :
    {S E A : Type 0} (b : Bool) (e : E) (m : Action S E A) (s t : S) (a : A)
    → (throw_if b e >> m) s ≡ (ok a, t)
    → (b ≡ false) × (m s ≡ (ok a, t))
guard-inv true e m s t a h = ground (arith, ap (λ x. x.0) h)
guard-inv false e m s t a h = (refl, h)

-- A step that answers nothing of its own.
pub unit-inv :
    {S E A : Type 0} (a b : A) (s t : S)
    → Path (Result E A × S) (ok a, s) (ok b, t)
    → (a ≡ b) × (s ≡ t)
unit-inv a b s t h = (ok_inj a b (ap (λ x. x.0) h), ap (λ x. x.1) h)
