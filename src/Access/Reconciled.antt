-- ===== src/Access/Reconciled.antt =====
-- The memberships after a reconciliation of one user.
use access_service.Prelude.{
  ℕ, suc, length, String, Bool, true, false, ◌≡◌, refl, sym, ap, ◌∙◌, inl, inr, List, [], ◌∷◌, ◌++◌,
  ◌&&◌, ◌||◌, not, any, select, str_eq, eq_iff, ◌==◌, ==_refl, any-select, any-congr, any-append,
  any-and_const, Bool-cases, str_eq_sym, ◌⊎◌, ◌↔◌, arith,
}
use access_service.Access.Grants.{UserEffectiveRole, Table, of_user, row_key}
use access_service.Access.Diff.{AreDistinctKeys}
use access_service.Access.Inserted.{holds_key, AreUnique}
use access_service.Access.Synchronized.{sync_effective_roles-holds_key}
use access_service.Access.Projection.{Groups}
use access_service.Access.Targets.{IsGranted, has_key-target_roles}
use access_service.Access.Reconciler.{
  UserGroupMembership, Memberships, includes_text, text_set, groups_of_user, insert_memberships,
  delete_memberships, target_roles, both_empty, apply_memberships, reconcile_single_user,
}

-- The user is a member of the group.
abbrev pub is_member : ℕ → String → List UserGroupMembership → Bool
is_member user_id g ms = any (λ m. m.user_id == user_id && str_eq m.group_id g) ms

bool_insert : (a b c : Bool) → ((a || (b || false)) || c) ≡ (a || (b || c))
bool_insert a b c = ground arith

bool_delete : (m s t : Bool) → ((m && not s) && not t) ≡ (m && not (s || t))
bool_delete m s t = ground arith

or_nothing : (a : Bool) → a ≡ (a || false)
or_nothing a = ground arith

and_something : (a : Bool) → a ≡ (a && true)
and_something a = ground arith

swap_true : (q : Bool) → (q && true) ≡ (true && q)
swap_true q = ground arith

swap_false : (a b : Bool) → (a && false) ≡ (false && b)
swap_false a b = ground arith

at_true : (u x : Bool) → (not (u && x) && (u && true)) ≡ ((u && true) && not x)
at_true u x = ground arith

at_false : (u x y : Bool) → (not (u && x) && (u && false)) ≡ ((u && false) && not y)
at_false u x y = ground arith

symmetric : (s t : String) → str_eq s t ≡ str_eq t s
symmetric s t = elim (Bool-cases (str_eq t s)) [
  | inl e ↦ let p : t ≡ s = (eq_iff t s).0 e in λ i. str_eq (sym p i) (p i)
  | inr e ↦ str_eq_sym t s e ∙ sym e
]

includes-select :
    (q : String → Bool) (xs : List String) (s : String)
    → includes_text (select q xs) s ≡ (includes_text xs s && q s)
includes-select q xs s =
    any-select q (λ x. str_eq x s) xs
    ∙ any-congr _ (λ x. str_eq x s && q s) xs (λ x c. at_text x (Bool-cases (str_eq x s)))
    ∙ any-and_const (λ x. str_eq x s) (q s) xs
  where
    at_text :
        (x : String)
        → (str_eq x s ≡ true) ⊎ (str_eq x s ≡ false)
        → (q x && str_eq x s) ≡ (str_eq x s && q s)
    at_text x (inl e) = rw (e, ap q ((eq_iff x s).0 e)) (swap_true (q s))
    at_text x (inr e) = rw e (swap_false (q x) (q s))

includes-text_set :
    (xs : List String) (s : String) → includes_text (text_set xs) s ≡ includes_text xs s
unfolding text_set
includes-text_set [] s = refl
includes-text_set (x ∷ xs) s = elim (Bool-cases (str_eq x s)) [
  | inl e ↦ rw e refl
  | inr e ↦
      rw
        (
          e,
          includes-select (λ y. not (str_eq y x)) (text_set xs) s,
          includes-text_set xs s,
          str_eq_sym x s e,
        )
        (sym (and_something (includes_text xs s)))
]

includes-groups_of_user :
    (user_id : ℕ) (ms : List UserGroupMembership) (g : String)
    → includes_text (groups_of_user user_id ms) g ≡ is_member user_id g ms
includes-groups_of_user user_id [] g = refl
includes-groups_of_user user_id (m ∷ ms) g = elim (Bool-cases (m.user_id == user_id)) [
  | inl e ↦ rw e (ap (◌||◌ (str_eq m.group_id g)) (includes-groups_of_user user_id ms g))
  | inr e ↦ rw e (includes-groups_of_user user_id ms g)
]

module _ (user_id : ℕ) where
  is_member-insert :
      (gs : List String) (ms : List UserGroupMembership) (g : String)
      → is_member user_id g (insert_memberships user_id gs ms)
        ≡ (is_member user_id g ms || includes_text gs g)
  is_member-insert [] ms g = or_nothing (is_member user_id g ms)
  is_member-insert (x ∷ xs) ms g =
      is_member-insert xs (ms ++ record { user_id = user_id; group_id = x } ∷ []) g
      ∙ rw
          (
            any-append (λ m. m.user_id == user_id && str_eq m.group_id g) ms
                (record { user_id = user_id; group_id = x } ∷ []),
            ==_refl user_id,
          )
          (bool_insert (is_member user_id g ms) (str_eq x g) (includes_text xs g))

  is_member-delete :
      (gs : List String) (ms : List UserGroupMembership) (g : String)
      → is_member user_id g (delete_memberships user_id gs ms)
        ≡ (is_member user_id g ms && not (includes_text gs g))
  is_member-delete [] ms g = and_something (is_member user_id g ms)
  is_member-delete (x ∷ xs) ms g =
      is_member-delete xs (select (λ m. not (m.user_id == user_id && str_eq m.group_id x)) ms) g
      ∙ rw (one_deleted x ms g)
          (bool_delete (is_member user_id g ms) (str_eq x g) (includes_text xs g))
    where
      at_group :
          (x g : String) (m : UserGroupMembership)
          → (str_eq m.group_id g ≡ true) ⊎ (str_eq m.group_id g ≡ false)
          → (not (m.user_id == user_id && str_eq m.group_id x)
              && (m.user_id == user_id && str_eq m.group_id g))
            ≡ ((m.user_id == user_id && str_eq m.group_id g) && not (str_eq x g))
      at_group x g m (inl e) =
          rw (e, (eq_iff m.group_id g).0 e, symmetric g x)
            (at_true (m.user_id == user_id) (str_eq x g))
      at_group x g m (inr e) =
          rw e (at_false (m.user_id == user_id) (str_eq m.group_id x) (str_eq x g))

      one_deleted :
          (x : String) (ms : List UserGroupMembership) (g : String)
          → is_member user_id g (select (λ m. not (m.user_id == user_id && str_eq m.group_id x)) ms)
            ≡ (is_member user_id g ms && not (str_eq x g))
      one_deleted x ms g =
          any-select (λ m. not (m.user_id == user_id && str_eq m.group_id x))
            (λ m. m.user_id == user_id && str_eq m.group_id g) ms
          ∙ any-congr _ (λ m. (m.user_id == user_id && str_eq m.group_id g) && not (str_eq x g)) ms
              (λ m c. at_group x g m (Bool-cases (str_eq m.group_id g)))
          ∙ any-and_const (λ m. m.user_id == user_id && str_eq m.group_id g) (not (str_eq x g)) ms

both_empty-includes :
    (xs ys : List String) (g : String)
    → both_empty xs ys ≡ true
    → (includes_text xs g ≡ false) × (includes_text ys g ≡ false)
both_empty-includes [] [] g h = (refl, refl)
both_empty-includes [] (y ∷ ys) g h = ground arith
both_empty-includes (x ∷ xs) ys g h = ground arith

unchanged : (c t : Bool) → (t && not c) ≡ false → (c && not t) ≡ false → c ≡ t
unchanged c t h k = ground (arith, h, k)

moved : (c t : Bool) → ((c || (t && not c)) && not (c && not t)) ≡ t
moved c t = ground arith

module _ (table : Table) (fresh : List UserEffectiveRole → ℕ) (groups : Groups) (user_id : ℕ)
    (targets : List String) (w : Memberships) where
  abbrev current : List String
  current = text_set (groups_of_user user_id w.memberships)

  abbrev added : List String
  added = select (λ g. not (includes_text current g)) (text_set targets)

  abbrev removed : List String
  removed = select (λ g. not (includes_text (text_set targets) g)) current

  includes-current : (g : String) → includes_text current g ≡ is_member user_id g w.memberships
  includes-current g =
      includes-text_set (groups_of_user user_id w.memberships) g
      ∙ includes-groups_of_user user_id w.memberships g

  includes-added :
      (g : String)
      → includes_text added g ≡ (includes_text targets g && not (is_member user_id g w.memberships))
  includes-added g =
      includes-select (λ g. not (includes_text current g)) (text_set targets) g
      ∙ rw (includes-text_set targets g, includes-current g) refl

  includes-removed :
      (g : String)
      → includes_text removed g
        ≡ (is_member user_id g w.memberships && not (includes_text targets g))
  includes-removed g =
      includes-select (λ g. not (includes_text (text_set targets) g)) current g
      ∙ rw (includes-text_set targets g, includes-current g) refl

  -- Nothing is written, or an event is, and the user holds the keys of the roles that the active
  -- groups among the targets give, and no others.
  abbrev pub IsWritten : Memberships → Type 0
  IsWritten after =
      (after ≡ w)
      ⊎ (((k : String)
            → (holds_key user_id k after.rows ≡ true) ↔ IsGranted groups (λ id g. id) targets k)
          × (length after.outbox ≡ suc (length w.outbox)))

  module _ (unique : AreUnique w.rows)
      (distinct : AreDistinctKeys row_key (table.find (of_user table fresh user_id) w.rows)) where
    reconciled_by :
        (b : Bool)
        → both_empty added removed ≡ b
        → ((g : String)
            → is_member user_id g
                (apply_memberships table fresh groups b user_id targets added removed
                  w).1.memberships
              ≡ includes_text targets g)
          × IsWritten (apply_memberships table fresh groups b user_id targets added removed w).1
    reconciled_by true e = (
      λ g.
          let (no_added, no_removed) = both_empty-includes added removed g e in
          unchanged (is_member user_id g w.memberships) (includes_text targets g)
            (sym (includes-added g) ∙ no_added) (sym (includes-removed g) ∙ no_removed),
      inl refl,
    )
    reconciled_by false e = (
      λ g.
          is_member-delete user_id removed (insert_memberships user_id added w.memberships) g
          ∙ rw
              (is_member-insert user_id added w.memberships g, includes-added g, includes-removed g)
              (moved (is_member user_id g w.memberships) (includes_text targets g)),
      inr (
        λ k.
            let same =
              (sync_effective_roles-holds_key table fresh user_id (target_roles groups targets)
                  w.rows unique distinct).0
                k in
            let (there, back) = has_key-target_roles groups targets k in
            (λ h. there (sym same ∙ h), λ g. same ∙ back g),
        refl,
      ),
    )

    -- In a table with distinct identifiers, where the rows found for the user have distinct keys: after
    -- a reconciliation the user is a member of exactly the groups given, and either nothing was
    -- written, or one event was and the user holds a key exactly where one of the groups given is
    -- active and gives the role of the key, with the group's scope.
    pub reconcile_single_user-IsWritten :
        ((g : String)
          → is_member user_id g
              (reconcile_single_user table fresh groups user_id targets w).1.memberships
            ≡ includes_text targets g)
        × IsWritten (reconcile_single_user table fresh groups user_id targets w).1
    unfolding reconcile_single_user
    reconcile_single_user-IsWritten = reconciled_by (both_empty added removed) refl
