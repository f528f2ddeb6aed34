-- ===== src/Access/Inserted.antt =====
-- What the inserts of a synchronization add to the table of effective roles.
use access_service.Prelude.{
  ℕ, String, Bool, true, false, ◌≡◌, refl, sym, ap, ◌∙◌, Option, none, some, List, [], ◌∷◌, ◌++◌,
  ◌&&◌, ◌||◌, not, any, select, str_eq, eq_iff, ◌==◌, if◌then◌else◌, inl, inr, Contains,
  any-witness, any-append, select-append, any_of_Contains, Bool-cases, and_split, ==_iff, ==_refl,
  arith, append_nil,
}
use access_service.Access.Diff.{has_key}
use access_service.Access.Grants.{
  UserEffectiveRole, UserEffectiveRoleEntry, Table, entity_text, or_null, stored,
  effective_role_key, row_key, same_grant, same_entity, insert_or_ignore,
}

-- Some row of the user has the key.
abbrev pub holds_key : ℕ → String → List UserEffectiveRole → Bool
holds_key user_id k rows = any (λ r. r.user_id == user_id && str_eq (row_key r) k) rows

abbrev pub AreUnique : List UserEffectiveRole → Type 0
AreUnique rows = (a b : UserEffectiveRole) → Contains a rows → Contains b rows → a.id ≡ b.id → a ≡ b

or_none : (a : Bool) → a ≡ (a || false)
or_none a = ground arith

or_both : (a b : Bool) → (a || (b || false)) ≡ (a || b)
or_both a b = ground arith

or_assoc : (a b c : Bool) → ((a || b) || c) ≡ (a || (b || c))
or_assoc a b c = ground arith

entity_text-or_null : (o : Option String) → entity_text (or_null o) ≡ entity_text o
entity_text-or_null none = refl
entity_text-or_null (some s) = elim (Bool-cases (str_eq s "")) [
  | inl e ↦ rw e refl
  | inr e ↦ rw (e, e) refl
]

key-stored : (e : UserEffectiveRoleEntry) → effective_role_key (stored e) ≡ effective_role_key e
unfolding effective_role_key
key-stored e = rw (entity_text-or_null e.scope_entity_id) refl

text_of_same : (a b : Option String) → same_entity a b ≡ true → entity_text a ≡ entity_text b
text_of_same none none h = refl
text_of_same none (some b) h = ground arith
text_of_same (some a) none h = ground arith
text_of_same (some a) (some b) h = ap (λ s. entity_text (some s)) ((eq_iff a b).0 h)

-- Rows of one grant have one user and one key.
key-same_grant :
    (a b : UserEffectiveRole)
    → same_grant a b ≡ true
    → (b.user_id ≡ a.user_id) × (row_key b ≡ row_key a)
unfolding effective_role_key
key-same_grant a b h =
    let (u, h1) = and_split _ _ h in
    let (r, h2) = and_split _ _ h1 in
    let (g, h3) = and_split _ _ h2 in
    let (t, s) = and_split _ _ h3 in
    (
      sym ((==_iff a.user_id b.user_id).0 u),
      rw
          (
            (eq_iff a.entry.role_id b.entry.role_id).0 r,
            (eq_iff a.entry.source_group_id b.entry.source_group_id).0 g,
            (eq_iff a.entry.scope_type b.entry.scope_type).0 t,
            text_of_same a.entry.scope_entity_id b.entry.scope_entity_id s,
          )
          refl,
    )

module _ (table : Table) (fresh : List UserEffectiveRole → ℕ) (user_id : ℕ) where
  conflict-holds_key :
      (row : UserEffectiveRole) (rows : List UserEffectiveRole)
      → row.user_id ≡ user_id
      → any (same_grant row) rows ≡ true
      → holds_key user_id (row_key row) rows ≡ true
  conflict-holds_key row rows u h =
      let (r, (c, e)) = any-witness (same_grant row) rows h in
      let (v, k) = key-same_grant row r e in
      any_of_Contains (λ r. r.user_id == user_id && str_eq (row_key r) (row_key row)) r rows c
        (rw (v ∙ u, k, ==_refl user_id) ((eq_iff (row_key row) (row_key row)).1 refl))

  abbrev row_of : UserEffectiveRoleEntry → List UserEffectiveRole → UserEffectiveRole
  row_of e rows = record { id = fresh rows; user_id = user_id; entry = stored e }

  abbrev with_row : Bool → UserEffectiveRole → List UserEffectiveRole → List UserEffectiveRole
  with_row b row rows = if b then rows else rows ++ row ∷ []

  holds_key-with_row :
      (e : UserEffectiveRoleEntry) (rows : List UserEffectiveRole) (k : String)
      → holds_key user_id k (with_row (any (same_grant (row_of e rows)) rows) (row_of e rows) rows)
        ≡ (holds_key user_id k rows || str_eq (effective_role_key e) k)
  holds_key-with_row e rows k = elim (Bool-cases (any (same_grant (row_of e rows)) rows)) [
    | inl h ↦ rw h (elim (Bool-cases (str_eq (effective_role_key e) k)) [
      | inl f ↦
          rw
            (
              f,
              ap (λ x. holds_key user_id x rows)
                    (sym (key-stored e ∙ (eq_iff (effective_role_key e) k).0 f))
                  ∙ conflict-holds_key (row_of e rows) rows refl h,
            )
            refl
      | inr f ↦ rw f (or_none (holds_key user_id k rows))
    ])
    | inr h ↦ rw h (
        any-append (λ r. r.user_id == user_id && str_eq (row_key r) k) rows (row_of e rows ∷ [])
        ∙ rw (==_refl user_id, key-stored e)
            (or_both (holds_key user_id k rows) (str_eq (effective_role_key e) k)))
  ]

  pub holds_key-insert :
      (es : List UserEffectiveRoleEntry) (rows : List UserEffectiveRole) (k : String)
      → holds_key user_id k (insert_or_ignore table fresh user_id es rows)
        ≡ (holds_key user_id k rows || has_key effective_role_key es k)
  holds_key-insert [] rows k = or_none (holds_key user_id k rows)
  holds_key-insert (e ∷ es) rows k =
      holds_key-insert es (with_row (any (same_grant (row_of e rows)) rows) (row_of e rows) rows) k
      ∙ rw (holds_key-with_row e rows k) (
          or_assoc (holds_key user_id k rows) (str_eq (effective_role_key e) k)
            (has_key effective_role_key es k))

  abbrev others : List UserEffectiveRole → List UserEffectiveRole
  others rows = select (λ r. not (r.user_id == user_id)) rows

  others-with_row :
      (b : Bool) (row : UserEffectiveRole) (rows : List UserEffectiveRole)
      → row.user_id ≡ user_id
      → others (with_row b row rows) ≡ others rows
  others-with_row true row rows h = refl
  others-with_row false row rows h =
      select-append (λ r. not (r.user_id == user_id)) rows (row ∷ [])
      ∙ rw (h, ==_refl user_id) (sym (append_nil (others rows)))

  pub others-insert :
      (es : List UserEffectiveRoleEntry) (rows : List UserEffectiveRole)
      → others (insert_or_ignore table fresh user_id es rows) ≡ others rows
  others-insert [] rows = refl
  others-insert (e ∷ es) rows =
      others-insert es (with_row (any (same_grant (row_of e rows)) rows) (row_of e rows) rows)
      ∙ others-with_row (any (same_grant (row_of e rows)) rows) (row_of e rows) rows refl
