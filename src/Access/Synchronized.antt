-- ===== src/Access/Synchronized.antt =====
-- What a synchronization of a user's effective roles leaves in the table.
use access_service.Prelude.{
  ℕ, String, Bool, true, false, ◌≡◌, refl, sym, ap, ◌∙◌, List, [], ◌∷◌, ◌&&◌, ◌||◌, not, any, map,
  select, str_eq, eq_iff, ◌==◌, ◌⊎◌, inl, inr, Contains, any-select, any-witness, any-congr,
  select-congr, select-select, any-and_const, any-map, any_of_Contains, Bool-cases, Bool-ext,
  and_split, ==_iff, ==_refl, arith,
}
use access_service.Access.Diff.{
  has, has_key, put_all, values_where, AreDistinctKeys, has-put_all, put_all-IsKeyed,
  has_key-values_where, values_where-distinct,
}
use access_service.Access.Grants.{
  UserEffectiveRole, UserEffectiveRoleEntry, Table, effective_role_key, row_key, of_user,
  delete_by_ids, sync_effective_roles_for_user,
}
use access_service.Access.Inserted.{holds_key, AreUnique, holds_key-insert, others-insert}

kept_true : (u w : Bool) → (not (u && not w) && (u && true)) ≡ ((u && true) && w)
kept_true u w = ground arith

kept_false : (s u w : Bool) → (s && (u && false)) ≡ ((u && false) && w)
kept_false s u w = ground arith

exactly : (h w : Bool) → ((h && w) || (w && not h)) ≡ w
exactly h w = ground arith

others_stay : (u w : Bool) → (not (u && w) && not u) ≡ not u
others_stay u w = ground arith

and_not_self : (a : Bool) → (a && not a) ≡ false
and_not_self a = ground arith

select_all : {A : Type 0} (xs : List A) → select (λ x. true) xs ≡ xs
select_all [] = refl
select_all (x ∷ xs) = ap (◌∷◌ x) (select_all xs)

no_keys :
    {A : Type 0} (key : A → String) (xs : List A)
    → ((k : String) → has_key key xs k ≡ false)
    → xs ≡ []
no_keys key [] h = refl
no_keys key (x ∷ xs) h = let e = h (key x) in ground (arith, (eq_iff (key x) (key x)).1 refl)

module _ (table : Table) (fresh : List UserEffectiveRole → ℕ) (user_id : ℕ)
    (targets : List UserEffectiveRoleEntry) (rows : List UserEffectiveRole) where
  abbrev wanted : String → Bool
  wanted = has (put_all effective_role_key targets [])

  abbrev found : List UserEffectiveRole
  found = table.find (of_user table fresh user_id) rows

  wanted-has_key : (k : String) → wanted k ≡ has_key effective_role_key targets k
  wanted-has_key k = has-put_all effective_role_key targets [] k

  has_current : (k : String) → has (put_all row_key found []) k ≡ holds_key user_id k rows
  has_current k =
      has-put_all row_key found [] k
      ∙ Bool-ext (has_key row_key found k) (holds_key user_id k rows)
          (λ h.
            let (r, (c, e)) = any-witness (λ x. str_eq (row_key x) k) found h in
            let (d, u) = table.find_sound (of_user table fresh user_id) rows r c in
            any_of_Contains (λ x. x.user_id == user_id && str_eq (row_key x) k) r rows d
              (rw (u, e) refl))
          (λ h.
            let (r, (c, e)) =
              any-witness (λ x. x.user_id == user_id && str_eq (row_key x) k) rows h in
            let (u, f) = and_split _ _ e in
            any_of_Contains (λ x. str_eq (row_key x) k) r found
              (table.find_complete (of_user table fresh user_id) rows r c u) f)

  -- Where the user already has exactly the keys of the targets, a synchronization reports no row
  -- inserted or deleted and leaves the table as it is.
  sync_effective_roles_settled :
      ((k : String) → holds_key user_id k rows ≡ has_key effective_role_key targets k)
      → sync_effective_roles_for_user table fresh user_id targets rows
        ≡ (record { inserted = 0; deleted = 0 }, rows)
  unfolding sync_effective_roles_for_user
  sync_effective_roles_settled h =
      let current = put_all row_key found [] in
      let none_stale : values_where (λ k. not (wanted k)) current ≡ [] =
        no_keys row_key (values_where (λ k. not (wanted k)) current) (λ k.
          has_key-values_where row_key (λ k. not (wanted k)) current k
            (put_all-IsKeyed row_key found [] tt)
          ∙ rw (has_current k, h k, wanted-has_key k)
              (and_not_self (has_key effective_role_key targets k))) in
      let none_new : values_where (λ k. not (has current k)) (put_all effective_role_key targets [])
          ≡ [] =
        no_keys effective_role_key
          (values_where (λ k. not (has current k)) (put_all effective_role_key targets []))
          (λ k.
            has_key-values_where effective_role_key (λ k. not (has current k))
              (put_all effective_role_key targets []) k
              (put_all-IsKeyed effective_role_key targets [] tt)
            ∙ rw (has_current k, h k, wanted-has_key k)
                (and_not_self (has_key effective_role_key targets k))) in
      rw (none_stale, none_new) (λ i. (record { inserted = 0; deleted = 0 }, select_all rows i))

  abbrev stale : UserEffectiveRole → Bool
  stale r = r.user_id == user_id && not (wanted (row_key r))

  kept_by :
      (r : UserEffectiveRole) (k : String)
      → (str_eq (row_key r) k ≡ true) ⊎ (str_eq (row_key r) k ≡ false)
      → (not (stale r) && (r.user_id == user_id && str_eq (row_key r) k))
        ≡ ((r.user_id == user_id && str_eq (row_key r) k) && wanted k)
  kept_by r k (inl e) =
      rw (e, (eq_iff (row_key r) k).0 e) (kept_true (r.user_id == user_id) (wanted k))
  kept_by r k (inr e) = rw e (kept_false (not (stale r)) (r.user_id == user_id) (wanted k))

  module _ (unique : AreUnique rows) (distinct : AreDistinctKeys row_key found) where
    abbrev to_delete : List ℕ
    to_delete = map (λ r. r.id) (values_where (λ k. not (wanted k)) (put_all row_key found []))

    -- The rows whose identifiers are deleted are the user's rows with a key that is not wanted.
    deleted-stale :
        (r : UserEffectiveRole) → Contains r rows → any (λ id. id == r.id) to_delete ≡ stale r
    deleted-stale r c =
        any-map (λ id. id == r.id) (λ x. x.id)
          (values_where (λ k. not (wanted k)) (put_all row_key found []))
        ∙ ap (any (λ x. x.id == r.id))
            (values_where-distinct row_key (λ k. not (wanted k)) found distinct)
        ∙ any-select (λ x. not (wanted (row_key x))) (λ x. x.id == r.id) found
        ∙ Bool-ext (any (λ x. not (wanted (row_key x)) && x.id == r.id) found) (stale r)
            (λ h.
              let (x, (d, e)) =
                any-witness (λ x. not (wanted (row_key x)) && x.id == r.id) found h in
              let (w, i) = and_split (not (wanted (row_key x))) (x.id == r.id) e in
              let (d', u) = table.find_sound (of_user table fresh user_id) rows x d in
              let same = unique x r d' c ((==_iff x.id r.id).0 i) in
              ap stale (sym same) ∙ rw (u, w) refl)
            (λ h.
              let (u, w) = and_split (r.user_id == user_id) (not (wanted (row_key r))) h in
              any_of_Contains (λ x. not (wanted (row_key x)) && x.id == r.id) r found
                (table.find_complete (of_user table fresh user_id) rows r c u)
                (rw (w, ==_refl r.id) refl))

    delete-stale : delete_by_ids table fresh to_delete rows ≡ select (λ r. not (stale r)) rows
    delete-stale =
        select-congr (λ r. not (any (λ id. id == r.id) to_delete)) (λ r. not (stale r)) rows
          (λ r c. ap not (deleted-stale r c))

    holds_key-delete :
        (k : String)
        → holds_key user_id k (delete_by_ids table fresh to_delete rows)
          ≡ (holds_key user_id k rows && wanted k)
    holds_key-delete k =
        ap (holds_key user_id k) delete-stale
        ∙ any-select (λ r. not (stale r)) (λ r. r.user_id == user_id && str_eq (row_key r) k) rows
        ∙ any-congr _ (λ r. (r.user_id == user_id && str_eq (row_key r) k) && wanted k) rows
            (λ r c. kept_by r k (Bool-cases (str_eq (row_key r) k)))
        ∙ any-and_const (λ r. r.user_id == user_id && str_eq (row_key r) k) (wanted k) rows

    abbrev to_insert : List UserEffectiveRoleEntry
    to_insert =
        values_where (λ k. not (has (put_all row_key found []) k))
          (put_all effective_role_key targets [])

    has_key-to_insert :
        (k : String)
        → has_key effective_role_key to_insert k ≡ (wanted k && not (holds_key user_id k rows))
    has_key-to_insert k =
        has_key-values_where effective_role_key (λ k. not (has (put_all row_key found []) k))
          (put_all effective_role_key targets []) k
          (put_all-IsKeyed effective_role_key targets [] tt)
        ∙ rw (has_current k) refl

    -- In a table with distinct identifiers, where the rows found for the user have distinct keys, a
    -- synchronization leaves the user exactly the keys of the targets, also where an insert is
    -- ignored, and every other user's rows as they are.
    pub sync_effective_roles-holds_key :
        ((k : String)
          → holds_key user_id k (sync_effective_roles_for_user table fresh user_id targets rows).1
            ≡ has_key effective_role_key targets k)
        × (select
              (λ r. not (r.user_id == user_id))
              (sync_effective_roles_for_user table fresh user_id targets rows).1
            ≡ select (λ r. not (r.user_id == user_id)) rows)
    unfolding sync_effective_roles_for_user
    sync_effective_roles-holds_key = (
      λ k.
          holds_key-insert table fresh user_id to_insert (delete_by_ids table fresh to_delete rows)
            k
          ∙ rw (holds_key-delete k, has_key-to_insert k)
              (exactly (holds_key user_id k rows) (wanted k) ∙ wanted-has_key k),
      others-insert table fresh user_id to_insert (delete_by_ids table fresh to_delete rows)
          ∙ ap (select (λ r. not (r.user_id == user_id))) delete-stale
          ∙ select-select (λ r. not (r.user_id == user_id)) (λ r. not (stale r)) rows
          ∙ select-congr _ (λ r. not (r.user_id == user_id)) rows
              (λ r c. others_stay (r.user_id == user_id) (not (wanted (row_key r)))),
    )

-- In a table with distinct identifiers, where the rows found for the user have distinct keys: a second
-- synchronization with the same targets after the first reports no row inserted or deleted and leaves
-- the table as it is.
pub sync_effective_roles_twice :
    (table : Table) (fresh : List UserEffectiveRole → ℕ) (user_id : ℕ)
    (targets : List UserEffectiveRoleEntry) (rows : List UserEffectiveRole)
    → AreUnique rows
    → AreDistinctKeys row_key (table.find (of_user table fresh user_id) rows)
    → let once = (sync_effective_roles_for_user table fresh user_id targets rows).1 in
      sync_effective_roles_for_user table fresh user_id targets once
      ≡ (record { inserted = 0; deleted = 0 }, once)
sync_effective_roles_twice table fresh user_id targets rows unique distinct =
    sync_effective_roles_settled table fresh user_id targets
      (sync_effective_roles_for_user table fresh user_id targets rows).1
      (sync_effective_roles-holds_key table fresh user_id targets rows unique distinct).0
