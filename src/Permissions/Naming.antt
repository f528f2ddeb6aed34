-- ===== src/Permissions/Naming.antt =====
-- The form of a permission's code: src/modules/permissions/constants/permission-catalog.constants.ts
-- and validatePermissionNaming of loaders/permission-catalog.loader.ts.
use Prim.Native.String.{◌++◌ as str_append}
use access_service.Prelude.{
  ℕ, String, ◌≡◌, refl, Bool, true, false, not, ◌&&◌, ◌||◌, List, [], ◌∷◌, any, all, ◌==◌, leb,
  if◌then◌else◌, str_eq,
}
use access_service.UserGroups.Text.{codes, lower, same_codes}

abbrev pub is_first : ℕ → Bool
is_first c = leb b'a' c && leb c b'z'

abbrev pub is_later : ℕ → Bool
is_later c = is_first c || (leb b'0' c && leb c b'9') || c == b'_' || c == b'-'

-- `[a-z][a-z0-9_-]*$`
abbrev pub matches_action : List ℕ → Bool
matches_action [] = false
matches_action (c ∷ cs) = is_first c && all is_later cs

-- `[a-z0-9_-]*\.[a-z][a-z0-9_-]*$`
abbrev pub matches_rest : List ℕ → Bool
matches_rest [] = false
matches_rest (c ∷ cs) = if c == b'.' then matches_action cs else is_later c && matches_rest cs

abbrev pub matches_code : List ℕ → Bool
matches_code [] = false
matches_code (c ∷ cs) = is_first c && matches_rest cs

-- `PERMISSION_ACTION_REGEX.test(code)`
unfoldable pub permission_action_regex : String → Bool
permission_action_regex code = matches_code (codes code)

abbrev pub prohibited_event_action_suffixes : List String
prohibited_event_action_suffixes =
    "created" ∷ "updated" ∷ "deleted" ∷ "archived" ∷ "approved" ∷ "rejected" ∷ "deactivated"
    ∷ "activated" ∷ "synced" ∷ "requested" ∷ "viewed" ∷ []

unfoldable pub is_event_action : String → Bool
unfolding lower
is_event_action action =
    any (λ s. same_codes (codes s) (lower action)) prohibited_event_action_suffixes

-- `!code || !PERMISSION_ACTION_REGEX.test(code)`
abbrev pub is_ill_formed : String → Bool
is_ill_formed code = str_eq code "" || not (permission_action_regex code)

abbrev pub expected_id : String → String → String
expected_id resource action = str_append resource (str_append "." action)

-- Whether validatePermissionNaming returns.
unfoldable pub is_well_named : String → String → String → Bool
unfolding permission_action_regex is_event_action
is_well_named id resource action =
    if is_ill_formed id
    then false
    else if not (str_eq id (expected_id resource action))
    then false
    else not (is_event_action action)

well_formed : permission_action_regex "leave.self-approve_2" ≡ true
unfolding permission_action_regex
well_formed = refl

ill_formed : permission_action_regex "leave.Approve" ≡ false
unfolding permission_action_regex
ill_formed = refl
