-- ===== src/Oidc.antt =====
-- Claims of an OIDC token: crates/depot-auth/src/oidc_claims.rs. `matches` is the wildcard matcher of the
-- `wildmatch` package, the pattern first; `print` is `Display` of a JSON value. The bound claims stand in the
-- order of their map.
pub mod Claims
use nix_project_cache.Prelude.{
  Bool, true, false, not, Option, none, some, List, [], ◌∷◌, Result, ok, err, ◌>>=◌, ◌>>◌, guard,
  ok_or, any, if◌then◌else◌, ◌==◌, ◌++◌,
}
use nix_project_cache.Prelude.Text.{Text, text, text_eq}
use nix_project_cache.Json.{
  Value, Values, Members, null, boolean, number, string, array, object, nil, cons, get, as_str,
  as_object,
}
use nix_project_cache.Prelude.Text.Search.{split_once}
use mathlib.Core.Option

pub data OidcClaimsError : Type 0 where
  missing_claim : Text → OidcClaimsError
  claim_mismatch : Text → List Text → List Text → OidcClaimsError
  subject_mismatch : Text → List Text → OidcClaimsError

-- `name.split('.')`: `part` is what has been read of the part at hand.
unfoldable pub split_dots : Text → Text → List Text
split_dots part [] = part ∷ []
split_dots part (c ∷ s) =
    let after = split_dots [] s in
    let on = split_dots (part ++ c ∷ []) s in if c == b'.' then part ∷ after else on

-- The loop over the parts after the first.
unfoldable pub descend : Value → List Text → Option Value
descend current [] = some current
descend current (part ∷ parts) = elim (as_object current) [
  | none ↦ none
  | some members ↦ elim (get members part) [ none ↦ none | some value ↦ descend value parts ]
]

-- A name of one part has been looked up already.
unfoldable pub get_path : Members → List Text → Option Value
get_path claims [] = none
get_path claims (part ∷ []) = none
get_path claims (part ∷ next ∷ parts) = elim (get claims part) [
  | none ↦ none
  | some value ↦ descend value (next ∷ parts)
]

unfoldable pub get_claim : Members → Text → Option Value
get_claim claims name = elim (get claims name) [
  | some value ↦ some value
  | none ↦ get_path claims (split_dots [] name)
]

-- `filter_map(Value::as_str)`.
unfoldable pub strings_of : Values → List Text
strings_of nil = []
strings_of (cons value values) =
    let rest = strings_of values in elim (as_str value) [ none ↦ rest | some s ↦ s ∷ rest ]

unfoldable pub get_string_claim : Members → Text → Option Text
get_string_claim claims name = elim (get_claim claims name) [ none ↦ none | some v ↦ as_str v ]

abbrev pub is_empty_list : List Text → Bool
is_empty_list [] = true
is_empty_list (x ∷ l) = false

module _ (matches : Text → Text → Bool) (print : Value → Text) where
  unfoldable pub normalize_to_string_vec : Value → List Text
  normalize_to_string_vec (string s) = s ∷ []
  normalize_to_string_vec (array values) = strings_of values
  normalize_to_string_vec null = []
  normalize_to_string_vec other = print other ∷ []

  -- Some value matches some pattern.
  abbrev pub is_allowed : List Text → List Text → Bool
  is_allowed allowed_patterns values =
      any (λ value. any (λ pattern. matches pattern value) allowed_patterns) values

  -- The body of the loop over the bound claims.
  unfoldable pub check_claim : Members → Text → List Text → Result OidcClaimsError (Unit {0})
  check_claim claims claim_name allowed_patterns = do
    value ← ok_or (get_claim claims claim_name) (missing_claim claim_name)
    guard (not (is_empty_list (normalize_to_string_vec value))) (missing_claim claim_name)
    guard (is_allowed allowed_patterns (normalize_to_string_vec value))
        (claim_mismatch claim_name (normalize_to_string_vec value) allowed_patterns)

  unfoldable pub validate_bound_claims :
      Members → List (Text × List Text) → Result OidcClaimsError (Unit {0})
  validate_bound_claims claims [] = ok tt
  validate_bound_claims claims ((claim_name, allowed_patterns) ∷ bound_claims) = do
    check_claim claims claim_name allowed_patterns
    validate_bound_claims claims bound_claims

  unfoldable pub validate_bound_subject : Members → List Text → Result OidcClaimsError (Unit {0})
  validate_bound_subject claims [] = ok tt
  validate_bound_subject claims (p ∷ patterns) = do
    subject ← ok_or (get_string_claim claims (text "sub")) (missing_claim (text "sub"))
    guard (any (λ pattern. matches pattern subject) (p ∷ patterns))
        (subject_mismatch subject (p ∷ patterns))
