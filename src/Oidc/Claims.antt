-- ===== src/Oidc/Claims.antt =====
-- Which claims of a token are accepted.
use nix_project_cache.Prelude.{
  ◌≡◌, ◌↔◌, refl, Bool, true, not, some, List, [], ◌∷◌, ok, bind-ok, guard, guard-ok, ok_or,
  ok_or-ok, any, All,
}
use nix_project_cache.Prelude.Text.{Text}
use nix_project_cache.Prelude.Rows.{any-row, row-any}
use nix_project_cache.Json.{Value, Members}
use nix_project_cache.Oidc.{
  get_claim, normalize_to_string_vec, is_allowed, is_empty_list, check_claim, validate_bound_claims,
  missing_claim,
}
use mathlib.Core.List.{Memᴰ}

module _ (matches : Text → Text → Bool) (print : Value → Text) where
  -- The token has the claim, and a pattern that is allowed for it matches one of its values.
  abbrev pub IsBoundBy : Members → Text × List Text → Type 0
  IsBoundBy claims bound =
      (value : Value) × (s : Text) × (pattern : Text) × (get_claim claims bound.0 ≡ some value)
      × Memᴰ s (normalize_to_string_vec matches print value)
      × Memᴰ pattern bound.1
      × (matches pattern s ≡ true)

  filled :
      (patterns l : List Text)
      → is_allowed matches print patterns l ≡ true
      → not (is_empty_list l) ≡ true
  filled patterns [] h = cc
  filled patterns (s ∷ l) h = refl

  check_claim_iff :
      (claims : Members) (name : Text) (patterns : List Text)
      → (check_claim matches print claims name patterns ≡ ok tt) ↔ IsBoundBy claims (name, patterns)
  unfolding check_claim
  check_claim_iff claims name patterns = (
    λ h.
        let (value, found, h1) = bind-ok (ok_or (get_claim claims name) (missing_claim name)) _ h in
        let values = normalize_to_string_vec matches print value in
        let (u, full, h2) =
          bind-ok (guard (not (is_empty_list values)) (missing_claim name)) _ h1 in
        let allowed = guard-ok (is_allowed matches print patterns values) _ h2 in
        let (s, m, e) = any-row (λ s. any (λ p. matches p s) patterns) values allowed in
        let (pattern, m', e') = any-row (λ p. matches p s) patterns e in
        (value, s, pattern, ok_or-ok (get_claim claims name) _ found, m, m', e'),
    λ (value, s, pattern, found, m, m', e).
        let values = normalize_to_string_vec matches print value in
        let allowed : is_allowed matches print patterns values ≡ true =
          row-any (λ s. any (λ p. matches p s) patterns) m (row-any (λ p. matches p s) m' e) in
        rw (check_claim, found, filled patterns values allowed, allowed) refl,
  )

  -- The bound claims are accepted exactly if the token has each of them with a value that matches one of the
  -- patterns allowed for it.
  pub validate_bound_claims_iff :
      (claims : Members) (bound : List (Text × List Text))
      → (validate_bound_claims matches print claims bound ≡ ok tt) ↔ All (IsBoundBy claims) bound
  unfolding validate_bound_claims
  validate_bound_claims_iff claims [] = ((λ h. tt), λ h. refl)
  validate_bound_claims_iff claims ((name, patterns) ∷ bound) = (
    λ h.
        let (u, first, h1) = bind-ok (check_claim matches print claims name patterns) _ h in
        (
          (check_claim_iff claims name patterns).0 first,
          (validate_bound_claims_iff claims bound).0 h1,
        ),
    λ h.
        rw (validate_bound_claims, (check_claim_iff claims name patterns).1 h.0)
          ((validate_bound_claims_iff claims bound).1 h.1),
  )
