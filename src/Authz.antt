-- ===== src/Authz.antt =====
-- Who may do what: crates/depot-write/src/authz.rs. `matches` is the wildcard matcher of the `wildmatch`
-- package, the pattern first; `db` is what the authorization asks the database.
pub mod Refs
pub mod Admin
pub mod Revoked
use nix_project_cache.Prelude.{
  Bool, true, false, not, ◌||◌, Option, none, some, List, [], ◌∷◌, map, Result, ok, err, ◌>>=◌,
  ◌>>◌, guard, map_err, ok_or, any, is_none, ◌++◌, if◌then◌else◌,
}
use nix_project_cache.Prelude.Text.{Text, text, text_eq}
use nix_project_cache.Prelude.Text.Order.{sort}
use nix_project_cache.Prelude.Text.Search.{strip_prefix, trim}
use nix_project_cache.Prelude.Rows.{select, dedup}
use nix_project_cache.Ident.{ProjectSlug}
use nix_project_cache.Auth.{
  AuthError, Authorizer, disabled, unavailable, missing_token, invalid_token,
}
use nix_project_cache.Principal.{
  AuthenticatedIdentity, OidcIdentity, AccessTokenIdentity, bootstrap_admin_kind, oidc_kind,
  access_token_kind, access_token,
}
use nix_project_cache.Db.{DbError}
use nix_project_cache.Db.Tokens.{AccessTokenRecord}
use nix_project_cache.Db.Bindings.{ProjectOidcIdentityRecord}
use mathlib.Core.Option
use mathlib.Core.List.{filter_map}

pub data AuthorizedScope : Type 0 where
  admin : AuthorizedScope
  project_scope : ProjectSlug → List Text → AuthorizedScope

pub record AuthorizedPrincipal : Type 0 where
  pub identity : AuthenticatedIdentity
  pub scope : AuthorizedScope

pub data AuthorizationServiceError : Type 0 where
  service_unavailable unauthorized forbidden : AuthorizationServiceError

-- The queries, at the time of the call.
pub record AuthorizationQueries (T : Type 0) : Type 0 where
  pub list_matching_project_oidc_identities :
      Text → Text → Result DbError (List (ProjectOidcIdentityRecord T))
  pub list_active_access_token_records_by_id : Text → Result DbError (List (AccessTokenRecord T))
  pub list_active_access_token_records_by_token : Text → Result DbError (List (AccessTokenRecord T))

abbrev pub is_empty : {A : Type 0} → List A → Bool
is_empty [] = true
is_empty (x ∷ xs) = false

-- The header's value as text, if it has one.
abbrev pub bearer_from_headers : Option Text → Option Text
bearer_from_headers none = none
bearer_from_headers (some value) = Option.map trim (strip_prefix (text "Bearer ") value)

abbrev pub service_error : AuthError → AuthorizationServiceError
service_error missing_token = unauthorized
service_error invalid_token = unauthorized
service_error disabled = service_unavailable
service_error (unavailable message) = service_unavailable

unfoldable pub authenticate_headers :
    Authorizer AuthenticatedIdentity
    → Option Text
    → Result AuthorizationServiceError AuthenticatedIdentity
authenticate_headers authorizer header =
    map_err service_error (authorizer (bearer_from_headers header))

unfoldable pub authorize_admin :
    AuthenticatedIdentity → Result AuthorizationServiceError AuthorizedPrincipal
authorize_admin identity = elim identity.kind [
  | bootstrap_admin_kind ↦ ok (record { identity = identity; scope = admin })
  | oidc_kind _ ↦ err forbidden
  | access_token_kind _ ↦ err forbidden
]

-- `sort` and `dedup`.
unfoldable pub sorted_ref_patterns : List Text → List Text
sorted_ref_patterns patterns = dedup (sort patterns)

-- Both `ref_patterns_from_oidc_bindings` and `ref_patterns_from_access_token_records`, of the records'
-- patterns.
unfoldable pub ref_patterns_from : List (Option Text) → List Text
ref_patterns_from patterns =
    if any is_none patterns then [] else sorted_ref_patterns (filter_map (λ p. p) patterns)

unfoldable pub require_admin : AuthorizedPrincipal → Result AuthorizationServiceError (Unit {0})
require_admin principal = elim principal.scope [ admin ↦ ok tt | project_scope _ _ ↦ err forbidden ]

unfoldable pub require_project :
    AuthorizedPrincipal → ProjectSlug → Result AuthorizationServiceError (Unit {0})
require_project principal project = elim principal.scope [
  | admin ↦ ok tt
  | project_scope own patterns ↦ if text_eq own.slug project.slug then ok tt else err forbidden
]

module _ (matches : Text → Text → Bool) where
  unfoldable pub ref_pattern_matches : Option Text → Option Text → Bool
  ref_pattern_matches none ref_name = true
  ref_pattern_matches (some pattern) none = false
  ref_pattern_matches (some pattern) (some ref_name) = matches pattern ref_name

  -- What a scope's patterns admit: every ref if there is none.
  unfoldable pub admits : List Text → Text → Bool
  admits patterns ref_name = is_empty patterns || any (λ p. matches p ref_name) patterns

  unfoldable pub require_project_ref :
      AuthorizedPrincipal → ProjectSlug → Text → Result AuthorizationServiceError (Unit {0})
  unfolding admits
  require_project_ref principal project ref_name = elim principal.scope [
    | admin ↦ ok tt
    | project_scope own patterns ↦
        if text_eq own.slug project.slug
        then if admits patterns ref_name then ok tt else err forbidden
        else err forbidden
  ]

-- The end of each of the four functions below: no record left is refused, the records' patterns are the
-- principal's.
unfoldable pub principal_of :
    AuthenticatedIdentity
    → ProjectSlug
    → List (Option Text)
    → Result AuthorizationServiceError AuthorizedPrincipal
principal_of identity project patterns = do
  guard (not (is_empty patterns)) forbidden
  ok (record { identity = identity; scope = project_scope project (ref_patterns_from patterns) })

unfoldable pub binding_patterns :
    {T : Type 0} → ProjectSlug → List (ProjectOidcIdentityRecord T) → List (Option Text)
binding_patterns {T} project bindings =
    map (λ (b : ProjectOidcIdentityRecord T). b.ref_pattern)
      (select (λ (b : ProjectOidcIdentityRecord T). text_eq b.project_slug.slug project.slug)
        bindings)

unfoldable pub token_patterns :
    {T : Type 0} → ProjectSlug → List (AccessTokenRecord T) → List (Option Text)
token_patterns {T} project records =
    map (λ (r : AccessTokenRecord T). r.ref_pattern)
      (select (λ (r : AccessTokenRecord T). text_eq r.project_slug.slug project.slug) records)

-- `if let Some(token_ref) = oidc.ref_name && token_ref != ref_name`.
abbrev pub is_own_ref : Option Text → Text → Bool
is_own_ref none ref_name = true
is_own_ref (some token_ref) ref_name = text_eq token_ref ref_name

module _ {T : Type 0} (db : AuthorizationQueries T) where
  -- `DbAccessTokenAuthorizer::authorize_bearer`; `print_error` is the error's text.
  unfoldable pub authorize_bearer : (DbError → Text) → Authorizer AuthenticatedIdentity
  authorize_bearer print_error bearer_token = do
    token ← ok_or bearer_token missing_token
    records ←
        map_err (λ e. unavailable (print_error e))
          (db.list_active_access_token_records_by_token token)
    elim records [
      | [] ↦ err invalid_token
      | first ∷ _ ↦ ok (access_token first.id (text "access-token:" ++ first.name))
    ]

  unfoldable pub matching_oidc_bindings :
      AuthenticatedIdentity
      → OidcIdentity
      → Result AuthorizationServiceError (List (ProjectOidcIdentityRecord T))
  matching_oidc_bindings identity oidc = do
    provider ← ok_or identity.provider forbidden
    repository ← ok_or oidc.repository forbidden
    map_err (λ _. service_unavailable)
        (db.list_matching_project_oidc_identities provider repository)

  unfoldable pub active_access_token_records :
      Text → Result AuthorizationServiceError (List (AccessTokenRecord T))
  active_access_token_records token_id = do
    records ←
        map_err (λ _. service_unavailable) (db.list_active_access_token_records_by_id token_id)
    if is_empty records then err unauthorized else ok records

  unfoldable pub authorize_oidc_project :
      AuthenticatedIdentity
      → OidcIdentity
      → ProjectSlug
      → Result AuthorizationServiceError AuthorizedPrincipal
  authorize_oidc_project identity oidc project = do
    bindings ← matching_oidc_bindings identity oidc
    principal_of identity project (binding_patterns project bindings)

  unfoldable pub authorize_access_token_project :
      AuthenticatedIdentity
      → Text
      → ProjectSlug
      → Result AuthorizationServiceError AuthorizedPrincipal
  authorize_access_token_project identity token_id project = do
    records ← active_access_token_records token_id
    principal_of identity project (token_patterns project records)

  unfoldable pub authorize_project :
      AuthenticatedIdentity → ProjectSlug → Result AuthorizationServiceError AuthorizedPrincipal
  authorize_project identity project = elim identity.kind [
    | bootstrap_admin_kind ↦ ok (record { identity = identity; scope = admin })
    | oidc_kind oidc ↦ authorize_oidc_project identity oidc project
    | access_token_kind t ↦ authorize_access_token_project identity t.token_id project
  ]

  module _ (matches : Text → Text → Bool) where
    unfoldable pub authorize_oidc_project_ref :
        AuthenticatedIdentity
        → OidcIdentity
        → ProjectSlug
        → Text
        → Result AuthorizationServiceError AuthorizedPrincipal
    authorize_oidc_project_ref identity oidc project ref_name = do
      guard (is_own_ref oidc.ref_name ref_name) forbidden
      bindings ← matching_oidc_bindings identity oidc
      principal_of identity project (
          select (λ p. ref_pattern_matches matches p oidc.ref_name)
            (binding_patterns project bindings))

    unfoldable pub authorize_access_token_project_ref :
        AuthenticatedIdentity
        → Text
        → ProjectSlug
        → Text
        → Result AuthorizationServiceError AuthorizedPrincipal
    authorize_access_token_project_ref identity token_id project ref_name = do
      records ← active_access_token_records token_id
      principal_of identity project (
          select (λ p. ref_pattern_matches matches p (some ref_name))
            (token_patterns project records))

    unfoldable pub authorize_project_ref :
        AuthenticatedIdentity
        → ProjectSlug
        → Text
        → Result AuthorizationServiceError AuthorizedPrincipal
    authorize_project_ref identity project ref_name = elim identity.kind [
      | bootstrap_admin_kind ↦ ok (record { identity = identity; scope = admin })
      | oidc_kind oidc ↦ authorize_oidc_project_ref identity oidc project ref_name
      | access_token_kind t ↦
          authorize_access_token_project_ref identity t.token_id project ref_name
    ]
