-- ===== src/Tests/Access.antt =====
-- Runs of the authorization and of the tables of access tokens.
use nix_project_cache.Prelude.{
  ◌≡◌, refl, inr, Bool, true, ◌||◌, none, some, [], ◌∷◌, ok, err, ◌>>=◌,
}
use nix_project_cache.Prelude.Text.{Text, text, text_eq}
use nix_project_cache.Prelude.Text.Order.{sort}
use nix_project_cache.Prelude.Rows.{dedup}
use nix_project_cache.Ident.{ProjectSlug}
use nix_project_cache.Principal.{AuthenticatedIdentity, access_token}
use nix_project_cache.Db.{Formats}
use nix_project_cache.Db.Projects.{ProjectLookupRow, insert_project}
use nix_project_cache.Db.Tokens.{AccessTokenRecord, TokenTables, revoke_access_token}
use nix_project_cache.Db.Bindings.{BindingTables}
use nix_project_cache.Db.Lifecycle.{TokenSteps, project_inserted, next, done}
use nix_project_cache.Authz.{
  AuthorizedPrincipal, AuthorizationQueries, project_scope, require_project_ref, authorize_project,
  authorize_project_ref, authorize_access_token_project_ref, active_access_token_records,
  principal_of, token_patterns, ref_patterns_from, ref_pattern_matches, sorted_ref_patterns,
  unauthorized,
}
use nix_project_cache.Authz.Refs.{
  NamesRef, authorize_project_ref-require, authorize_project-require,
}
use nix_project_cache.Authz.Admin.{IsConfined, authorize-IsConfined}
use nix_project_cache.Authz.Revoked.{queries_at, revoke_access_token-authorize}
use mathlib.Core.List.{filter_map}

-- Stored texts are the times and ids themselves.
abbrev pub formats : Formats Text Text
formats = record { parse_uuid = some; parse_time = some; format_time = some }

-- The pattern `*` matches every text, another pattern itself.
abbrev pub matches : Text → Text → Bool
matches pattern s = text_eq pattern (text "*") || text_eq pattern s

abbrev pub demo : ProjectSlug
demo = record { slug = text "demo" }

abbrev main_record : AccessTokenRecord Text
main_record = record {
  id = text "t1";
  name = text "ci";
  project_slug = demo;
  ref_pattern = some (text "main");
  created_at = text "2026";
  expires_at = none;
  revoked_at = none;
}

abbrev queries : AuthorizationQueries Text
queries = record {
  list_matching_project_oidc_identities = λ provider repository. ok [];
  list_active_access_token_records_by_id = λ id. ok (main_record ∷ []);
  list_active_access_token_records_by_token = λ token. ok (main_record ∷ []);
}

abbrev ci : AuthenticatedIdentity
ci = access_token (text "t1") (text "access-token:ci")

abbrev ci_principal : AuthorizedPrincipal
ci_principal = record { identity = ci; scope = project_scope demo (text "main" ∷ []) }

ci_run : authorize_project_ref queries matches ci demo (text "main") ≡ ok ci_principal
unfolding authorize_project_ref authorize_access_token_project_ref active_access_token_records
    principal_of token_patterns ref_patterns_from ref_pattern_matches sorted_ref_patterns filter_map
    dedup sort text_eq
ci_run = refl

authorize_project_ref-require_example :
    require_project_ref matches ci_principal demo (text "main") ≡ ok tt
authorize_project_ref-require_example =
    authorize_project_ref-require queries matches (text "main") ci demo {p = ci_principal} ci_run

not_oidc : NamesRef ci (text "dev")
not_oidc o e = cc

authorize_project-require_example :
    (authorize_project queries ci demo >>= λ p. require_project_ref matches p demo (text "dev"))
    ≡ (authorize_project_ref queries matches ci demo (text "dev") >>= λ _. ok tt)
authorize_project-require_example =
    authorize_project-require queries matches (text "dev") ci demo not_oidc

authorize-IsConfined_example : IsConfined ci demo ci_principal
authorize-IsConfined_example =
    authorize-IsConfined queries matches ci demo (text "main") {p = ci_principal} (inr ci_run)

abbrev pub demo_row : ProjectLookupRow
demo_row = record {
  id = text "p1";
  slug = text "demo";
  display_name = text "Demo";
  public = 1;
  storage_id = text "main";
  created_at = text "2026";
}

abbrev token_tables : TokenTables
token_tables = record {
  projects = demo_row ∷ [];
  tokens =
      record {
        id = text "t1";
        token_hash = text "hash";
        name = text "ci";
        project_id = text "p1";
        created_at = text "2026";
        expires_at = none;
        revoked_at = none;
      }
      ∷ [];
  ref_patterns = record { token_id = text "t1"; ref_pattern = text "main" } ∷ [];
}

abbrev bindings : BindingTables
bindings = record { projects = demo_row ∷ []; bindings = [] }

abbrev hash_token : Text → Text
hash_token token = token

was_changed : (revoke_access_token (text "2027") (text "t1") token_tables).0 ≡ true
unfolding revoke_access_token text_eq
was_changed = refl

abbrev revoked_tables : TokenTables
revoked_tables = (revoke_access_token (text "2027") (text "t1") token_tables).1

abbrev later_tables : TokenTables
later_tables = record revoked_tables {
  projects =
      insert_project (text "p2") (text "2027") (record { slug = text "other" }) (text "Other") true
        (record { value = text "main" }) revoked_tables.projects;
}

one_step : TokenSteps formats hash_token revoked_tables later_tables
one_step =
    next
      (project_inserted (text "p2") (text "2027") (record { slug = text "other" }) (text "Other")
        true (record { value = text "main" }))
      done

revoke_access_token-authorize_example :
    (authorize_project (queries_at formats hash_token later_tables bindings (text "2028")) ci demo
      ≡ err unauthorized)
    × (authorize_project_ref
          (queries_at formats hash_token later_tables bindings (text "2028"))
          matches
          ci
          demo
          (text "main")
        ≡ err unauthorized)
revoke_access_token-authorize_example =
    revoke_access_token-authorize formats hash_token matches (text "2027") (text "t1") token_tables
      {after = later_tables} was_changed one_step bindings (text "2028") (text "access-token:ci")
      (text "main") demo
