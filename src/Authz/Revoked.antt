-- ===== src/Authz/Revoked.antt =====
-- The authorization over the token tables: a revoked token is of no more use.
use nix_project_cache.Prelude.{◌≡◌, refl, Bool, true, err}
use nix_project_cache.Prelude.Text.{Text}
use nix_project_cache.Ident.{ProjectSlug}
use nix_project_cache.Principal.{access_token}
use nix_project_cache.Db.{Formats}
use nix_project_cache.Db.Tokens.{
  TokenTables, revoke_access_token, list_active_access_token_records_by_id,
  list_active_access_token_records_by_token,
}
use nix_project_cache.Db.Bindings.{BindingTables, list_matching_project_oidc_identities}
use nix_project_cache.Db.Lifecycle.{
  TokenSteps, steps-IsRevoked, revoke_access_token-IsRevoked,
  list_active_access_token_records_by_id-IsRevoked,
}
use nix_project_cache.Authz.{
  AuthorizationQueries, authorize_project, authorize_project_ref, authorize_access_token_project,
  authorize_access_token_project_ref, active_access_token_records, unauthorized,
}

module _ {U T : Type 0} (formats : Formats U T) (hash_access_token : Text → Text) where
  -- The queries of the database at a time.
  abbrev pub queries_at : TokenTables → BindingTables → Text → AuthorizationQueries T
  queries_at tokens bindings now = record {
    list_matching_project_oidc_identities = list_matching_project_oidc_identities formats bindings;
    list_active_access_token_records_by_id =
        list_active_access_token_records_by_id formats hash_access_token tokens now;
    list_active_access_token_records_by_token =
        list_active_access_token_records_by_token formats hash_access_token tokens now;
  }

  -- Once `revoke_access_token` has changed the row of a token, then after any further creations and
  -- revocations of tokens and changes of projects, at any time, an identity with that token is
  -- unauthorized for every project and every ref.
  pub revoke_access_token-authorize :
      (matches : Text → Text → Bool) (revoked_at token_id : Text) (before : TokenTables)
      {after : TokenTables}
      → (revoke_access_token revoked_at token_id before).0 ≡ true
      → TokenSteps formats hash_access_token
          (revoke_access_token revoked_at token_id before).1
          after
      → (bindings : BindingTables) (now subject ref_name : Text) (project : ProjectSlug)
      → (authorize_project (queries_at after bindings now) (access_token token_id subject) project
          ≡ err unauthorized)
        × (authorize_project_ref
              (queries_at after bindings now)
              matches
              (access_token token_id subject)
              project
              ref_name
            ≡ err unauthorized)
  unfolding authorize_project authorize_project_ref authorize_access_token_project
      authorize_access_token_project_ref active_access_token_records
  revoke_access_token-authorize matches revoked_at token_id before {after} changed steps bindings
        now subject ref_name project =
      let gone =
        list_active_access_token_records_by_id-IsRevoked formats hash_access_token token_id now
          after
          (steps-IsRevoked formats hash_access_token token_id steps (
            revoke_access_token-IsRevoked formats hash_access_token revoked_at token_id before
              changed)) in
      (rw gone refl, rw gone refl)
