-- ===== src/Db/Bindings.antt =====
-- The repositories of a provider that may write to a project:
-- crates/depot-db/src/project_oidc_identities.rs.
use nix_project_cache.Prelude.{
  Bool, not, ◌&&◌, Option, List, [], ◌++◌, map, Result, ok, ◌>>=◌, ◌>>◌, guard, ok_or, collect,
  if◌then◌else◌, any,
}
use nix_project_cache.Prelude.Text.{Text, text_eq}
use nix_project_cache.Prelude.Text.Order.{text_leb}
use nix_project_cache.Prelude.Text.Search.{trim}
use nix_project_cache.Prelude.Rows.{select}
use nix_project_cache.Prelude.Sort.{sort_by}
use nix_project_cache.Ident.{ProjectSlug}
use nix_project_cache.Db.{empty_repository, invalid_time, empty_provider, DbError, Formats}
use nix_project_cache.Db.Projects.{ProjectLookupRow, parse_slug, project_id_by_slug}
use nix_project_cache.Db.Tokens.{normalized_patterns, stored_pattern}
use mathlib.Core.List.{flat_map}

pub record BindingRow : Type 0 where
  pub project_id : Text
  pub provider : Text
  pub repository : Text
  pub ref_pattern : Text
  pub created_at : Text

-- The tables `projects` and `project_oidc_identities`.
pub record BindingTables : Type 0 where
  pub projects : List ProjectLookupRow
  pub bindings : List BindingRow

pub record ProjectOidcIdentityLookupRow : Type 0 where
  pub project_slug : Text
  pub provider : Text
  pub repository : Text
  pub ref_pattern : Text
  pub created_at : Text

pub record ProjectOidcIdentityRecord (T : Type 0) : Type 0 where
  pub project_slug : ProjectSlug
  pub provider : Text
  pub repository : Text
  pub ref_pattern : Option Text
  pub created_at : T

abbrev pub is_bound : Text → Text → Text → BindingRow → Bool
is_bound project_id provider repository b =
    text_eq b.project_id project_id
    && (text_eq b.provider provider && text_eq b.repository repository)

abbrev pub has_repository : Text → Text → BindingRow → Bool
has_repository provider repository b =
    text_eq b.provider provider && text_eq b.repository repository

unfoldable pub binding_row : Text → Text → Text → Text → Text → BindingRow
binding_row created_at project_id provider repository pattern = record {
  project_id = project_id;
  provider = provider;
  repository = repository;
  ref_pattern = pattern;
  created_at = created_at;
}

-- The rows of the repository are deleted, so that no row with the new patterns is left to be refused.
unfoldable pub replace_project_oidc_identity :
    Text → ProjectSlug → Text → Text → List Text → BindingTables → Result DbError BindingTables
replace_project_oidc_identity created_at project provider repository ref_patterns tables = do
  guard (not (text_eq (trim provider) [])) empty_provider
  guard (not (text_eq (trim repository) [])) empty_repository
  project_id ← project_id_by_slug tables.projects project
  ok (record tables {
    bindings =
        map (binding_row created_at project_id (trim provider) (trim repository))
          (normalized_patterns ref_patterns)
        ++ select (λ b. not (is_bound project_id (trim provider) (trim repository) b))
            tables.bindings;
  })

-- The answer is whether a row was deleted.
unfoldable pub delete_project_oidc_identity :
    ProjectSlug → Text → Text → BindingTables → Result DbError (Bool × BindingTables)
delete_project_oidc_identity project provider repository tables = do
  project_id ← project_id_by_slug tables.projects project
  ok (
    any (is_bound project_id (trim provider) (trim repository)) tables.bindings,
    record tables {
      bindings =
          select (λ b. not (is_bound project_id (trim provider) (trim repository) b))
            tables.bindings;
    },
  )

abbrev pub binding_lookup_row : BindingRow → ProjectLookupRow → ProjectOidcIdentityLookupRow
binding_lookup_row b p = record {
  project_slug = p.slug;
  provider = b.provider;
  repository = b.repository;
  ref_pattern = b.ref_pattern;
  created_at = b.created_at;
}

-- The binding joined with its project.
abbrev pub binding_joined : List ProjectLookupRow → BindingRow → List ProjectOidcIdentityLookupRow
binding_joined projects b =
    map (binding_lookup_row b)
      (select (λ (p : ProjectLookupRow). text_eq p.id b.project_id) projects)

abbrev pub by_slug_and_pattern : ProjectOidcIdentityLookupRow → ProjectOidcIdentityLookupRow → Bool
by_slug_and_pattern a b =
    if text_eq a.project_slug b.project_slug
    then text_leb a.ref_pattern b.ref_pattern
    else text_leb a.project_slug b.project_slug

abbrev pub by_provider : ProjectOidcIdentityLookupRow → ProjectOidcIdentityLookupRow → Bool
by_provider a b =
    if text_eq a.provider b.provider
    then if text_eq a.repository b.repository
      then text_leb a.ref_pattern b.ref_pattern
      else text_leb a.repository b.repository
    else text_leb a.provider b.provider

module _ {U T : Type 0} (formats : Formats U T) where
  unfoldable pub binding_record :
      ProjectOidcIdentityLookupRow → Result DbError (ProjectOidcIdentityRecord T)
  binding_record r = do
    slug ← parse_slug r.project_slug
    created_at ← ok_or (formats.parse_time r.created_at) (invalid_time r.created_at)
    ok (record {
      project_slug = slug;
      provider = r.provider;
      repository = r.repository;
      ref_pattern = stored_pattern r.ref_pattern;
      created_at = created_at;
    })

  unfoldable pub list_project_oidc_identities :
      BindingTables → ProjectSlug → Result DbError (List (ProjectOidcIdentityRecord T))
  list_project_oidc_identities tables project = do
    project_id ← project_id_by_slug tables.projects project
    collect binding_record (
        sort_by by_provider (
          flat_map (binding_joined tables.projects)
            (select (λ (b : BindingRow). text_eq b.project_id project_id) tables.bindings)))

  unfoldable pub list_matching_project_oidc_identities :
      BindingTables → Text → Text → Result DbError (List (ProjectOidcIdentityRecord T))
  list_matching_project_oidc_identities tables provider repository = collect binding_record (
      sort_by by_slug_and_pattern (
        flat_map (binding_joined tables.projects)
          (select (has_repository provider repository) tables.bindings)))
