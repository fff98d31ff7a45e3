-- ===== src/Db/Projects.antt =====
-- Projects: crates/depot-db/src/projects.rs. The table has one row for a slug.
use nix_project_cache.Prelude.{
  ℕ, Bool, not, Option, none, some, List, [], ◌∷◌, Result, ok, ◌>>=◌, map_err, ok_or, collect,
  if◌then◌else◌, ◌==◌,
}
use nix_project_cache.Prelude.Text.{Text, text_eq}
use nix_project_cache.Prelude.Text.Order.{text_leb}
use nix_project_cache.Prelude.Sort.{sort_by}
use nix_project_cache.Ident.{StorageId, ProjectSlug}
use nix_project_cache.Ident
use nix_project_cache.Db.{
  invalid_time, invalid_uuid, project_not_found, invalid_storage_id, invalid_project_slug, DbError,
  Formats,
}

-- A row of `projects`; the query's `ProjectLookupRow` has the same fields.
pub record ProjectLookupRow : Type 0 where
  pub id : Text
  pub slug : Text
  pub display_name : Text
  pub public : ℕ
  pub storage_id : Text
  pub created_at : Text

pub record ProjectRecord (U T : Type 0) : Type 0 where
  pub id : U
  pub slug : ProjectSlug
  pub display_name : Text
  pub public : Bool
  pub storage_id : StorageId
  pub created_at : T

abbrev pub parse_slug : Text → Result DbError ProjectSlug
parse_slug s = map_err (λ _. invalid_project_slug s) (Ident.parse s)

abbrev pub parse_storage_id : Text → Result DbError StorageId
parse_storage_id s = map_err invalid_storage_id (Ident.new s)

-- The row of a slug, with `LIMIT 1`.
unfoldable pub row_of_slug : List ProjectLookupRow → Text → Option ProjectLookupRow
row_of_slug [] slug = none
row_of_slug (r ∷ rows) slug =
    let later = row_of_slug rows slug in if text_eq r.slug slug then some r else later

unfoldable pub project_id_by_slug : List ProjectLookupRow → ProjectSlug → Result DbError Text
project_id_by_slug projects s = do
  r ← ok_or (row_of_slug projects s.slug) (project_not_found s.slug)
  ok r.id

unfoldable pub get_project_storage_id :
    List ProjectLookupRow → ProjectSlug → Result DbError StorageId
get_project_storage_id projects s = do
  r ← ok_or (row_of_slug projects s.slug) (project_not_found s.slug)
  parse_storage_id r.storage_id

-- `ON CONFLICT(slug) DO UPDATE`: the row of the slug keeps its id and its time of creation.
unfoldable pub insert_project :
    Text
    → Text
    → ProjectSlug
    → Text
    → Bool
    → StorageId
    → List ProjectLookupRow
    → List ProjectLookupRow
insert_project id created_at s display_name public storage_id [] =
    record {
      id = id;
      slug = s.slug;
      display_name = display_name;
      public = if public then 1 else 0;
      storage_id = storage_id.value;
      created_at = created_at;
    }
    ∷ []
insert_project id created_at s display_name public storage_id (r ∷ rows) =
    let rest = insert_project id created_at s display_name public storage_id rows in
    if text_eq r.slug s.slug
    then record r {
      display_name = display_name;
      public = if public then 1 else 0;
      storage_id = storage_id.value;
    }
      ∷ rows
    else r ∷ rest

unfoldable pub list_project_storage_ids :
    List ProjectLookupRow → Result DbError (List (ProjectSlug × StorageId))
list_project_storage_ids projects =
    collect
      (λ (r : ProjectLookupRow). do
        project ← parse_slug r.slug
        storage_id ← parse_storage_id r.storage_id
        ok (project, storage_id))
      (sort_by (λ (r : ProjectLookupRow) (q : ProjectLookupRow). text_leb r.slug q.slug) projects)

module _ {U T : Type 0} (formats : Formats U T) where
  unfoldable pub project_record : ProjectLookupRow → Result DbError (ProjectRecord U T)
  project_record r = do
    id ← ok_or (formats.parse_uuid r.id) (invalid_uuid r.id)
    slug ← parse_slug r.slug
    storage_id ← parse_storage_id r.storage_id
    created_at ← ok_or (formats.parse_time r.created_at) (invalid_time r.created_at)
    ok (record {
      id = id;
      slug = slug;
      display_name = r.display_name;
      public = not (r.public == 0);
      storage_id = storage_id;
      created_at = created_at;
    })

  unfoldable pub get_project_by_slug :
      List ProjectLookupRow → ProjectSlug → Result DbError (Option (ProjectRecord U T))
  get_project_by_slug projects s = elim (row_of_slug projects s.slug) [
    | none ↦ ok none
    | some r ↦ do found ← project_record r; ok (some found)
  ]

  unfoldable pub list_projects : List ProjectLookupRow → Result DbError (List (ProjectRecord U T))
  list_projects projects =
      collect project_record
        (sort_by (λ (r : ProjectLookupRow) (q : ProjectLookupRow). text_leb r.slug q.slug) projects)
