-- ===== src/Db/Builds.antt =====
-- Builds: crates/depot-db/src/builds.rs. A build's id is the text that `Uuid::to_string` prints; the rows that a
-- foreign key asks for are there.
use nix_project_cache.Prelude.{
  not, ◌&&◌, Option, none, some, List, [], ◌∷◌, map, Result, ok, err, ◌>>=◌, ◌>>◌, guard, ok_or,
  map_err, collect, if◌then◌else◌, any,
}
use nix_project_cache.Prelude.Text.{Text, text, text_eq}
use nix_project_cache.Prelude.Text.Order.{text_leb}
use nix_project_cache.Prelude.Rows.{select}
use nix_project_cache.Prelude.Sort.{sort_by}
use nix_project_cache.Ident.{ProjectSlug}
use nix_project_cache.Nix.StorePath.{StorePathHash, from_hash}
use nix_project_cache.Db.{
  invalid_store_path_hash, DbError, Formats, constraint, invalid_build_status, invalid_uuid,
}
use nix_project_cache.Db.Projects.{ProjectLookupRow, parse_slug, project_id_by_slug}
use mathlib.Core.List.{flat_map}

pub data BuildStatus : Type 0 where
  pending finalized : BuildStatus

-- `BuildStatus::as_str`.
abbrev pub as_str : BuildStatus → Text
as_str pending = text "pending"
as_str finalized = text "finalized"

-- `BuildStatus::parse`.
unfoldable pub parse : Text → Result DbError BuildStatus
parse value =
    if text_eq value (text "pending")
    then ok pending
    else if text_eq value (text "finalized")
    then ok finalized
    else err (invalid_build_status value)

pub record BuildRow : Type 0 where
  pub id : Text
  pub project_id : Text
  pub ref_name : Text
  pub revision : Option Text
  pub status : Text
  pub created_at : Text
  pub finalized_at : Option Text

pub record BuildPathRow : Type 0 where
  pub build_id : Text
  pub store_path_hash : Text

pub record ProjectRefRow : Type 0 where
  pub project_id : Text
  pub ref_name : Text
  pub build_id : Text
  pub updated_at : Text

pub record BuildContextRecord (U : Type 0) : Type 0 where
  pub build_id : U
  pub project_id : U
  pub project_slug : ProjectSlug
  pub ref_name : Text
  pub revision : Option Text
  pub status : BuildStatus

-- What the queries below read of a row of `path_infos`.
pub record PathUrlRow : Type 0 where
  pub store_path_hash : Text
  pub url : Text

pub record BuildTables : Type 0 where
  pub projects : List ProjectLookupRow
  pub builds : List BuildRow
  pub build_paths : List BuildPathRow
  pub refs : List ProjectRefRow

-- The row of a build and the project it belongs to, with `LIMIT 1`.
unfoldable pub build_of_id : List BuildRow → Text → Option BuildRow
build_of_id [] id = none
build_of_id (b ∷ builds) id =
    let later = build_of_id builds id in if text_eq b.id id then some b else later

unfoldable pub project_of_id : List ProjectLookupRow → Text → Option ProjectLookupRow
project_of_id [] id = none
project_of_id (p ∷ projects) id =
    let later = project_of_id projects id in if text_eq p.id id then some p else later

-- The transaction of `begin_build`; the id and the time are what it generates.
unfoldable pub begin_build :
    Text → Text → ProjectSlug → Text → Option Text → BuildTables → Result DbError BuildTables
begin_build build_id created_at project ref_name revision tables = do
  project_id ← project_id_by_slug tables.projects project
  guard (not (any (λ (b : BuildRow). text_eq b.id build_id) tables.builds)) constraint
  ok (record tables {
    builds =
        record {
          id = build_id;
          project_id = project_id;
          ref_name = ref_name;
          revision = revision;
          status = as_str pending;
          created_at = created_at;
          finalized_at = none;
        }
        ∷ tables.builds;
  })

-- `INSERT OR IGNORE`.
unfoldable pub attach_build_path : Text → StorePathHash → BuildTables → BuildTables
attach_build_path build_id hash tables =
    if any
      (λ (r : BuildPathRow). text_eq r.build_id build_id && text_eq r.store_path_hash hash.as_str)
      tables.build_paths
    then tables
    else record tables {
      build_paths =
          record { build_id = build_id; store_path_hash = hash.as_str } ∷ tables.build_paths;
    }

-- A path of the build joined with its path info.
abbrev pub url_of : List PathUrlRow → BuildPathRow → List (Text × Text)
url_of path_infos r =
    map (λ (p : PathUrlRow). (r.store_path_hash, p.url))
      (select (λ (p : PathUrlRow). text_eq p.store_path_hash r.store_path_hash) path_infos)

abbrev pub checked_hash : Text × Text → Result DbError (StorePathHash × Text)
checked_hash (hash, url) = do
  parsed ← map_err invalid_store_path_hash (from_hash hash)
  ok (parsed, url)

unfoldable pub list_build_path_nar_objects :
    Text → List PathUrlRow → BuildTables → Result DbError (List (StorePathHash × Text))
list_build_path_nar_objects build_id path_infos tables = collect checked_hash (
    sort_by (λ r q. text_leb r.0 q.0)
      (flat_map (url_of path_infos)
        (select (λ (r : BuildPathRow). text_eq r.build_id build_id) tables.build_paths)))

-- The row of a ref is put in, or its build and its time are replaced.
unfoldable pub set_project_ref : ProjectRefRow → List ProjectRefRow → List ProjectRefRow
set_project_ref row [] = row ∷ []
set_project_ref row (r ∷ refs) =
    let rest = set_project_ref row refs in
    if text_eq r.project_id row.project_id && text_eq r.ref_name row.ref_name
    then row ∷ refs
    else r ∷ rest

unfoldable pub finalize_row : Text → Text → BuildRow → BuildRow
finalize_row finalized_at build_id b =
    if text_eq b.id build_id
    then record b { status = as_str finalized; finalized_at = some finalized_at }
    else b

-- `finalized_at` and `updated_at` are the times that the two statements write.
unfoldable pub publish_build_to_ref :
    Text → Text → ProjectSlug → Text → Text → BuildTables → Result DbError BuildTables
publish_build_to_ref finalized_at updated_at project ref_name build_id tables = do
  project_id ← project_id_by_slug tables.projects project
  ok (record tables {
    builds = map (finalize_row finalized_at build_id) tables.builds;
    refs =
        set_project_ref
          (record {
            project_id = project_id;
            ref_name = ref_name;
            build_id = build_id;
            updated_at = updated_at;
          })
          tables.refs;
  })

module _ {U T : Type 0} (formats : Formats U T) where
  unfoldable pub context_record :
      BuildRow → ProjectLookupRow → Result DbError (BuildContextRecord U)
  context_record b p = do
    build_id ← ok_or (formats.parse_uuid b.id) (invalid_uuid b.id)
    project_id ← ok_or (formats.parse_uuid p.id) (invalid_uuid p.id)
    slug ← parse_slug p.slug
    status ← parse b.status
    ok (record {
      build_id = build_id;
      project_id = project_id;
      project_slug = slug;
      ref_name = b.ref_name;
      revision = b.revision;
      status = status;
    })

  -- The build joined with its project.
  unfoldable pub get_build_context :
      Text → BuildTables → Result DbError (Option (BuildContextRecord U))
  get_build_context build_id tables = elim (build_of_id tables.builds build_id) [
    | none ↦ ok none
    | some b ↦ elim (project_of_id tables.projects b.project_id) [
      | none ↦ ok none
      | some p ↦ do context ← context_record b p; ok (some context)
    ]
  ]
