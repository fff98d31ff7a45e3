-- ===== src/Ingest.antt =====
-- The ingest service: crates/depot-ingest/src/service.rs and crates/depot-ingest/src/planner.rs. The storage
-- backends and the client of the upstream caches are parameters: `head` says what a backend holds under a
-- path, `head_upstream` whether an upstream has the path; both can fail. `storage` is the catalog of the
-- backends, and `upstreams` lists the enabled upstreams of a project.
pub mod Planned
pub mod Finalized
pub mod Lifecycle
use nix_project_cache.Prelude.{
  ℕ, Bool, true, false, not, ◌&&◌, Option, none, some, List, [], ◌∷◌, ◌++◌, map, Result, ok, err,
  ◌>>=◌, ◌>>◌, guard, ok_or, map_err, if◌then◌else◌, is_some,
}
use nix_project_cache.Prelude.Text.{Text, text, text_eq}
use nix_project_cache.Ident.{ProjectSlug, StorageId}
use nix_project_cache.Nix.StorePath.{StorePathHash, StorePathHashError, parse_from_store_path}
use nix_project_cache.DepotPath.{DepotObjectPath, nar, nar_info, Patterns, parse_depot_object_path}
use nix_project_cache.NarInfo.{NarInfo}
use nix_project_cache.Db.{DbError, Formats}
use nix_project_cache.Db.Projects.{get_project_storage_id, parse_slug}
use nix_project_cache.Db.Builds.{
  BuildStatus, pending, finalized, BuildContextRecord, BuildTables, PathUrlRow, get_build_context,
  list_build_path_nar_objects, publish_build_to_ref, begin_build,
}
use nix_project_cache.Db.Objects.{
  BlobMetadata, ObjectTables, nar_kind, upsert_storage_object, link_path_object,
}
use nix_project_cache.Db.Paths.{PathTables, PathInfoLookupRow, get_build_path_narinfo}

pub data IngestError (X : Type 0) : Type 0 where
  database : DbError → IngestError X
  invalid_store_path : StorePathHashError → IngestError X
  storage_failed upstream_failed : X → IngestError X
  build_not_found build_not_pending no_registered_paths : IngestError X
  storage_not_configured : StorageId → IngestError X
  not_available : StorePathHash → Text → IngestError X
  narinfo_upload not_multipart : IngestError X
  invalid_upload_path : Text → IngestError X
  path_not_in_build : StorePathHash → IngestError X
  path_mismatch : Text → Text → IngestError X

pub record PlannedUpload : Type 0 where
  pub store_path_hash : StorePathHash
  pub object_path : Text
  pub content_type : Text

pub record IngestTables : Type 0 where
  pub builds : BuildTables
  pub objects : ObjectTables
  pub paths : PathTables

-- `Some(DepotObjectPath::Nar { .. })`.
abbrev pub is_nar : Option DepotObjectPath → Bool
is_nar (some (nar digest compression)) = true
is_nar _ = false

abbrev pub is_pending : BuildStatus → Bool
is_pending pending = true
is_pending finalized = false

abbrev pub has_paths : {A : Type 0} → List A → Bool
has_paths [] = false
has_paths (x ∷ xs) = true

abbrev pub url_rows : List PathInfoLookupRow → List PathUrlRow
url_rows rows =
    map (λ (r : PathInfoLookupRow). record { store_path_hash = r.store_path_hash; url = r.url })
      rows

module _ {X V : Type 0} (head_upstream : V → Text → Result X Bool) where
  -- The first upstream that has the object ends the loop; a failure before it is an error.
  unfoldable pub object_exists_upstream : List V → Text → Result (IngestError X) Bool
  object_exists_upstream [] object_path = ok false
  object_exists_upstream (v ∷ upstreams) object_path = do
    found ← map_err upstream_failed (head_upstream v object_path)
    let rest = object_exists_upstream upstreams object_path in if found then ok true else rest

  module _ (re : Patterns) {M : Type 0} (head : Text → Result X (Option M)) where
    -- Whether the object has to be uploaded: neither the storage nor an upstream has it.
    unfoldable pub is_missing : List V → Text → Result (IngestError X) Bool
    is_missing upstreams object_path = do
      metadata ← map_err storage_failed (head object_path)
      elim metadata [
        | some m ↦ ok false
        | none ↦ do exists ← object_exists_upstream upstreams object_path; ok (not exists)
      ]

    -- The body of the planner's loop.
    unfoldable pub plan_one : List V → NarInfo → Result (IngestError X) (List PlannedUpload)
    plan_one upstreams n = do
      hash ← map_err invalid_store_path (parse_from_store_path n.store_path)
      missing ←
          if is_nar (parse_depot_object_path re n.url) then is_missing upstreams n.url else ok false
      ok (
          if missing
          then record {
            store_path_hash = hash;
            object_path = n.url;
            content_type = text "application/octet-stream";
          }
            ∷ []
          else [])

    unfoldable pub plan_required_uploads :
        List V → List NarInfo → Result (IngestError X) (List PlannedUpload)
    plan_required_uploads upstreams [] = ok []
    plan_required_uploads upstreams (n ∷ narinfos) = do
      planned ← plan_one upstreams n
      rest ← plan_required_uploads upstreams narinfos
      ok (planned ++ rest)

module _ {U T X V B : Type 0} (formats : Formats U T) (re : Patterns)
    (storage : StorageId → Option B) (head : B → Text → Result X (Option (BlobMetadata T)))
    (upstreams : ProjectSlug → Result DbError (List V))
    (head_upstream : V → Text → Result X Bool) where
  abbrev pub pending_context : Text → IngestTables → Result (IngestError X) (BuildContextRecord U)
  pending_context build_id tables = do
    found ← map_err database (get_build_context formats build_id tables.builds)
    context ← ok_or found build_not_found
    guard (is_pending context.status) build_not_pending
    ok context

  abbrev pub project_storage : ProjectSlug → IngestTables → Result (IngestError X) (StorageId × B)
  project_storage project tables = do
    id ← map_err database (get_project_storage_id tables.builds.projects project)
    backend ← ok_or (storage id) (storage_not_configured id)
    ok (id, backend)

  -- What is registered of an object that the storage holds: its row and its link to the path.
  unfoldable pub persist :
      StorageId
      → StorePathHash
      → Text
      → BlobMetadata T
      → ObjectTables
      → Result (IngestError X) (Unit {0}) × ObjectTables
  persist id hash object_path metadata objects =
      elim (upsert_storage_object formats id object_path metadata objects) [
        | err e ↦ (err (database e), objects)
        | ok stored ↦ (ok tt, link_path_object hash object_path nar_kind stored)
      ]

  -- The part of the loop of `finalize_build` after the `head` of an object.
  unfoldable pub check_object :
      StorageId
      → List V
      → StorePathHash
      → Text
      → Option (BlobMetadata T)
      → ObjectTables
      → Result (IngestError X) (Unit {0}) × ObjectTables
  check_object id vs hash object_path (some metadata) objects =
      persist id hash object_path metadata objects
  check_object id vs hash object_path none objects = (
    (do
      exists ← object_exists_upstream head_upstream vs object_path
      guard exists (not_available hash object_path)),
    objects,
  )

  -- The loop of `finalize_build`: each object is in the storage or upstream, and what the storage holds is
  -- registered. What was registered before an error stays.
  unfoldable pub check_objects :
      StorageId
      → B
      → List V
      → List (StorePathHash × Text)
      → ObjectTables
      → Result (IngestError X) (Unit {0}) × ObjectTables
  check_objects id backend vs [] objects = (ok tt, objects)
  check_objects id backend vs ((hash, object_path) ∷ rest) objects =
      elim (head backend object_path) [
        | err e ↦ (err (storage_failed e), objects)
        | ok metadata ↦
            let step = check_object id vs hash object_path metadata objects in
            let after = check_objects id backend vs rest step.1 in
            elim step.0 [ err e ↦ (err e, step.1) | ok done ↦ after ]
      ]

  -- What `finalize_build` looks up before its loop.
  unfoldable pub finalize_inputs :
      Text
      → IngestTables
      → Result
          (IngestError X)
          (BuildContextRecord U × List (StorePathHash × Text) × List V × StorageId × B)
  finalize_inputs build_id tables = do
    context ← pending_context build_id tables
    paths ←
        map_err database
          (list_build_path_nar_objects build_id (url_rows tables.paths.path_infos) tables.builds)
    guard (has_paths paths) no_registered_paths
    vs ← map_err database (upstreams context.project_slug)
    place ← project_storage context.project_slug tables
    ok (context, paths, vs, place.0, place.1)

  unfoldable pub finish_build :
      Text
      → Text
      → Text
      → BuildContextRecord U
      → Result (IngestError X) (Unit {0}) × ObjectTables
      → IngestTables
      → Result (IngestError X) (Unit {0}) × IngestTables
  finish_build finalized_at updated_at build_id context (err e, objects) tables =
      (err e, record tables { objects = objects })
  finish_build finalized_at updated_at build_id context (ok checked, objects) tables =
      elim (publish_build_to_ref finalized_at updated_at context.project_slug context.ref_name
        build_id tables.builds) [
          | err e ↦ (err (database e), record tables { objects = objects })
          | ok published ↦ (ok tt, record tables { builds = published; objects = objects })
        ]

  -- `build_id` is the text of the id that `Uuid::parse_str` reads in the request.
  unfoldable pub finalize_build :
      Text → Text → Text → IngestTables → Result (IngestError X) (Unit {0}) × IngestTables
  finalize_build finalized_at updated_at build_id tables = elim (finalize_inputs build_id tables) [
    | err e ↦ (err e, tables)
    | ok (context, paths, vs, id, backend) ↦
        finish_build finalized_at updated_at build_id context
          (check_objects id backend vs paths tables.objects) tables
  ]

  -- `Some(Nar)` passes, `Some(NarInfo)` and all others are refused.
  abbrev pub check_upload_path : Text → Option DepotObjectPath → Result (IngestError X) (Unit {0})
  check_upload_path object_path (some (nar digest compression)) = ok tt
  check_upload_path object_path (some (nar_info hash)) = err narinfo_upload
  check_upload_path object_path _ = err (invalid_upload_path object_path)

  unfoldable pub validate_upload_target :
      Text → StorePathHash → Text → IngestTables → Result (IngestError X) (StorageId × B)
  validate_upload_target build_id hash object_path tables = do
    context ← pending_context build_id tables
    check_upload_path object_path (parse_depot_object_path re object_path)
    n ←
        ok_or (get_build_path_narinfo tables.paths tables.builds.build_paths build_id hash)
          (path_not_in_build hash)
    guard (text_eq object_path n.url) (path_mismatch object_path n.url)
    project_storage context.project_slug tables
