-- ===== src/Read.antt =====
-- Reading, local first: crates/depot-core/src/view.rs, crates/depot-read/src/{resolver, local_objects,
-- service}.rs and the views of the database. `get_bytes` and `head_object` are those of the storage backends,
-- `upstreams_for_view`, `fetch_narinfo_text` and `get_upstream` are the selector's and the upstream client's.

pub mod Same
pub mod Served
use nix_project_cache.Prelude.{
  Bool, true, false, ◌&&◌, ◌||◌, Option, none, some, List, [], ◌∷◌, ◌++◌, Result, ok, err, ◌>>=◌,
  map_err, if◌then◌else◌, any, is_some, ◌==◌,
}
use nix_project_cache.Prelude.Text.{Text, text_eq}
use nix_project_cache.Prelude.Text.Order.{text_leb}
use nix_project_cache.Prelude.Sort.{sort_by}
use nix_project_cache.Ident.{ProjectSlug, StorageId}
use nix_project_cache.Nix.StoreDir.{StoreDir}
use nix_project_cache.Nix.StorePath.{StorePathHash}
use nix_project_cache.Nix.Hash.{NixHashError}
use nix_project_cache.NarInfo.{NarInfo, ParseNarInfoError, parse_narinfo, render_with_signatures}
use nix_project_cache.Signing.{Base64, Ed25519, FingerprintError, NamedSigningKey, sign}
use nix_project_cache.Catalog.{StorageCatalog, storage}
use nix_project_cache.Db.{DbError, Formats}
use nix_project_cache.Db.Projects.{ProjectLookupRow, get_project_storage_id}
use nix_project_cache.Db.Builds.{BuildPathRow, ProjectRefRow}
use nix_project_cache.Db.Objects.{
  BlobMetadata, ObjectTables, PathObjectRow, StorageObjectRecord, list_storage_objects,
}
use nix_project_cache.Db.Paths.{
  PathTables, get_path_info_by_hash, get_project_narinfo, is_visible_in_project,
}

pub data DepotView : Type 0 where
  aggregate : DepotView
  project_view : ProjectSlug → DepotView

pub data ReadError (D X : Type 0) : Type 0 where
  database : DbError → ReadError D X
  storage_failed upstream_failed keys_failed : X → ReadError D X
  unparsed : ParseNarInfoError → ReadError D X
  unsigned : FingerprintError D → ReadError D X
  unrendered : NixHashError D → ReadError D X

-- The rows of `pins` with a project, and the paths of those without.
pub record ViewTables : Type 0 where
  pub projects : List ProjectLookupRow
  pub refs : List ProjectRefRow
  pub build_paths : List BuildPathRow
  pub project_pins : List (Text × Text)
  pub aggregate_pins : List Text
  pub objects : ObjectTables
  pub paths : PathTables

-- The refs of public projects.
unfoldable pub is_public_ref : List ProjectLookupRow → ProjectRefRow → Bool
is_public_ref projects r =
    any (λ (p : ProjectLookupRow). text_eq p.id r.project_id && (p.public == 1)) projects

-- A row of the view `aggregate_visible_paths`.
unfoldable pub is_visible_in_aggregate : ViewTables → Text → Bool
is_visible_in_aggregate tables hash =
    any
      (λ (r : ProjectRefRow).
        is_public_ref tables.projects r
        && any
            (λ (b : BuildPathRow). text_eq b.build_id r.build_id && text_eq b.store_path_hash hash)
            tables.build_paths)
      tables.refs
    || any (λ pin. text_eq pin hash) tables.aggregate_pins

unfoldable pub is_visible : ViewTables → DepotView → Text → Bool
is_visible tables aggregate hash = is_visible_in_aggregate tables hash
is_visible tables (project_view project) hash =
    any
      (λ (p : ProjectLookupRow).
        text_eq p.slug project.slug
        && is_visible_in_project tables.refs tables.build_paths tables.project_pins p.id hash)
      tables.projects

unfoldable pub storage_object_visible_in_view : ViewTables → DepotView → Text → Bool
storage_object_visible_in_view tables view object_path =
    any
      (λ (o : PathObjectRow).
        text_eq o.object_path object_path && is_visible tables view o.store_path_hash)
      tables.objects.path_objects

unfoldable pub get_aggregate_narinfo : ViewTables → StorePathHash → Option NarInfo
get_aggregate_narinfo tables hash =
    if is_visible_in_aggregate tables hash.as_str
    then get_path_info_by_hash tables.paths hash
    else none

unfoldable pub resolve_narinfo : ViewTables → DepotView → StorePathHash → Option NarInfo
resolve_narinfo tables aggregate hash = get_aggregate_narinfo tables hash
resolve_narinfo tables (project_view project) hash =
    get_project_narinfo tables.paths tables.projects tables.refs tables.build_paths
      tables.project_pins project hash

-- The order of the keys `(0, id)` of the preferred storage and `(1, id)` of the others.
unfoldable pub is_before :
    {T : Type 0} → StorageId → StorageObjectRecord T → StorageObjectRecord T → Bool
is_before preferred r q =
    let ids = text_leb r.storage_id.value q.storage_id.value in
    if text_eq r.storage_id.value preferred.value
    then (if text_eq q.storage_id.value preferred.value then ids else true)
    else (if text_eq q.storage_id.value preferred.value then false else ids)

unfoldable pub by_preference :
    {T : Type 0} → Option StorageId → List (StorageObjectRecord T) → List (StorageObjectRecord T)
by_preference none records = records
by_preference (some preferred) records = sort_by (is_before preferred) records

abbrev to_list : {A : Type 0} → Option A → List A
to_list none = []
to_list (some a) = a ∷ []

abbrev pub preferred_storage_id :
    {B : Type 0} → StorageCatalog B → List ProjectLookupRow → DepotView → Result DbError StorageId
preferred_storage_id catalog projects aggregate = ok catalog.default_storage_id
preferred_storage_id catalog projects (project_view project) =
    get_project_storage_id projects project

module _ {B D T U X Y : Type 0} (formats : Formats U T)
    (get_bytes : B → Text → Result X (Option Y)) where
  -- The loop of `get_unscoped`.
  unfoldable pub get_first :
      StorageCatalog B
      → Text
      → List (StorageObjectRecord T)
      → Result (ReadError D X) (Option (BlobMetadata T × Y))
  get_first catalog object_path [] = ok none
  get_first catalog object_path (r ∷ records) =
      let rest = get_first catalog object_path records in
      elim (storage catalog r.storage_id) [
        | err e ↦ rest
        | ok backend ↦ elim (get_bytes backend object_path) [
          | err e ↦ err (storage_failed e)
          | ok (some found) ↦ ok (some (r.metadata, found))
          | ok none ↦ rest
        ]
      ]

  unfoldable pub get_unscoped :
      StorageCatalog B
      → ObjectTables
      → Option StorageId
      → Text
      → Result (ReadError D X) (Option (BlobMetadata T × Y))
  get_unscoped catalog objects preferred object_path = do
    records ← map_err database (list_storage_objects formats object_path objects)
    get_first catalog object_path (by_preference preferred records)

  unfoldable pub get_visible :
      StorageCatalog B
      → ViewTables
      → DepotView
      → Text
      → Result (ReadError D X) (Option (BlobMetadata T × Y))
  get_visible catalog tables view object_path =
      if storage_object_visible_in_view tables view object_path
      then (do
        preferred ← map_err database (preferred_storage_id catalog tables.projects view)
        get_unscoped catalog tables.objects (some preferred) object_path)
      else ok none

  unfoldable pub get :
      StorageCatalog B → ObjectTables → Text → Result (ReadError D X) (Option (BlobMetadata T × Y))
  get catalog objects object_path =
      get_unscoped catalog objects (some catalog.default_storage_id) object_path

-- `DepotStorage::contains`, by the `head` of a backend.
unfoldable pub contains :
    {B M X : Type 0} → (B → Text → Result X (Option M)) → B → Text → Result X Bool
contains head_object backend object_path = do
  metadata ← head_object backend object_path
  ok (is_some metadata)

module _ {B D T U X : Type 0} (formats : Formats U T)
    (head_object : B → Text → Result X (Option (BlobMetadata T))) where
  -- The loop of `head_unscoped`.
  unfoldable pub head_first :
      StorageCatalog B
      → Text
      → List (StorageObjectRecord T)
      → Result (ReadError D X) (Option (BlobMetadata T))
  head_first catalog object_path [] = ok none
  head_first catalog object_path (r ∷ records) =
      let rest = head_first catalog object_path records in
      elim (storage catalog r.storage_id) [
        | err e ↦ rest
        | ok backend ↦ elim (contains head_object backend object_path) [
          | err e ↦ err (storage_failed e)
          | ok true ↦ ok (some r.metadata)
          | ok false ↦ rest
        ]
      ]

  unfoldable pub head_unscoped :
      StorageCatalog B
      → ObjectTables
      → Option StorageId
      → Text
      → Result (ReadError D X) (Option (BlobMetadata T))
  head_unscoped catalog objects preferred object_path = do
    records ← map_err database (list_storage_objects formats object_path objects)
    head_first catalog object_path (by_preference preferred records)

  unfoldable pub head :
      StorageCatalog B → ObjectTables → Text → Result (ReadError D X) (Option (BlobMetadata T))
  head catalog objects object_path =
      head_unscoped catalog objects (some catalog.default_storage_id) object_path

-- Both loops of `service.rs` over the upstreams: the first that has what is asked ends the loop.
unfoldable pub first_upstream :
    {A D V X : Type 0} → (V → Result X (Option A)) → List V → Result (ReadError D X) (Option A)
first_upstream ask [] = ok none
first_upstream ask (v ∷ upstreams) =
    let rest = first_upstream ask upstreams in
    elim (ask v) [
      | err e ↦ err (upstream_failed e)
      | ok (some found) ↦ ok (some found)
      | ok none ↦ rest
    ]

module _ {B D T U V X Y : Type 0} (formats : Formats U T)
    (get_bytes : B → Text → Result X (Option Y))
    (upstreams_for_view : DepotView → Result X (List V))
    (get_upstream : V → Text → Result X (Option (BlobMetadata T × Y))) where
  -- What follows the local store of `get_object`.
  abbrev pub or_upstream :
      DepotView
      → Text
      → Option (BlobMetadata T × Y)
      → Result (ReadError D X) (Option (BlobMetadata T × Y))
  or_upstream view object_path (some found) = ok (some found)
  or_upstream view object_path none = do
    upstreams ← map_err upstream_failed (upstreams_for_view view)
    first_upstream (λ v. get_upstream v object_path) upstreams

  unfoldable pub get_object :
      StorageCatalog B
      → ViewTables
      → DepotView
      → Text
      → Result (ReadError D X) (Option (BlobMetadata T × Y))
  get_object catalog tables view object_path = do
    found ← get_visible formats get_bytes catalog tables view object_path
    or_upstream view object_path found

-- The keys of a project, when the service has any, then the key of the whole depot.
module _ {D E K V X : Type 0} (ed : Ed25519 K E) (b64 : Base64 D) (store_dir : StoreDir)
    (upstreams_for_view : DepotView → Result X (List V))
    (fetch_narinfo_text : V → StorePathHash → Result X (Option Text))
    (aggregate_signing_key : Option (NamedSigningKey K))
    (project_signing_keys : Option (ProjectSlug → Result X (Option (NamedSigningKey K)))) where
  abbrev pub aggregate_signing_keys : List (NamedSigningKey K)
  aggregate_signing_keys = to_list aggregate_signing_key

  abbrev own_keys :
      Option (ProjectSlug → Result X (Option (NamedSigningKey K)))
      → ProjectSlug
      → Result X (List (NamedSigningKey K))
  own_keys none project = ok []
  own_keys (some signing_key) project = do key ← signing_key project; ok (to_list key)

  unfoldable pub signing_keys_for_view :
      DepotView → Result (ReadError D X) (List (NamedSigningKey K))
  signing_keys_for_view aggregate = ok aggregate_signing_keys
  signing_keys_for_view (project_view project) = do
    keys ← map_err keys_failed (own_keys project_signing_keys project)
    ok (keys ++ aggregate_signing_keys)

  unfoldable pub render_signed_narinfo : DepotView → NarInfo → Result (ReadError D X) Text
  render_signed_narinfo view n = do
    keys ← signing_keys_for_view view
    signatures ← map_err unsigned (sign ed b64 (record { store_dir = store_dir; keys = keys }) n)
    map_err unrendered (render_with_signatures b64.decode store_dir n (n.signatures ++ signatures))

  abbrev render_found : DepotView → Option Text → Result (ReadError D X) (Option Text)
  render_found view none = ok none
  render_found view (some narinfo_text) = do
    n ← map_err unparsed (parse_narinfo store_dir narinfo_text)
    rendered ← render_signed_narinfo view n
    ok (some rendered)

  -- What follows the local resolver of `render_narinfo`.
  abbrev render_local :
      DepotView → StorePathHash → Option NarInfo → Result (ReadError D X) (Option Text)
  render_local view hash (some n) = do rendered ← render_signed_narinfo view n; ok (some rendered)
  render_local view hash none = do
    upstreams ← map_err upstream_failed (upstreams_for_view view)
    found ← first_upstream (λ v. fetch_narinfo_text v hash) upstreams
    render_found view found

  unfoldable pub render_narinfo :
      ViewTables → DepotView → StorePathHash → Result (ReadError D X) (Option Text)
  render_narinfo tables view hash = render_local view hash (resolve_narinfo tables view hash)
