-- ===== src/Read/Served.antt =====
-- What crates/depot-read/src/service.rs serves.
use nix_project_cache.Prelude.{
  ◌≡◌, refl, sym, ◌∙◌, false, inl, inr, ◌⊎◌, true, Option, none, some, List, [], ◌∷◌, Result, ok,
  bind-ok, map_err, map_err-ok, Result-cases, Bool-cases,
}
use nix_project_cache.Prelude.Text.{Text}
use nix_project_cache.Prelude.Sort.{sort_by, sort_by-row}
use nix_project_cache.Catalog.{StorageCatalog, storage}
use nix_project_cache.Db.{Formats}
use nix_project_cache.Db.Objects.{
  BlobMetadata, ObjectTables, StorageObjectRecord, StorageObjectRow, list_storage_objects,
}
use nix_project_cache.Read.{
  is_visible_in_aggregate, DepotView, ReadError, ViewTables, by_preference, first_upstream,
  get_first, get_object, get_unscoped, get_visible, or_upstream, preferred_storage_id,
  storage_object_visible_in_view, database, upstream_failed, is_before, is_visible, aggregate,
  project_view,
}
use mathlib.Core.List.{Memᴰ}

-- An upstream of the list that has what is asked.
pub IsFromUpstream : {A V X : Type 0} → (V → Result X (Option A)) → Result X (List V) → A → Type 0
IsFromUpstream {V = V} ask upstreams a =
    (vs : List V) × (upstreams ≡ ok vs) × (v : V) × Memᴰ v vs × (ask v ≡ ok (some a))

-- A record of the object, with the metadata, whose storage is one of the catalog and holds the bytes.
pub IsHeldIn :
    {B T U X Y : Type 0}
    → Formats U T
    → (B → Text → Result X (Option Y))
    → StorageCatalog B
    → ObjectTables
    → Text
    → BlobMetadata T
    → Y
    → Type 0
IsHeldIn {B} {T} formats get_bytes catalog objects path m y =
    (records : List (StorageObjectRecord T)) × (r : StorageObjectRecord T) × (backend : B)
    × (list_storage_objects formats path objects ≡ ok records)
    × Memᴰ r records
    × (r.metadata ≡ m)
    × (storage catalog r.storage_id ≡ ok backend)
    × (get_bytes backend path ≡ ok (some y))

-- One of the records, as above.
abbrev IsOneOf :
    {B T X Y : Type 0}
    → (B → Text → Result X (Option Y))
    → StorageCatalog B
    → List (StorageObjectRecord T)
    → Text
    → BlobMetadata T
    → Y
    → Type 0
IsOneOf {B} {T} get_bytes catalog records path m y =
    (r : StorageObjectRecord T) × (backend : B) × Memᴰ r records
    × (r.metadata ≡ m)
    × (storage catalog r.storage_id ≡ ok backend)
    × (get_bytes backend path ≡ ok (some y))

first_upstream-found :
    {A D V X : Type 0} (ask : V → Result X (Option A)) (vs : List V) {a : A}
    → ◌≡◌ {A = Result (ReadError D X) (Option A)} (first_upstream ask vs) (ok (some a))
    → (v : V) × Memᴰ v vs × (ask v ≡ ok (some a))
unfolding first_upstream
first_upstream-found ask [] h = cc
first_upstream-found {D = D} ask (v ∷ vs) h = elim (Result-cases (ask v)) [
  | inr (x, e) ↦ let wrong = rw (first_upstream, e) at h in cc
  | inl (none, e) ↦
      let (u, there, at) = first_upstream-found {D = D} ask vs (rw (first_upstream, e) at h) in
      (u, Memᴰ.tail there, at)
  | inl (some b, e) ↦ let own = rw (first_upstream, e) at h in (v, Memᴰ.head refl, cc)
]

module _ {B D T U V X Y : Type 0} (formats : Formats U T)
    (get_bytes : B → Text → Result X (Option Y))
    (upstreams_for_view : DepotView → Result X (List V))
    (get_upstream : V → Text → Result X (Option (BlobMetadata T × Y))) where
  get_first-found :
      (catalog : StorageCatalog B) (path : Text) (records : List (StorageObjectRecord T))
      {m : BlobMetadata T} {y : Y}
      → ◌≡◌ {A = Result (ReadError D X) (Option (BlobMetadata T × Y))}
          (get_first formats get_bytes catalog path records)
          (ok (some (m, y)))
      → IsOneOf get_bytes catalog records path m y
  unfolding get_first
  get_first-found catalog path [] h = cc
  get_first-found catalog path (r ∷ records) {m} {y} h =
      let later : get_first {D = D} formats get_bytes catalog path records ≡ ok (some (m, y))
          → IsOneOf get_bytes catalog (r ∷ records) path m y =
        λ h'.
          let (q, backend, there, own, e, at) =
            get_first-found catalog path records {m = m} {y = y} h' in
          (q, backend, Memᴰ.tail there, own, e, at) in
      elim (Result-cases (storage catalog r.storage_id)) [
        | inr (x, e) ↦ later (rw (get_first, e) at h)
        | inl (backend, e) ↦ elim (Result-cases (get_bytes backend path)) [
          | inr (x, at) ↦ let wrong = rw (get_first, e, at) at h in cc
          | inl (none, at) ↦ later (rw (get_first, e, at) at h)
          | inl (some z, at) ↦
              let own = rw (get_first, e, at) at h in (r, backend, Memᴰ.head refl, cc, e, cc)
        ]
      ]

  get_visible-IsHeldIn :
      (catalog : StorageCatalog B) (tables : ViewTables) (view : DepotView) (path : Text)
      {m : BlobMetadata T} {y : Y}
      → ◌≡◌ {A = Result (ReadError D X) (Option (BlobMetadata T × Y))}
          (get_visible formats get_bytes catalog tables view path)
          (ok (some (m, y)))
      → (storage_object_visible_in_view tables view path ≡ true)
        × IsHeldIn formats get_bytes catalog tables.objects path m y
  unfolding get_visible get_unscoped by_preference IsHeldIn
  get_visible-IsHeldIn catalog tables view path h =
      elim (Bool-cases (storage_object_visible_in_view tables view path)) [
        | inr hidden ↦ let wrong = rw hidden at h in cc
        | inl visible ↦
            let (preferred, e, h1) =
              bind-ok (map_err database (preferred_storage_id catalog tables.projects view)) _
                (rw visible at h) in
            let (records, f, h2) =
              bind-ok (map_err database (list_storage_objects formats path tables.objects)) _ h1 in
            let (r, backend, there, own, known, at) =
              get_first-found catalog path (sort_by (is_before preferred) records) h2 in
            (
              visible,
              (
                records,
                r,
                backend,
                map_err-ok database (list_storage_objects formats path tables.objects) f,
                sort_by-row (is_before preferred) records there,
                own,
                known,
                at,
              ),
            )
      ]

  -- An object that is served either is visible in the view, is listed with that metadata for a storage of the
  -- catalog and has those bytes there; or one of the view's upstreams gave both.
  pub get_object-source :
      (catalog : StorageCatalog B) (tables : ViewTables) (view : DepotView) (path : Text)
      {m : BlobMetadata T} {y : Y}
      → ◌≡◌ {A = Result (ReadError D X) (Option (BlobMetadata T × Y))}
          (get_object formats get_bytes upstreams_for_view get_upstream catalog tables view path)
          (ok (some (m, y)))
      → ((storage_object_visible_in_view tables view path ≡ true)
          × IsHeldIn formats get_bytes catalog tables.objects path m y)
        ⊎ IsFromUpstream (λ v. get_upstream v path) (upstreams_for_view view) (m, y)
  unfolding get_object IsFromUpstream
  get_object-source catalog tables view path {m} {y} h =
      let (found, e, h1) = bind-ok (get_visible formats get_bytes catalog tables view path) _ h in
      served found e h1
    where
      served :
          (found : Option (BlobMetadata T × Y))
          → ◌≡◌ {A = Result (ReadError D X) (Option (BlobMetadata T × Y))}
              (get_visible formats get_bytes catalog tables view path)
              (ok found)
          → or_upstream {D = D} formats get_bytes upstreams_for_view get_upstream view path found
            ≡ ok (some (m, y))
          → ((storage_object_visible_in_view tables view path ≡ true)
              × IsHeldIn formats get_bytes catalog tables.objects path m y)
            ⊎ IsFromUpstream (λ v. get_upstream v path) (upstreams_for_view view) (m, y)
      served (some r) e k = inl (get_visible-IsHeldIn catalog tables view path {m = m} {y = y} cc)
      served none e k =
          let (vs, at, k1) = bind-ok (map_err upstream_failed (upstreams_for_view view)) _ k in
          let (v, there, gave) = first_upstream-found {D = D} (λ v. get_upstream v path) vs k1 in
          inr (vs, map_err-ok upstream_failed (upstreams_for_view view) at, v, there, gave)

  -- In a view where the object is not visible, the answer, errors included, is the same for every other content
  -- and failure of the storages, every other catalog and every other rows of stored objects.
  pub get_object-hidden :
      (get_other : B → Text → Result X (Option Y)) (catalog other_catalog : StorageCatalog B)
      (tables : ViewTables) (rows : List StorageObjectRow) (view : DepotView) (path : Text)
      → storage_object_visible_in_view tables view path ≡ false
      → ◌≡◌ {A = Result (ReadError D X) (Option (BlobMetadata T × Y))}
          (get_object formats get_bytes upstreams_for_view get_upstream catalog tables view path)
          (get_object formats get_other upstreams_for_view get_upstream other_catalog
            (record tables { objects = record tables.objects { storage_objects = rows } })
            view
            path)
  unfolding get_object get_visible storage_object_visible_in_view is_visible is_visible_in_aggregate
  get_object-hidden get_other catalog other_catalog tables rows view path hidden =
      answer get_bytes catalog tables hidden
      ∙ sym (
          answer get_other other_catalog
            (record tables { objects = record tables.objects { storage_objects = rows } })
            (hidden_still view hidden))
    where
      answer :
          (get_bytes : B → Text → Result X (Option Y)) (catalog : StorageCatalog B)
          (tables : ViewTables)
          → storage_object_visible_in_view tables view path ≡ false
          → ◌≡◌ {A = Result (ReadError D X) (Option (BlobMetadata T × Y))}
              (get_object formats get_bytes upstreams_for_view get_upstream catalog tables view
                path)
              (or_upstream formats get_bytes upstreams_for_view get_upstream view path none)
      answer get_bytes catalog tables hidden = rw hidden refl

      hidden_still :
          (view : DepotView)
          → storage_object_visible_in_view tables view path ≡ false
          → storage_object_visible_in_view
              (record tables { objects = record tables.objects { storage_objects = rows } })
              view
              path
            ≡ false
      hidden_still aggregate h = h
      hidden_still (project_view project) h = h
