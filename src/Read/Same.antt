-- ===== src/Read/Same.antt =====
-- The two loops of crates/depot-read/src/local_objects.rs.
use nix_project_cache.Prelude.{
  ◌≡◌, sym, ap, ◌∙◌, Bool, inl, inr, Option, none, some, List, [], ◌∷◌, Result, ok, is_some,
  bind-ok, ok_inj, Result-cases, map_err,
}
use nix_project_cache.Prelude.Text.{Text}
use nix_project_cache.Catalog.{StorageCatalog, storage}
use nix_project_cache.Db.{Formats}
use nix_project_cache.Db.Objects.{
  BlobMetadata, ObjectTables, StorageObjectRecord, list_storage_objects,
}
use nix_project_cache.Read.{
  ReadError, by_preference, contains, database, get, get_first, get_unscoped, head, head_first,
  head_unscoped,
}
use mathlib.Core.Option

-- `agree`: when a backend answers both questions, its answers agree on whether the object is there. Either may
-- fail where the other does not, as for a directory, a file that may not be read, or a request that is lost.
module _ {B T X Y : Type 0} (get_bytes : B → Text → Result X (Option Y))
    (head_object : B → Text → Result X (Option (BlobMetadata T)))
    (agree : (backend : B) (path : Text) (found : Option Y) (metadata : Option (BlobMetadata T))
      → get_bytes backend path ≡ ok found
      → head_object backend path ≡ ok metadata
      → is_some metadata ≡ is_some found) where
  contains-agrees :
      (backend : B) (path : Text) (found : Option Y) {b : Bool}
      → get_bytes backend path ≡ ok found
      → contains head_object backend path ≡ ok b
      → contains head_object backend path ≡ ok (is_some found)
  unfolding contains
  contains-agrees backend path found {b} at h =
      let (metadata, e, made) =
        bind-ok (head_object backend path) (λ metadata. ok (is_some metadata)) h in
      rw e (ap ok (agree backend path found metadata at e))

  module _ {D U : Type 0} (formats : Formats U T) where
    head_first-get_first :
        (catalog : StorageCatalog B) (path : Text) (records : List (StorageObjectRecord T))
        {found : Option (BlobMetadata T × Y)} {metadata : Option (BlobMetadata T)}
        → ◌≡◌ {A = Result (ReadError D X) (Option (BlobMetadata T × Y))}
            (get_first formats get_bytes catalog path records)
            (ok found)
        → ◌≡◌ {A = Result (ReadError D X) (Option (BlobMetadata T))}
            (head_first formats head_object catalog path records)
            (ok metadata)
        → metadata ≡ Option.map (λ r. r.0) found
    unfolding head_first get_first
    head_first-get_first catalog path [] h k =
        sym (ok_inj k) ∙ ap (Option.map (λ r. r.0)) (ok_inj h)
    head_first-get_first catalog path (r ∷ records) {found} {metadata} h k =
        elim (Result-cases (storage catalog r.storage_id)) [
          | inr (x, e) ↦
              head_first-get_first catalog path records {found = found} {metadata = metadata}
                (rw (e, get_first) at h) (rw (e, head_first) at k)
          | inl (backend, e) ↦ elim (Result-cases (contains head_object backend path)) [
            | inr (x, bad) ↦ let wrong = rw (e, bad, head_first) at k in cc
            | inl (b, here) ↦ elim (Result-cases (get_bytes backend path)) [
              | inr (x, at) ↦ let wrong = rw (e, at, get_first) at h in cc
              | inl (none, at) ↦
                  head_first-get_first catalog path records {found = found} {metadata = metadata}
                    (rw (e, at, get_first) at h)
                    (rw (e, contains-agrees backend path none at here, head_first) at k)
              | inl (some y, at) ↦
                  sym (
                    ok_inj (rw (e, contains-agrees backend path (some y) at here, head_first) at k))
                  ∙ ap (Option.map (λ r. r.0)) (ok_inj (rw (e, at, get_first) at h))
            ]
          ]
        ]

    -- If a backend that answers both questions, for the bytes of an object and for its head, agrees with itself on
    -- whether the object is there, then an object that can be read has the head that is the metadata of what is
    -- read, and a missing one has none, whenever both answers come: both loops ask the storages in the same
    -- order and skip the same ones.
    pub head-get :
        (catalog : StorageCatalog B) (objects : ObjectTables) (path : Text)
        {found : Option (BlobMetadata T × Y)} {metadata : Option (BlobMetadata T)}
        → ◌≡◌ {A = Result (ReadError D X) (Option (BlobMetadata T × Y))}
            (get formats get_bytes catalog objects path)
            (ok found)
        → ◌≡◌ {A = Result (ReadError D X) (Option (BlobMetadata T))}
            (head formats head_object catalog objects path)
            (ok metadata)
        → metadata ≡ Option.map (λ r. r.0) found
    unfolding head get head_unscoped get_unscoped
    head-get catalog objects path {found} {metadata} h k =
        let (records, e, h1) =
          bind-ok (map_err database (list_storage_objects formats path objects)) _ h in
        head_first-get_first catalog path (by_preference (some catalog.default_storage_id) records)
          {found = found} {metadata = metadata} h1 (rw e at k)
