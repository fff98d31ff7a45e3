-- ===== src/Db/Objects.antt =====
-- Stored objects: crates/depot-db/src/objects.rs.
use nix_project_cache.Prelude.{
  true, ℕ, ◌^◌, Bool, not, ◌&&◌, Option, none, some, List, [], ◌∷◌, Result, ok, ◌>>=◌, ◌>>◌, guard,
  ok_or, collect, if◌then◌else◌, any, is_some, ltb,
}
use nix_project_cache.Prelude.Text.{Text, text, text_eq}
use nix_project_cache.Prelude.Text.Order.{text_leb}
use nix_project_cache.Prelude.Rows.{select}
use nix_project_cache.Prelude.Sort.{sort_by}
use nix_project_cache.Ident.{StorageId}
use nix_project_cache.Nix.StorePath.{StorePathHash}
use nix_project_cache.Db.{invalid_time, length_out_of_range, unformatted_time, DbError, Formats}
use nix_project_cache.Db.Projects.{parse_storage_id}

pub data PathObjectKind : Type 0 where
  nar_kind listing_kind log_kind realisation_kind : PathObjectKind

-- `PathObjectKind::as_str`.
abbrev pub kind_str : PathObjectKind → Text
kind_str nar_kind = text "nar"
kind_str listing_kind = text "listing"
kind_str log_kind = text "log"
kind_str realisation_kind = text "realisation"

pub record BlobMetadata (T : Type 0) : Type 0 where
  pub content_type : Text
  pub content_length : Option ℕ
  pub etag : Option Text
  pub last_modified : Option T

pub record StorageObjectRow : Type 0 where
  pub storage_id : Text
  pub object_path : Text
  pub content_type : Text
  pub content_length : Option ℕ
  pub etag : Option Text
  pub last_modified : Option Text
  pub deleted_at : Option Text
  pub first_deleted_at : Option Text

pub record PathObjectRow : Type 0 where
  pub store_path_hash : Text
  pub object_path : Text
  pub kind : Text

pub record ObjectTables : Type 0 where
  pub storage_objects : List StorageObjectRow
  pub path_objects : List PathObjectRow

pub record StorageObjectRecord (T : Type 0) : Type 0 where
  pub storage_id : StorageId
  pub metadata : BlobMetadata T

-- `ON CONFLICT(storage_id, object_path)`: the row is replaced, and its marks of deletion are cleared.
unfoldable pub put_object : StorageObjectRow → List StorageObjectRow → List StorageObjectRow
put_object row [] = row ∷ []
put_object row (o ∷ rows) =
    let rest = put_object row rows in
    if text_eq o.storage_id row.storage_id && text_eq o.object_path row.object_path
    then row ∷ rows
    else o ∷ rest

abbrev pub fits_i64 : Option ℕ → Bool
fits_i64 none = true
fits_i64 (some n) = ltb n (2 ^ 63)

-- `INSERT OR IGNORE`.
unfoldable pub link_path_object :
    StorePathHash → Text → PathObjectKind → ObjectTables → ObjectTables
link_path_object hash object_path kind tables =
    if any
      (λ (o : PathObjectRow).
        text_eq o.store_path_hash hash.as_str
        && (text_eq o.object_path object_path && text_eq o.kind (kind_str kind)))
      tables.path_objects
    then tables
    else record tables {
      path_objects =
          record { store_path_hash = hash.as_str; object_path = object_path; kind = kind_str kind }
          ∷ tables.path_objects;
    }

unfoldable pub path_has_object : StorePathHash → Text → PathObjectKind → ObjectTables → Bool
path_has_object hash object_path kind tables =
    any
      (λ (o : PathObjectRow).
        text_eq o.store_path_hash hash.as_str
        && (text_eq o.object_path object_path && text_eq o.kind (kind_str kind)))
      tables.path_objects

module _ {U T : Type 0} (formats : Formats U T) where
  abbrev pub formatted_time : Option T → Result DbError (Option Text)
  formatted_time none = ok none
  formatted_time (some time) = do t ← ok_or (formats.format_time time) unformatted_time; ok (some t)

  unfoldable pub upsert_storage_object :
      StorageId → Text → BlobMetadata T → ObjectTables → Result DbError ObjectTables
  upsert_storage_object storage_id object_path metadata tables = do
    guard (fits_i64 metadata.content_length) length_out_of_range
    last_modified ← formatted_time metadata.last_modified
    ok (record tables {
      storage_objects =
          put_object
            (record {
              storage_id = storage_id.value;
              object_path = object_path;
              content_type = metadata.content_type;
              content_length = metadata.content_length;
              etag = metadata.etag;
              last_modified = last_modified;
              deleted_at = none;
              first_deleted_at = none;
            })
            tables.storage_objects;
    })

  abbrev parsed : Option Text → Result DbError (Option T)
  parsed none = ok none
  parsed (some t) = do time ← ok_or (formats.parse_time t) (invalid_time t); ok (some time)

  unfoldable pub object_record : StorageObjectRow → Result DbError (StorageObjectRecord T)
  object_record o = do
    last_modified ← parsed o.last_modified
    storage_id ← parse_storage_id o.storage_id
    ok (record {
      storage_id = storage_id;
      metadata = record {
        content_type = o.content_type;
        content_length = o.content_length;
        etag = o.etag;
        last_modified = last_modified;
      };
    })

  unfoldable pub list_storage_objects :
      Text → ObjectTables → Result DbError (List (StorageObjectRecord T))
  list_storage_objects object_path tables = collect object_record (
      sort_by (λ (o : StorageObjectRow) (q : StorageObjectRow). text_leb o.storage_id q.storage_id)
        (select
          (λ (o : StorageObjectRow).
            text_eq o.object_path object_path && not (is_some o.deleted_at))
          tables.storage_objects))
