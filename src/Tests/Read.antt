-- ===== src/Tests/Read.antt =====
-- Runs of the reading service.
use nix_project_cache.Prelude.{
  false, err, ◌≡◌, ◌⊎◌, refl, collect, true, Option, none, some, is_some, List, [], ◌∷◌, Result, ok,
}
use nix_project_cache.Prelude.Text.{Text, text, text_eq, bytes}
use nix_project_cache.Prelude.Text.Order.{text_leb}
use nix_project_cache.Prelude.Text.Search.{trim}
use nix_project_cache.Prelude.Sort.{sort_by}
use nix_project_cache.Ident.{ProjectSlug, StorageId, is_id_byte}
use nix_project_cache.Ident
use nix_project_cache.Catalog.{backend_of, storage}
use nix_project_cache.Db.Projects.{get_project_storage_id, row_of_slug}
use nix_project_cache.Db.Objects.{
  BlobMetadata, ObjectTables, StorageObjectRow, list_storage_objects, object_record,
}
use nix_project_cache.Db.Paths.{is_visible_in_project}
use nix_project_cache.Read.{
  contains, DepotView, ReadError, ViewTables, by_preference, get, get_first, get_object,
  get_unscoped, get_visible, head, head_first, head_unscoped, is_before, is_visible, project_view,
  storage_object_visible_in_view,
}
use nix_project_cache.Read.Same.{head-get}
use nix_project_cache.Read.Served.{IsFromUpstream, IsHeldIn, get_object-hidden, get_object-source}
use nix_project_cache.Tests.Access.{demo, demo_row, formats}
use nix_project_cache.Tests.Claims.{catalog}
use nix_project_cache.Tests.Collect.{hash_a}
use mathlib.Core.Option

abbrev object_row : StorageObjectRow
object_row = record {
  storage_id = text "main";
  object_path = text "nar/a.nar";
  content_type = text "application/octet-stream";
  content_length = some 3;
  etag = none;
  last_modified = none;
  deleted_at = none;
  first_deleted_at = none;
}

abbrev objects : ObjectTables
objects = record {
  storage_objects = object_row ∷ [];
  path_objects =
      record { store_path_hash = hash_a; object_path = text "nar/a.nar"; kind = text "nar" } ∷ [];
}

abbrev view_tables : ViewTables
view_tables = record {
  projects = demo_row ∷ [];
  refs =
      record {
        project_id = text "p1";
        ref_name = text "main";
        build_id = text "b1";
        updated_at = text "2";
      }
      ∷ [];
  build_paths = record { build_id = text "b1"; store_path_hash = hash_a } ∷ [];
  project_pins = [];
  aggregate_pins = [];
  objects = objects;
  paths = record { path_infos = []; path_references = []; path_signatures = [] };
}

abbrev stored_metadata : BlobMetadata Text
stored_metadata = record {
  content_type = text "application/octet-stream";
  content_length = some 3;
  etag = none;
  last_modified = none;
}

abbrev get_bytes : Text → Text → Result Text (Option Text)
get_bytes backend path = ok (some (text "abc"))

abbrev head_object : Text → Text → Result Text (Option (BlobMetadata Text))
head_object backend path = ok (some stored_metadata)

abbrev no_upstreams : DepotView → Result Text (List Text)
no_upstreams view = ok []

abbrev get_upstream : Text → Text → Result Text (Option (BlobMetadata Text × Text))
get_upstream v path = ok none

get_object_run :
    ◌≡◌ {A = Result (ReadError Text Text) (Option (BlobMetadata Text × Text))}
      (get_object formats get_bytes no_upstreams get_upstream catalog view_tables
        (project_view demo)
        (text "nar/a.nar"))
      (ok (some (stored_metadata, text "abc")))
unfolding get_object get_visible get_unscoped get_first list_storage_objects object_record collect
    sort_by by_preference storage backend_of storage_object_visible_in_view is_visible
    is_visible_in_project get_project_storage_id row_of_slug Ident.new is_id_byte text_eq text_leb
    is_before trim bytes
get_object_run = refl

get_object-source_example :
    ((storage_object_visible_in_view view_tables (project_view demo) (text "nar/a.nar") ≡ true)
      × IsHeldIn formats get_bytes catalog objects (text "nar/a.nar") stored_metadata (text "abc"))
    ⊎ IsFromUpstream
        (λ v. get_upstream v (text "nar/a.nar"))
        (no_upstreams (project_view demo))
        (stored_metadata, text "abc")
get_object-source_example =
    get_object-source {D = Text} formats get_bytes no_upstreams get_upstream catalog view_tables
      (project_view demo) (text "nar/a.nar") {m = stored_metadata} {y = text "abc"} get_object_run

alike :
    (backend path : Text) (found : Option Text) (metadata : Option (BlobMetadata Text))
    → get_bytes backend path ≡ ok found
    → head_object backend path ≡ ok metadata
    → is_some metadata ≡ is_some found
alike backend path none metadata e h = cc
alike backend path (some y) none e h = cc
alike backend path (some y) (some m) e h = refl

get_run :
    ◌≡◌ {A = Result (ReadError Text Text) (Option (BlobMetadata Text × Text))}
      (get formats get_bytes catalog objects (text "nar/a.nar"))
      (ok (some (stored_metadata, text "abc")))
unfolding get get_unscoped get_first list_storage_objects object_record collect sort_by
    by_preference storage backend_of Ident.new is_id_byte text_eq text_leb is_before trim bytes
get_run = refl

head_run :
    ◌≡◌ {A = Result (ReadError Text Text) (Option (BlobMetadata Text))}
      (head formats head_object catalog objects (text "nar/a.nar"))
      (ok (some stored_metadata))
unfolding head head_unscoped head_first contains list_storage_objects object_record collect sort_by
    by_preference storage backend_of Ident.new is_id_byte text_eq text_leb is_before trim bytes
head_run = refl

head-get_example :
    some stored_metadata
    ≡ Option.map (λ (r : BlobMetadata Text × Text). r.0) (some (stored_metadata, text "abc"))
head-get_example =
    head-get get_bytes head_object alike {D = Text} formats catalog objects (text "nar/a.nar")
      {found = some (stored_metadata, text "abc")} {metadata = some stored_metadata} get_run
      head_run

-- No build has the path of the object.
abbrev hidden_tables : ViewTables
hidden_tables = record view_tables { build_paths = [] }

hidden_run :
    storage_object_visible_in_view hidden_tables (project_view demo) (text "nar/a.nar") ≡ false
unfolding storage_object_visible_in_view is_visible is_visible_in_project text_eq
hidden_run = refl

abbrev get_failed : Text → Text → Result Text (Option Text)
get_failed backend path = err (text "disk failed")

get_object-hidden_example :
    ◌≡◌ {A = Result (ReadError Text Text) (Option (BlobMetadata Text × Text))}
      (get_object formats get_bytes no_upstreams get_upstream catalog hidden_tables
        (project_view demo)
        (text "nar/a.nar"))
      (get_object formats get_failed no_upstreams get_upstream catalog
        (record hidden_tables { objects = record objects { storage_objects = [] } })
        (project_view demo)
        (text "nar/a.nar"))
get_object-hidden_example =
    get_object-hidden {D = Text} formats get_bytes no_upstreams get_upstream get_failed catalog
      catalog hidden_tables [] (project_view demo) (text "nar/a.nar") hidden_run
