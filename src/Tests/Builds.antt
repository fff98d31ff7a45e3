-- ===== src/Tests/Builds.antt =====
-- Runs of the ingest service.
use nix_project_cache.Prelude.{
  collect, ◌≡◌, ◌↔◌, refl, Bool, false, Option, none, some, List, [], ◌∷◌, Result, ok, err,
}
use nix_project_cache.Prelude.Text.{Text, text, text_eq, bytes}
use nix_project_cache.Prelude.Text.Order.{text_leb}
use nix_project_cache.Prelude.Text.Search.{trim}
use nix_project_cache.Prelude.Sort.{sort_by}
use nix_project_cache.Ident.{ProjectSlug, StorageId, is_slug_byte, is_id_byte}
use nix_project_cache.Ident
use nix_project_cache.Nix.StorePath.{from_hash, is_base32_char}
use nix_project_cache.NarInfo.{NarInfo}
use nix_project_cache.Db.Projects.{project_id_by_slug, row_of_slug, get_project_storage_id}
use nix_project_cache.Db.{DbError}
use nix_project_cache.Db.Builds.{
  parse, build_of_id, project_of_id, get_build_context, context_record, list_build_path_nar_objects,
  publish_build_to_ref, set_project_ref, finalize_row,
}
use nix_project_cache.Db.Objects.{BlobMetadata, upsert_storage_object, put_object, link_path_object}
use nix_project_cache.Ingest.{
  IngestTables, PlannedUpload, finalize_build, finalize_inputs, finish_build, check_objects,
  check_object, persist, validate_upload_target, plan_required_uploads, plan_one, is_missing,
  object_exists_upstream, build_not_pending,
}
use nix_project_cache.Ingest.Planned.{IsPlanned, plan_required_uploads_iff}
use nix_project_cache.Ingest.Finalized.{IsReady, finalize_build_iff}
use nix_project_cache.Ingest.Lifecycle.{IngestSteps, next, done, stored, finalize_build-closed}
use nix_project_cache.Tests.Access.{formats, demo_row}
use nix_project_cache.Tests.Collect.{hash_a}
use nix_project_cache.Tests.Patterns.{matcher}
use nix_project_cache.Tests.Nix.{hash_text, hello_path-parse}
use nix_project_cache.Tests.Cache.{nar_url_text, nar_url-parse, published}
use mathlib.Core.List.{Memᴰ, flat_map}

abbrev storage : StorageId → Option (Unit {0})
storage id = some tt

abbrev metadata : BlobMetadata Text
metadata = record {
  content_type = text "application/octet-stream";
  content_length = some 10;
  etag = none;
  last_modified = none;
}

abbrev head : Unit {0} → Text → Result Text (Option (BlobMetadata Text))
head backend path = ok (some metadata)

abbrev upstreams : ProjectSlug → Result DbError (List (Unit {0}))
upstreams project = ok []

abbrev head_upstream : Unit {0} → Text → Result Text Bool
head_upstream v path = ok false

abbrev tables : IngestTables
tables = record {
  builds = record {
    projects = demo_row ∷ [];
    builds =
        record {
          id = text "b1";
          project_id = text "p1";
          ref_name = text "main";
          revision = none;
          status = text "pending";
          created_at = text "1";
          finalized_at = none;
        }
        ∷ [];
    build_paths = record { build_id = text "b1"; store_path_hash = hash_a } ∷ [];
    refs = [];
  };
  objects = record { storage_objects = []; path_objects = [] };
  paths = record {
    path_infos =
        record {
          store_path_hash = hash_a;
          store_path = text "/nix/store/a";
          url = text "nar/a.nar";
          compression = text "none";
          nar_hash = text "sha256:a";
          nar_size = 10;
          deriver = none;
          ca = none;
        }
        ∷ [];
    path_references = [];
    path_signatures = [];
  };
}

finalize_run :
    (finalize_build formats matcher storage head upstreams head_upstream
      (text "2")
      (text "2")
      (text "b1")
      tables).0
    ≡ ok tt
unfolding finalize_build finalize_inputs finish_build check_objects check_object persist
    upsert_storage_object put_object link_path_object get_build_context context_record build_of_id
    project_of_id parse list_build_path_nar_objects publish_build_to_ref set_project_ref
    finalize_row project_id_by_slug row_of_slug get_project_storage_id from_hash is_base32_char
    sort_by flat_map text_eq text_leb bytes trim Ident.parse Ident.new is_slug_byte is_id_byte
    collect
finalize_run = refl

finalize_build_iff_example :
    ((finalize_build formats matcher storage head upstreams head_upstream
        (text "2")
        (text "2")
        (text "b1")
        tables).0
      ≡ ok tt)
    ↔ IsReady formats matcher storage head upstreams head_upstream (text "b1") tables
finalize_build_iff_example =
    finalize_build_iff formats matcher storage head upstreams head_upstream (text "2") (text "2")
      (text "b1") tables

abbrev finalized_tables : IngestTables
finalized_tables =
    (finalize_build formats matcher storage head upstreams head_upstream (text "2") (text "2")
      (text "b1") tables).1

abbrev later_tables : IngestTables
later_tables = record finalized_tables { objects = tables.objects; paths = tables.paths }

one_step :
    IngestSteps formats matcher storage head upstreams head_upstream finalized_tables later_tables
one_step = next (stored tables.objects tables.paths) done

finalize_build-closed_example :
    (validate_upload_target formats matcher storage head upstreams head_upstream
        (text "b1")
        (record { as_str = hash_a })
        (text "nar/a.nar")
        later_tables
      ≡ err build_not_pending)
    × ((finalize_build formats matcher storage head upstreams head_upstream
          (text "3")
          (text "3")
          (text "b1")
          later_tables).0
        ≡ err build_not_pending)
finalize_build-closed_example =
    finalize_build-closed formats matcher storage head upstreams head_upstream (text "2") (text "2")
      (text "b1") tables {after = later_tables} finalize_run one_step (record { as_str = hash_a })
      (text "nar/a.nar") (text "3") (text "3")

abbrev holds_nothing : Text → Result Text (Option (BlobMetadata Text))
holds_nothing path = ok none

abbrev one_upstream : List (Unit {0})
one_upstream = tt ∷ []

abbrev upload : PlannedUpload
upload = record {
  store_path_hash = record { as_str = hash_text };
  object_path = nar_url_text;
  content_type = text "application/octet-stream";
}

plan_one_run :
    plan_one head_upstream matcher holds_nothing one_upstream published ≡ ok (upload ∷ [])
unfolding plan_one is_missing object_exists_upstream
plan_one_run = rw (plan_one, hello_path-parse, nar_url-parse) refl

plan_run :
    plan_required_uploads head_upstream matcher holds_nothing one_upstream (published ∷ [])
    ≡ ok (upload ∷ [])
unfolding plan_required_uploads
plan_run = rw (plan_required_uploads, plan_one_run) refl

plan_required_uploads_iff_example : Memᴰ upload (upload ∷ []) ↔ (
    (n : NarInfo) × Memᴰ n (published ∷ [])
    × IsPlanned head_upstream matcher holds_nothing one_upstream n upload)
plan_required_uploads_iff_example =
    plan_required_uploads_iff head_upstream matcher holds_nothing one_upstream (published ∷ [])
      {planned = upload ∷ []} plan_run upload
