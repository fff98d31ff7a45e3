-- ===== src/Gc/Service.antt =====
-- `GcService` of crates/depot-ingest/src/gc.rs. The storage backends are a parameter: `storage` is the catalog,
-- `delete` a backend's deletion, over the state `B` of all backends.
use nix_project_cache.Prelude.{
  ℕ, Bool, true, false, Option, none, some, List, [], ◌∷◌, map, Result, ok, err, ◌>>=◌, ◌*◌, length,
}
use nix_project_cache.Prelude.Text.{Text}
use nix_project_cache.Ident.{StorageId}
use nix_project_cache.Db.{DbError}
use nix_project_cache.Gc.{
  Database, StorageObjectKey, GcError, delete_failed, list_stale_storage_objects,
  clear_deleted_state_for_live_storage_objects, mark_stale_storage_objects,
  list_storage_objects_ready_for_deletion, delete_storage_objects,
}

abbrev pub default_gc_grace_period_seconds : ℕ
default_gc_grace_period_seconds = 6 * 60 * 60

pub record RunGcResponse : Type 0 where
  pub deleted_count : ℕ
  pub deleted_objects : List Text

abbrev pub response_of : List StorageObjectKey → RunGcResponse
response_of keys = record {
  deleted_count = length keys;
  deleted_objects = map (λ (k : StorageObjectKey). k.object_path) keys;
}

module _ {Backend B E : Type 0} (storage : StorageId → Option Backend)
    (delete : Backend → Text → B → B × Result E (Unit {0})) where
  -- The loop over the objects that are ready: the backends after it, and the deleted objects.
  unfoldable pub sweep : List StorageObjectKey → B → B × Result (GcError E) (List StorageObjectKey)
  sweep [] b = (b, ok [])
  sweep (o ∷ os) b = elim (storage o.storage_id) [
    | none ↦ sweep os b
    | some backend ↦ elim (delete backend o.object_path b).1 [
      | err e ↦ ((delete backend o.object_path b).0, err (delete_failed e))
      | ok done ↦
          let swept = sweep os (delete backend o.object_path b).0 in
          (swept.0, do deleted ← swept.1; ok (o ∷ deleted))
    ]
  ]

  -- The end of a run: the rows of the deleted objects go, unless a deletion failed.
  abbrev pub conclude :
      Database
      → B × Result (GcError E) (List StorageObjectKey)
      → Database × B × Result (GcError E) RunGcResponse
  conclude db (b, err e) = (db, b, err e)
  conclude db (b, ok deleted) = (delete_storage_objects deleted db, b, ok (response_of deleted))

  -- The builds are retained as of the clock, so each of the two steps that ask for them has its own answer,
  -- `cleared_by` and `marked_by`; a dry run asks once. `mark_now` and `ready_now` are the times of the two queries
  -- that read the clock themselves. Nothing else writes the tables during the run.
  unfoldable pub run_local_gc_with_grace_period :
      Result DbError (List Text)
      → Result DbError (List Text)
      → Bool
      → ℕ
      → ℕ
      → ℕ
      → Database
      → B
      → Database × B × Result (GcError E) RunGcResponse
  run_local_gc_with_grace_period cleared_by marked_by true mark_now ready_now grace db b =
      (db, b, do stale ← list_stale_storage_objects cleared_by db; ok (response_of stale))
  run_local_gc_with_grace_period cleared_by marked_by false mark_now ready_now grace db b =
      elim (clear_deleted_state_for_live_storage_objects {E = E} cleared_by db) [
        | err e ↦ (db, b, err e)
        | ok cleared ↦ elim (mark_stale_storage_objects {E = E} marked_by mark_now cleared) [
          | err e ↦ (cleared, b, err e)
          | ok marked ↦
              elim (list_storage_objects_ready_for_deletion {E = E} ready_now grace marked) [
                | err e ↦ (marked, b, err e)
                | ok ready ↦ conclude marked (sweep ready b)
              ]
        ]
      ]

  unfoldable pub run_local_gc :
      Result DbError (List Text)
      → Result DbError (List Text)
      → Bool
      → ℕ
      → ℕ
      → Database
      → B
      → Database × B × Result (GcError E) RunGcResponse
  run_local_gc cleared_by marked_by dry_run mark_now ready_now =
      run_local_gc_with_grace_period cleared_by marked_by dry_run mark_now ready_now
        default_gc_grace_period_seconds
