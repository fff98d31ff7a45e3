-- ===== src/Gc/Deleted.antt =====
-- What a run of the garbage collector deletes.
use nix_project_cache.Prelude.{
  ℕ, ◌≡◌, ◌≢◌, refl, ap, sym, subst, inl, inr, false, Option, List, [], ◌∷◌, map, Result, ok, err,
  bind-ok, ok_inj, Result-cases, Option-cases,
}
use nix_project_cache.Prelude.Text.{Text}
use nix_project_cache.Ident.{StorageId}
use nix_project_cache.Prelude.Rows.{select}
use nix_project_cache.Db.{DbError}
use nix_project_cache.Gc.{
  Database, StorageObjectKey, GcError, list_root_store_path_hashes, keys_of, is_ready,
  list_storage_objects_ready_for_deletion,
}
use nix_project_cache.Gc.Service.{sweep, conclude, run_local_gc_with_grace_period}
use mathlib.Core.List.{Memᴰ}
use mathlib.Core.List.Memᴰ
use nix_project_cache.Gc.Service.{RunGcResponse, response_of}
use nix_project_cache.Gc.Safety.{key-IsCollectable, IsCollectable, clear_lem, mark_lem, marked_db}

err_ok : {E A : Type 0} {e : E} {a : A} → ◌≢◌ {A = Result E A} (err e) (ok a)
err_ok e = cc

module _ {Backend B E : Type 0} (storage : StorageId → Option Backend)
    (delete : Backend → Text → B → B × Result E (Unit {0})) where
  sweep-key :
      (keys : List StorageObjectKey) (b : B) {deleted : List StorageObjectKey}
      → (sweep storage delete keys b).1 ≡ ok deleted
      → {k : StorageObjectKey} → Memᴰ k deleted
      → Memᴰ k keys
  unfolding sweep
  sweep-key [] b e {k} m = subst (Memᴰ k) (sym (ok_inj e)) m
  sweep-key (o ∷ keys) b {deleted} e {k} m = elim (Option-cases (storage o.storage_id)) [
    | inl skipped ↦ Memᴰ.tail (sweep-key keys b (rw (skipped, sweep) at e) m)
    | inr (backend, found) ↦
        let after = (delete backend o.object_path b).0 in
        elim (Result-cases (delete backend o.object_path b).1) [
          | inr (bad, failed) ↦ absurd (err_ok (rw (found, failed, sweep) at e))
          | inl (done, worked) ↦
              let (others, swept, made) =
                bind-ok (sweep storage delete keys after).1 (λ others. ok (o ∷ others))
                  (rw (found, worked, sweep) at e) in
              elim (Memᴰ.cases_cons (subst (Memᴰ k) (sym (ok_inj made)) m)) [
                | inl here ↦ Memᴰ.head here
                | inr later ↦ Memᴰ.tail (sweep-key keys after swept later)
              ]
        ]
  ]

  conclude-ok :
      (db : Database) (s : B × Result (GcError E) (List StorageObjectKey))
      {response : RunGcResponse}
      → (conclude storage delete db s).2 ≡ ok response
      → (deleted : List StorageObjectKey) × (s.1 ≡ ok deleted) × (response_of deleted ≡ response)
  conclude-ok db (b, err e) h = absurd (err_ok h)
  conclude-ok db (b, ok deleted) h = (deleted, refl, ok_inj h)

  -- Every object that a run which is not dry reports as deleted has a row, and either it was not live when the
  -- marks were cleared and has been stale for the whole grace period, since its own mark or else since this
  -- run's; or it stopped being live during the run, and the grace period since this run's mark is over.
  pub run_local_gc-IsCollectable :
      (cleared_by marked_by : Result DbError (List Text)) (db : Database)
      (cleared_roots marked_roots : List Text) (mark_now ready_now grace : ℕ) (b : B)
      {response : RunGcResponse}
      → list_root_store_path_hashes {E = E} cleared_by db ≡ ok cleared_roots
      → list_root_store_path_hashes {E = E} marked_by db ≡ ok marked_roots
      → (run_local_gc_with_grace_period storage delete cleared_by marked_by false mark_now ready_now
          grace db b).2
        ≡ ok response
      → {path : Text} → Memᴰ path response.deleted_objects
      → IsCollectable db cleared_roots marked_roots mark_now ready_now grace path
  unfolding run_local_gc_with_grace_period list_storage_objects_ready_for_deletion
  run_local_gc-IsCollectable cleared_by marked_by db cleared_roots marked_roots mark_now ready_now
        grace b {response} rooted rooted' e {path} m =
      let after = marked_db db cleared_roots marked_roots mark_now ready_now grace in
      let clears =
        clear_lem db cleared_roots marked_roots mark_now ready_now grace cleared_by rooted in
      let marks =
        mark_lem db cleared_roots marked_roots mark_now ready_now grace marked_by rooted' in
      let listed = keys_of {E = E} (select (is_ready ready_now grace) after.storage_objects) in
      elim (Result-cases listed) [
        | inr (bad, failed) ↦
            absurd (err_ok (rw (clears, marks, failed, run_local_gc_with_grace_period) at e))
        | inl (keys, ready) ↦
            let (deleted, swept, made) =
              conclude-ok after (sweep storage delete keys b)
                (rw (clears, marks, ready, run_local_gc_with_grace_period) at e) in
            let paths : map (λ (k : StorageObjectKey). k.object_path) deleted
                ≡ response.deleted_objects =
              ap (λ (r : RunGcResponse). r.deleted_objects) made in
            let (k, row, named) =
              Memᴰ.of_map (λ (k : StorageObjectKey). k.object_path) deleted
                (subst (Memᴰ path) (sym paths) m) in
            subst (IsCollectable db cleared_roots marked_roots mark_now ready_now grace) named (
              key-IsCollectable db cleared_roots marked_roots mark_now ready_now grace keys ready
                (sweep-key keys b swept row))
      ]
