-- ===== src/Gc/Kept.antt =====
-- The garbage collector together with the retention policies: what a kept build needs is kept.
use nix_project_cache.Prelude.{
  ℕ, ◌≡◌, ◌≢◌, refl, ◌∙◌, sym, subst, inl, inr, Bool, true, false, ◌&&◌, Option, List, Result, ok,
  Result-cases, any, bind-ok, map_err, map_err-ok,
}
use nix_project_cache.Prelude.Text.{Text, text_eq, text_eq_iff, text_eq_refl}
use nix_project_cache.Prelude.Rows.{is_in, row-any}
use nix_project_cache.Ident.{StorageId}
use nix_project_cache.Prelude.Int.{ℤ}
use nix_project_cache.Db.{DbError, Formats}
use nix_project_cache.Db.Retention.{RetentionTables}
use nix_project_cache.Db.Retained.{
  ProjectRefRetentionRow, ref_joined, list_retained_build_ids_for_gc,
}
use nix_project_cache.Db.Retained.Listed.{IsKept, list_retained_build_ids_for_gc_iff}
use nix_project_cache.Gc.{
  BuildPath, PathInfo, PathObject, Database, live_paths, is_live_object,
  list_root_store_path_hashes, clear_deleted_state_for_live_storage_objects,
  mark_stale_storage_objects, GcError, retention_failed,
}
use nix_project_cache.Gc.Live.{live_paths_iff, at_root}
use nix_project_cache.Gc.Roots.{list_root_store_path_hashes_iff}
use nix_project_cache.Gc.Service.{run_local_gc_with_grace_period}
use nix_project_cache.Gc.Safety.{run_local_gc-keeps, clear_lem, cleared_roots_lem}
use mathlib.Core.List.{Memᴰ, flat_map}

-- An object of a live path is live.
object-live :
    (db : Database) (roots : List Text) (p : PathInfo) (o : PathObject)
    → Memᴰ p (live_paths db roots)
    → Memᴰ o db.path_objects
    → o.store_path_hash ≡ p.store_path_hash
    → is_live_object db roots o.object_path ≡ true
unfolding is_live_object
object-live db roots p o live m same =
    row-any
      (λ (q : PathObject).
        text_eq o.object_path q.object_path
        && any (λ (p : PathInfo). text_eq q.store_path_hash p.store_path_hash)
            (live_paths db roots))
      m
      (both (text_eq_refl o.object_path) (
        row-any (λ (p : PathInfo). text_eq o.store_path_hash p.store_path_hash) live
          ((text_eq_iff o.store_path_hash p.store_path_hash).1 same)))
  where
    both : {a b : Bool} → a ≡ true → b ≡ true → (a && b) ≡ true
    both {a} {b} h k = rw (h, k) refl

-- The object belongs to a path of the build.
abbrev pub IsObjectOf : Database → Text → Text → Type 0
IsObjectOf db build_id path =
    (r : BuildPath) × (p : PathInfo) × (o : PathObject) × Memᴰ r db.build_paths
    × (r.build_id ≡ build_id)
    × Memᴰ p db.path_infos
    × (p.store_path_hash ≡ r.store_path_hash)
    × Memᴰ o db.path_objects
    × (o.store_path_hash ≡ p.store_path_hash)
    × (o.object_path ≡ path)

-- An object of a retained build is live, whatever the roots are found to be.
retained-live :
    {E : Type 0} (retained : Result DbError (List Text)) (db : Database) (ids roots : List Text)
    (build_id path : Text)
    → retained ≡ ok ids
    → list_root_store_path_hashes {E = E} retained db ≡ ok roots
    → is_in build_id ids ≡ true
    → IsObjectOf db build_id path
    → is_live_object db roots path ≡ true
retained-live {E} retained db ids roots build_id path given rooted kept
      (r, p, o, rm, own, pm, info, om, object, at) =
    let root : is_in p.store_path_hash roots ≡ true =
      (list_root_store_path_hashes_iff {E = E} retained db rooted p.store_path_hash).1
        (inl (ids, r, given, rm, subst (λ i. is_in i ids ≡ true) (sym own) kept, sym info)) in
    subst (λ x. is_live_object db roots x ≡ true) at
      (object-live db roots p o ((live_paths_iff db roots p).1 (at_root pm root)) om object)

-- Roots can be listed only if the retained builds were.
rooted-given :
    {E : Type 0} (retained : Result DbError (List Text)) (db : Database) {roots : List Text}
    → list_root_store_path_hashes {E = E} retained db ≡ ok roots
    → (ids : List Text) × (retained ≡ ok ids)
unfolding list_root_store_path_hashes
rooted-given {E} retained db h =
    let (ids, asked, h1) = bind-ok (map_err {F = GcError E} retention_failed retained) _ h in
    (ids, map_err-ok retention_failed retained asked)

module _ {U T : Type 0} (formats : Formats U T) (since : T → T → ℤ) (matches : Text → Text → Bool)
    (tables : RetentionTables) where
  -- What the retained builds are by the clock of a call.
  abbrev pub retained_at : (ProjectRefRetentionRow → T) → Result DbError (List Text)
  retained_at clock = list_retained_build_ids_for_gc formats since clock matches tables

  -- The retention policies keep the build by the clock of a call.
  abbrev pub IsKeptAt : (ProjectRefRetentionRow → T) → Text → Type 0
  IsKeptAt clock =
      IsKept formats since clock matches tables (flat_map (ref_joined tables.projects) tables.refs)

module _ {Backend B E : Type 0} (storage : StorageId → Option Backend)
    (delete : Backend → Text → B → B × Result E (Unit {0})) (Holds : B → StorageId → Text → Type 0)
    (delete_other : (s : Backend) (path other : Text) (id : StorageId) (b : B)
      → other ≢ path
      → Holds b id other
      → Holds (delete s path b).0 id other) where
  -- A run whose roots cannot be listed, the first time or the second, deletes nothing.
  keeps-live :
      (cleared_by marked_by : Result DbError (List Text)) (db : Database)
      (mark_now ready_now grace : ℕ) (b : B) (id : StorageId) (path : Text)
      → ((roots : List Text)
          → list_root_store_path_hashes {E = E} cleared_by db ≡ ok roots
          → is_live_object db roots path ≡ true)
      → ((roots : List Text)
          → list_root_store_path_hashes {E = E} marked_by db ≡ ok roots
          → is_live_object db roots path ≡ true)
      → Holds b id path
      → Holds
          (run_local_gc_with_grace_period storage delete cleared_by marked_by false mark_now
            ready_now grace db b).1
          id
          path
  unfolding run_local_gc_with_grace_period clear_deleted_state_for_live_storage_objects
      mark_stale_storage_objects
  keeps-live cleared_by marked_by db mark_now ready_now grace b id path live live' h =
      elim (Result-cases (list_root_store_path_hashes {E = E} cleared_by db)) [
        | inr (bad, failed) ↦
            rw
              (run_local_gc_with_grace_period, clear_deleted_state_for_live_storage_objects, failed)
              h
        | inl (first, rooted) ↦
            elim (Result-cases (list_root_store_path_hashes {E = E} marked_by db)) [
              | inl (second, rooted') ↦
                  run_local_gc-keeps storage delete Holds delete_other cleared_by marked_by db first
                    second mark_now ready_now grace b id path rooted rooted' (live first rooted)
                    (live' second rooted') h
              | inr (bad, failed) ↦
                  rw
                    (
                      run_local_gc_with_grace_period,
                      clear_lem db first first mark_now ready_now grace cleared_by rooted,
                      mark_stale_storage_objects,
                      cleared_roots_lem db first first mark_now ready_now grace marked_by ∙ failed,
                    )
                    h
            ]
      ]

  module _ {U T : Type 0} (formats : Formats U T) (since : T → T → ℤ) (matches : Text → Text → Bool)
      (tables : RetentionTables) where
    kept-live :
        (clock : ProjectRefRetentionRow → T) (db : Database) (build_id path : Text)
        → IsKeptAt formats since matches tables clock build_id
        → IsObjectOf db build_id path
        → (roots : List Text)
        → list_root_store_path_hashes {E = E} (retained_at formats since matches tables clock) db
          ≡ ok roots
        → is_live_object db roots path ≡ true
    kept-live clock db build_id path kept object roots rooted =
        let (ids, given) =
          rooted-given {E = E} (retained_at formats since matches tables clock) db rooted in
        retained-live {E = E} (retained_at formats since matches tables clock) db ids roots build_id
          path given rooted
          ((list_retained_build_ids_for_gc_iff formats since clock matches tables given build_id).1
            kept)
          object

    -- A collection asks twice which builds are retained, each time by the clock. If deleting a path leaves the
    -- others alone, it keeps, in every storage, every object of a build that some ref of a project keeps by
    -- its retention policy both times, be it by another ref, however short the grace period is and whether it
    -- succeeds or not. The policies, refs and builds are the same both times.
    pub run_local_gc-retained :
        (cleared_clock marked_clock : ProjectRefRetentionRow → T) (db : Database)
        (build_id path : Text)
        → IsKeptAt formats since matches tables cleared_clock build_id
        → IsKeptAt formats since matches tables marked_clock build_id
        → IsObjectOf db build_id path
        → (mark_now ready_now grace : ℕ) (b : B) (id : StorageId) → Holds b id path
        → Holds
            (run_local_gc_with_grace_period storage delete
              (retained_at formats since matches tables cleared_clock)
              (retained_at formats since matches tables marked_clock)
              false
              mark_now
              ready_now
              grace
              db
              b).1
            id
            path
    run_local_gc-retained cleared_clock marked_clock db build_id path kept kept' object mark_now
          ready_now grace b id h =
        keeps-live (retained_at formats since matches tables cleared_clock)
          (retained_at formats since matches tables marked_clock) db mark_now ready_now grace b id
          path (kept-live cleared_clock db build_id path kept object)
          (kept-live marked_clock db build_id path kept' object) h
