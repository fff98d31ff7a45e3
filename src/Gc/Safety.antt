-- ===== src/Gc/Safety.antt =====
-- What a run of the garbage collector keeps.
use nix_project_cache.Prelude.{
  ℕ, ◌+◌, ◌≤◌, ◌≡◌, ◌≢◌, refl, ap, ◌∙◌, sym, subst, ◌⊎◌, inl, inr, true, false, ◌&&◌, ◌||◌, Option,
  none, some, List, [], ◌∷◌, map, Result, ok, err, ◌>>=◌, bind-ok, ok_inj, Result-cases,
  Option-cases, is_some, Bool-cases, and-split, arith,
}
use nix_project_cache.Prelude.Text.{Text}
use nix_project_cache.Ident.{StorageId}
use nix_project_cache.Ident
use nix_project_cache.Db.{DbError}
use nix_project_cache.Gc.{
  Database, StorageObject, StorageObjectKey, GcError, list_root_store_path_hashes, is_live_object,
  live_paths, key_of, keys_of, clear_row, mark_row, is_ready, has_passed, coalesce,
  clear_deleted_state_for_live_storage_objects, mark_stale_storage_objects,
  list_storage_objects_ready_for_deletion,
}
use nix_project_cache.Prelude.Rows.{select, select-row}
use nix_project_cache.Gc.Service.{sweep, conclude, run_local_gc_with_grace_period}
use mathlib.Core.List.{Memᴰ}
use mathlib.Core.List.Memᴰ

-- The time from which the row counts as deleted has passed.
abbrev pub IsExpired : ℕ → ℕ → ℕ → Option ℕ → Type 0
IsExpired mark_now ready_now grace none = mark_now + grace ≤ ready_now
IsExpired mark_now ready_now grace (some first) = first + grace ≤ ready_now

-- `cleared_roots` are the roots when the marks are cleared, `marked_roots` when stale rows are marked.
module _ (db : Database) (cleared_roots marked_roots : List Text)
    (mark_now ready_now grace : ℕ) where
  -- The row after both updates.
  abbrev updated : StorageObject → StorageObject
  updated o = mark_row db marked_roots mark_now (clear_row db cleared_roots o)

  clear-stale :
      (o : StorageObject)
      → is_live_object db cleared_roots o.object_path ≡ false
      → clear_row db cleared_roots o ≡ o
  unfolding clear_row
  clear-stale o e = elim (Bool-cases (is_some o.deleted_at || is_some o.first_deleted_at)) [
    | inl marked ↦ rw (marked, e)
    | inr other ↦ rw other
  ]

  clear_path : (o : StorageObject) → (clear_row db cleared_roots o).object_path ≡ o.object_path
  unfolding clear_row
  clear_path o =
      elim (Bool-cases (
        (is_some o.deleted_at || is_some o.first_deleted_at)
        && is_live_object db cleared_roots o.object_path)) [
          | inl cleared ↦ rw cleared
          | inr kept ↦ rw kept
        ]

  clear-live :
      (o : StorageObject)
      → is_live_object db cleared_roots o.object_path ≡ true
      → (is_some (clear_row db cleared_roots o).deleted_at ≡ false)
        × (is_some (clear_row db cleared_roots o).first_deleted_at ≡ false)
  unfolding clear_row
  clear-live o e = elim (Bool-cases (is_some o.deleted_at || is_some o.first_deleted_at)) [
    | inl marked ↦ rw (marked, e) (refl, refl)
    | inr other ↦ rw other (ground (arith, other), ground (arith, other))
  ]

  -- A row of an object that is live when stale rows are marked is not marked.
  updated-live :
      (o : StorageObject)
      → is_live_object db marked_roots o.object_path ≡ true
      → updated o ≡ clear_row db cleared_roots o
  unfolding mark_row
  updated-live o e = rw (clear_path o, e)

  updated-stale :
      (o : StorageObject)
      → is_live_object db marked_roots o.object_path ≡ false
      → updated o ≡ record (clear_row db cleared_roots o) {
        deleted_at = coalesce (clear_row db cleared_roots o).deleted_at mark_now;
        first_deleted_at = coalesce (clear_row db cleared_roots o).first_deleted_at mark_now;
      }
  unfolding mark_row
  updated-stale o e = rw (clear_path o, e)

  updated_path : (o : StorageObject) → (updated o).object_path ≡ o.object_path
  updated_path o = elim (Bool-cases (is_live_object db marked_roots o.object_path)) [
    | inl live ↦ ap (λ (r : StorageObject). r.object_path) (updated-live o live) ∙ clear_path o
    | inr stale ↦ ap (λ (r : StorageObject). r.object_path) (updated-stale o stale) ∙ clear_path o
  ]

  first-IsExpired :
      (d f : Option ℕ)
      → (is_some (coalesce d mark_now)
          && (is_some (coalesce f mark_now) && has_passed ready_now grace (coalesce f mark_now)))
        ≡ true
      → IsExpired mark_now ready_now grace f
  unfolding coalesce
  first-IsExpired none none h = ground arith
  first-IsExpired none (some t) h = ground arith
  first-IsExpired (some d) none h = ground arith
  first-IsExpired (some d) (some t) h = ground arith

  own-IsExpired :
      (d f : Option ℕ)
      → (is_some d && (is_some f && has_passed ready_now grace f)) ≡ true
      → IsExpired mark_now ready_now grace f
  own-IsExpired none f h = cc
  own-IsExpired (some d) none h = cc
  own-IsExpired (some d) (some t) h = ground arith

  unmarked-IsExpired :
      (f : Option ℕ)
      → is_some f ≡ false
      → IsExpired mark_now ready_now grace f
      → mark_now + grace ≤ ready_now
  unmarked-IsExpired none e h = h
  unmarked-IsExpired (some t) e h = cc

  -- Why an object of the row may be deleted.
  abbrev pub IsStale : StorageObject → Type 0
  IsStale o =
      ((is_live_object db cleared_roots o.object_path ≡ false)
        × IsExpired mark_now ready_now grace o.first_deleted_at)
      ⊎ ((is_live_object db cleared_roots o.object_path ≡ true)
          × (is_live_object db marked_roots o.object_path ≡ false)
          × (mark_now + grace ≤ ready_now))

  ready-IsStale : (o : StorageObject) → is_ready ready_now grace (updated o) ≡ true → IsStale o
  ready-IsStale o h = elim (Bool-cases (is_live_object db cleared_roots o.object_path)) [
    | inl live ↦ elim (Bool-cases (is_live_object db marked_roots o.object_path)) [
      | inl still ↦
          let unmarked =
            ap (λ (r : StorageObject). is_some r.deleted_at) (updated-live o still)
            ∙ (clear-live o live).0 in
          cc (unmarked, (and-split (is_some (updated o).deleted_at) _ h).0)
      | inr stale ↦
          let marked =
            first-IsExpired (clear_row db cleared_roots o).deleted_at
              (clear_row db cleared_roots o).first_deleted_at
              (subst (λ r. is_ready ready_now grace r ≡ true) (updated-stale o stale) h) in
          inr (live, stale, unmarked-IsExpired _ (clear-live o live).1 marked)
    ]
    | inr dead ↦ inl (
      dead,
      subst (λ (r : StorageObject). IsExpired mark_now ready_now grace r.first_deleted_at)
          (clear-stale o dead)
          (elim (Bool-cases (is_live_object db marked_roots o.object_path)) [
            | inl back ↦
                own-IsExpired (clear_row db cleared_roots o).deleted_at
                  (clear_row db cleared_roots o).first_deleted_at
                  (subst (λ r. is_ready ready_now grace r ≡ true) (updated-live o back) h)
            | inr stale ↦
                first-IsExpired (clear_row db cleared_roots o).deleted_at
                  (clear_row db cleared_roots o).first_deleted_at
                  (subst (λ r. is_ready ready_now grace r ≡ true) (updated-stale o stale) h)
          ]),
    )
  ]

  -- What may be deleted: an object of a row that was not live when the marks were cleared and has been stale
  -- for the grace period, or one that stopped being live in the run, the grace period since its mark over.
  abbrev pub IsCollectable : Text → Type 0
  IsCollectable path =
      (o : StorageObject) × Memᴰ o db.storage_objects × (o.object_path ≡ path) × IsStale o

key_path :
    {E : Type 0} (o : StorageObject) {k : StorageObjectKey}
    → key_of {E = E} o ≡ ok k
    → o.object_path ≡ k.object_path
unfolding key_of
key_path o {k} e = elim (Result-cases (Ident.new o.storage_id)) [
  | inl (id, parsed) ↦
      ap (λ (k : StorageObjectKey). k.object_path) (ok_inj (rw (parsed, key_of) at e))
  | inr (bad, failed) ↦ let wrong = (rw (failed, key_of) at e) in cc wrong
]

keys_of-row :
    {E : Type 0} (rows : List StorageObject) {keys : List StorageObjectKey}
    → keys_of {E = E} rows ≡ ok keys
    → {k : StorageObjectKey} → Memᴰ k keys
    → (o : StorageObject) × Memᴰ o rows × (o.object_path ≡ k.object_path)
unfolding keys_of
keys_of-row [] {keys} e {k} m = absurd (Memᴰ.not-nil (subst (Memᴰ k) (sym (ok_inj e)) m))
keys_of-row {E} (o ∷ rows) {keys} e {k} m =
    let (key, first, e1) =
      bind-ok (key_of {E = E} o) (λ key. keys_of {E = E} rows >>= λ rest. ok (key ∷ rest)) e in
    let (rest, others, made) = bind-ok (keys_of {E = E} rows) (λ rest. ok (key ∷ rest)) e1 in
    elim (Memᴰ.cases_cons (subst (Memᴰ k) (sym (ok_inj made)) m)) [
      | inl here ↦ (
        o,
        Memᴰ.head refl,
        key_path o first ∙ ap (λ (k : StorageObjectKey). k.object_path) (sym here),
      )
      | inr later ↦ let (o', row, path) = keys_of-row rows others later in (o', Memᴰ.tail row, path)
    ]

module _ (db : Database) (cleared_roots marked_roots : List Text)
    (mark_now ready_now grace : ℕ) where
  -- The rows after the first and after the second update.
  abbrev pub cleared_rows : List StorageObject
  cleared_rows = map (clear_row db cleared_roots) db.storage_objects

  abbrev pub marked_rows : List StorageObject
  marked_rows = map (mark_row db marked_roots mark_now) cleared_rows

  pub key-IsCollectable :
      {E : Type 0} (keys : List StorageObjectKey) {k : StorageObjectKey}
      → keys_of {E = E} (select (is_ready ready_now grace) marked_rows) ≡ ok keys
      → Memᴰ k keys
      → IsCollectable db cleared_roots marked_roots mark_now ready_now grace k.object_path
  key-IsCollectable keys {k} e m =
      let (o2, row2, path2) = keys_of-row (select (is_ready ready_now grace) marked_rows) e m in
      let (row1, ready) = select-row (is_ready ready_now grace) marked_rows row2 in
      let (o1, in1, marked) = Memᴰ.of_map (mark_row db marked_roots mark_now) cleared_rows row1 in
      let (o, row, cleared) = Memᴰ.of_map (clear_row db cleared_roots) db.storage_objects in1 in
      let update : mark_row db marked_roots mark_now (clear_row db cleared_roots o) ≡ o2 =
        ap (mark_row db marked_roots mark_now) cleared ∙ marked in
      (
        o,
        row,
        sym (updated_path db cleared_roots marked_roots mark_now ready_now grace o)
            ∙ ap (λ (r : StorageObject). r.object_path) update
            ∙ path2,
        ready-IsStale db cleared_roots marked_roots mark_now ready_now grace o
            (ap (is_ready ready_now grace) update ∙ ready),
      )

  -- The database after the first and after the second update.
  abbrev pub cleared_db : Database
  cleared_db = record db { storage_objects = cleared_rows }

  abbrev pub marked_db : Database
  marked_db = record db { storage_objects = marked_rows }

  pub clear_lem :
      {E : Type 0} (retained : Result DbError (List Text))
      → list_root_store_path_hashes {E = E} retained db ≡ ok cleared_roots
      → clear_deleted_state_for_live_storage_objects {E = E} retained db ≡ ok cleared_db
  unfolding clear_deleted_state_for_live_storage_objects
  clear_lem retained rooted = rw rooted

  -- The updates leave the tables of the roots alone.
  pub cleared_roots_lem :
      {E : Type 0} (retained : Result DbError (List Text))
      → list_root_store_path_hashes {E = E} retained cleared_db
        ≡ list_root_store_path_hashes {E = E} retained db
  unfolding list_root_store_path_hashes
  cleared_roots_lem retained = refl

  marked_rows_lem :
      map (mark_row cleared_db marked_roots mark_now) cleared_db.storage_objects ≡ marked_rows
  unfolding mark_row is_live_object live_paths
  marked_rows_lem = refl

  pub mark_lem :
      {E : Type 0} (retained : Result DbError (List Text))
      → list_root_store_path_hashes {E = E} retained db ≡ ok marked_roots
      → mark_stale_storage_objects {E = E} retained mark_now cleared_db ≡ ok marked_db
  unfolding mark_stale_storage_objects
  mark_lem retained rooted =
      rw (cleared_roots_lem retained ∙ rooted)
        (ap (λ rows. ok (record db { storage_objects = rows })) marked_rows_lem)

clash : true ≡ false → ⊥
clash e = cc

-- `Holds b id path`: the storage `id` has the object `path`.
module _ {Backend B E : Type 0} (storage : StorageId → Option Backend)
    (delete : Backend → Text → B → B × Result E (Unit {0}))
    (Holds : B → StorageId → Text → Type 0) where
  module _
      (delete_other : (s : Backend) (path other : Text) (id : StorageId) (b : B)
        → other ≢ path
        → Holds b id other
        → Holds (delete s path b).0 id other) where
    sweep-keeps :
        (id : StorageId) (path : Text) (keys : List StorageObjectKey) (b : B)
        → ((k : StorageObjectKey) → Memᴰ k keys → path ≢ k.object_path)
        → Holds b id path
        → Holds (sweep storage delete keys b).0 id path
    unfolding sweep
    sweep-keeps id path [] b other h = h
    sweep-keeps id path (k ∷ keys) b other h =
        let rest = λ (b' : B) (h' : Holds b' id path).
          sweep-keeps id path keys b' (λ k' m. other k' (Memᴰ.tail m)) h' in
        elim (Option-cases (storage k.storage_id)) [
          | inl skipped ↦ rw (skipped, sweep) (rest b h)
          | inr (backend, found) ↦
              let after =
                delete_other backend k.object_path path id b (other k (Memᴰ.head refl)) h in
              elim (Result-cases (delete backend k.object_path b).1) [
                | inl (done, worked) ↦
                    rw (found, worked, sweep) (rest (delete backend k.object_path b).0 after)
                | inr (bad, failed) ↦ rw (found, failed, sweep) after
              ]
        ]

    conclude-keeps :
        (db : Database) (s : B × Result (GcError E) (List StorageObjectKey))
        → (conclude storage delete db s).1 ≡ s.0
    conclude-keeps db (b, err e) = refl
    conclude-keeps db (b, ok deleted) = refl

    -- If deleting a path leaves the others alone, a run that is not dry keeps, in every storage, the object of
    -- every path that is live both when the marks are cleared and when stale rows are marked, whatever the
    -- clock says, however short the grace period is, and whether it succeeds or not.
    pub run_local_gc-keeps :
        (cleared_by marked_by : Result DbError (List Text)) (db : Database)
        (cleared_roots marked_roots : List Text) (mark_now ready_now grace : ℕ) (b : B)
        (id : StorageId) (path : Text)
        → list_root_store_path_hashes {E = E} cleared_by db ≡ ok cleared_roots
        → list_root_store_path_hashes {E = E} marked_by db ≡ ok marked_roots
        → is_live_object db cleared_roots path ≡ true
        → is_live_object db marked_roots path ≡ true
        → Holds b id path
        → Holds
            (run_local_gc_with_grace_period storage delete cleared_by marked_by false mark_now
              ready_now grace db b).1
            id
            path
    unfolding run_local_gc_with_grace_period list_storage_objects_ready_for_deletion
    run_local_gc-keeps cleared_by marked_by db cleared_roots marked_roots mark_now ready_now grace b
          id path rooted rooted' live live' h =
        let after = marked_db db cleared_roots marked_roots mark_now ready_now grace in
        let clears =
          clear_lem db cleared_roots marked_roots mark_now ready_now grace cleared_by rooted in
        let marks =
          mark_lem db cleared_roots marked_roots mark_now ready_now grace marked_by rooted' in
        let listed = keys_of {E = E} (select (is_ready ready_now grace) after.storage_objects) in
        elim (Result-cases listed) [
          | inl (keys, ready) ↦
              let other : (k : StorageObjectKey) → Memᴰ k keys → path ≢ k.object_path = λ k m same.
                let (o, row, at_path, stale) =
                  key-IsCollectable db cleared_roots marked_roots mark_now ready_now grace keys
                    ready m in
                let here = same ∙ sym at_path in
                elim stale [
                  | inl (dead, expired) ↦
                      clash (sym live ∙ ap (is_live_object db cleared_roots) here ∙ dead)
                  | inr (alive, dead, expired) ↦
                      clash (sym live' ∙ ap (is_live_object db marked_roots) here ∙ dead)
                ] in
              rw (clears, marks, ready, run_local_gc_with_grace_period)
                (subst (λ b'. Holds b' id path)
                  (sym (conclude-keeps after (sweep storage delete keys b)))
                  (sweep-keeps id path keys b other h))
          | inr (bad, failed) ↦ rw (clears, marks, failed, run_local_gc_with_grace_period) h
        ]
