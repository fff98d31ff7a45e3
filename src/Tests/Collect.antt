-- ===== src/Tests/Collect.antt =====
-- Runs of the models of the garbage collector and of the identifiers.
use nix_project_cache.Prelude.{
  ◌≡◌, ◌≢◌, ◌↔◌, refl, ◌∙◌, inl, inr, true, false, not, Option, some, List, [], ◌∷◌, Result, ok,
  Bool-cases,
}
use nix_project_cache.Prelude.Text.{Text, text, text_eq, text_eq_iff, bytes}
use nix_project_cache.Ident
use nix_project_cache.Ident.{StorageId, ProjectSlug, is_id_byte}
use nix_project_cache.Prelude.Rows.{select, is_in}
use nix_project_cache.Db.{DbError}
use nix_project_cache.Gc.{
  PathInfo, Database, list_root_store_path_hashes, is_live_object, live_paths,
}
use nix_project_cache.Gc.Live.{IsReachable, live_paths_iff}
use nix_project_cache.Gc.Service.{sweep, RunGcResponse, run_local_gc_with_grace_period}
use nix_project_cache.Gc.Safety.{run_local_gc-keeps, IsCollectable}
use nix_project_cache.Gc.Deleted.{run_local_gc-IsCollectable}
use nix_project_cache.Nix.StorePath.{from_hash, is_base32_char}
use nix_project_cache.Prelude.Text.Order.{sort}
use nix_project_cache.Gc.{
  clear_deleted_state_for_live_storage_objects, mark_stale_storage_objects,
  list_storage_objects_ready_for_deletion,
}
use nix_project_cache.Prelude.Text.Search.{trim}
use mathlib.Core.List.{Memᴰ}

abbrev pub hash_a : Text
hash_a = text "p4pclmv1gyja5kzc26npqpia1qqxrf0l"

abbrev hash_b : Text
hash_b = text "00000000000000000000000000000000"

abbrev path_b : PathInfo
path_b = record { store_path_hash = hash_b; store_path = text "/nix/store/b" }

-- A pinned path, a path that it refers to, whose object has a row, and an object of no path.
abbrev example_db : Database
example_db = record {
  builds = [];
  build_paths = [];
  pins = hash_a ∷ [];
  path_infos = record { store_path_hash = hash_a; store_path = text "/nix/store/a" } ∷ path_b ∷ [];
  path_references =
      record { store_path_hash = hash_a; reference_store_path = text "/nix/store/b" } ∷ [];
  path_objects = record { store_path_hash = hash_b; object_path = text "nar/b.nar" } ∷ [];
  storage_objects =
      record {
        storage_id = text "main";
        object_path = text "nar/b.nar";
        deleted_at = some 1;
        first_deleted_at = some 1;
      }
      ∷ record {
        storage_id = text "main";
        object_path = text "nar/stale.nar";
        deleted_at = some 1;
        first_deleted_at = some 1;
      }
      ∷ [];
}

live_paths_iff_example :
    Memᴰ path_b (live_paths example_db (hash_a ∷ [])) ↔ IsReachable example_db (hash_a ∷ []) path_b
live_paths_iff_example = live_paths_iff example_db (hash_a ∷ []) path_b

-- One storage, whose state is the list of the paths of its objects.
abbrev pub storage : StorageId → Option (Unit {0})
storage id = some tt

abbrev pub delete : Unit {0} → Text → List Text → List Text × Result Text (Unit {0})
delete s path b = (select (λ o. not (text_eq o path)) b, ok tt)

abbrev pub Holds : List Text → StorageId → Text → Type 0
Holds b id path = is_in path b ≡ true

pub delete_other :
    (s : Unit {0}) (path other : Text) (id : StorageId) (b : List Text)
    → other ≢ path
    → Holds b id other
    → Holds (delete s path b).0 id other
delete_other s path other id [] ne h = h
delete_other s path other id (o ∷ b) ne h = elim (Bool-cases (text_eq o path)) [
  | inl gone ↦ elim (Bool-cases (text_eq other o)) [
    | inl same ↦ absurd (ne ((text_eq_iff other o).0 same ∙ (text_eq_iff o path).0 gone))
    | inr differs ↦ rw gone (delete_other s path other id b ne (rw differs at h))
  ]
  | inr kept ↦ elim (Bool-cases (text_eq other o)) [
    | inl same ↦ rw (kept, same)
    | inr differs ↦ rw (kept, differs) (delete_other s path other id b ne (rw differs at h))
  ]
]

-- No builds are retained.
abbrev pub none_retained : Result DbError (List Text)
none_retained = ok []

rooted : list_root_store_path_hashes {E = Text} none_retained example_db ≡ ok (hash_a ∷ [])
unfolding list_root_store_path_hashes from_hash is_base32_char sort
rooted = refl

b_live : is_live_object example_db (hash_a ∷ []) (text "nar/b.nar") ≡ true
unfolding is_live_object live_paths text_eq
b_live = refl

run_local_gc-keeps_example :
    is_in
      (text "nar/b.nar")
      (run_local_gc_with_grace_period storage delete none_retained none_retained false 10 20 0
        example_db
        (text "nar/b.nar" ∷ text "nar/stale.nar" ∷ [])).1
    ≡ true
unfolding text_eq
run_local_gc-keeps_example =
    run_local_gc-keeps storage delete Holds delete_other none_retained none_retained example_db
      (hash_a ∷ []) (hash_a ∷ []) 10 20 0 (text "nar/b.nar" ∷ text "nar/stale.nar" ∷ [])
      (record { value = text "main" }) (text "nar/b.nar") rooted rooted b_live b_live refl

abbrev stored : List Text
stored = text "nar/b.nar" ∷ text "nar/stale.nar" ∷ []

abbrev one_deleted : RunGcResponse
one_deleted = record { deleted_count = 1; deleted_objects = text "nar/stale.nar" ∷ [] }

example_run :
    (run_local_gc_with_grace_period storage delete none_retained none_retained false 10 20 0
      example_db stored).2
    ≡ ok one_deleted
unfolding run_local_gc_with_grace_period list_root_store_path_hashes from_hash is_base32_char sort
    is_live_object live_paths text_eq clear_deleted_state_for_live_storage_objects
    mark_stale_storage_objects list_storage_objects_ready_for_deletion Ident.new trim bytes
    is_id_byte sweep
example_run = refl

run_local_gc-IsCollectable_example :
    IsCollectable example_db (hash_a ∷ []) (hash_a ∷ []) 10 20 0 (text "nar/stale.nar")
run_local_gc-IsCollectable_example =
    run_local_gc-IsCollectable storage delete none_retained none_retained example_db (hash_a ∷ [])
      (hash_a ∷ []) 10 20 0 stored {response = one_deleted} rooted rooted example_run
      {path = text "nar/stale.nar"} (Memᴰ.head refl)
