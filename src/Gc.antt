-- ===== src/Gc.antt =====
-- crates/depot-db/src/gc.rs: the queries of the garbage collector, over the tables as lists of rows. A table's
-- rows stand in the order of its primary key, in which the queries ask for them; a point in time is a
-- number of seconds. The database's own failures are left out.
pub mod Live
pub mod Service
pub mod Safety
pub mod Deleted
pub mod Roots
pub mod Kept
use nix_project_cache.Prelude.{
  ℕ, zero, suc, ◌+◌, Bool, true, false, not, ◌&&◌, ◌||◌, Option, none, some, List, [], ◌∷◌, ◌++◌,
  map, Result, ok, err, ◌>>=◌, ◌>>◌, map_err, if◌then◌else◌, is_some, any, length, leb,
}
use nix_project_cache.Prelude.Text.{Text, text, text_eq}
use nix_project_cache.Prelude.Text.Order.{sort}
use nix_project_cache.Prelude.Rows.{select, is_in, dedup}
use nix_project_cache.Nix.StorePath.{StorePathHash, StorePathHashError, from_hash}
use nix_project_cache.Ident.{StorageId, StorageIdError}
use nix_project_cache.Ident
use nix_project_cache.Db.{DbError}

pub record PathInfo : Type 0 where
  pub store_path_hash : Text
  pub store_path : Text

pub record PathReference : Type 0 where
  pub store_path_hash : Text
  pub reference_store_path : Text

pub record PathObject : Type 0 where
  pub store_path_hash : Text
  pub object_path : Text

pub record StorageObject : Type 0 where
  pub storage_id : Text
  pub object_path : Text
  pub deleted_at : Option ℕ
  pub first_deleted_at : Option ℕ

pub record Build : Type 0 where
  pub id : Text
  pub status : Text

pub record BuildPath : Type 0 where
  pub build_id : Text
  pub store_path_hash : Text

-- The tables that the collector reads.
pub record Database : Type 0 where
  pub builds : List Build
  pub build_paths : List BuildPath
  pub pins : List Text
  pub path_infos : List PathInfo
  pub path_references : List PathReference
  pub path_objects : List PathObject
  pub storage_objects : List StorageObject

pub record StorageObjectKey : Type 0 where
  pub storage_id : StorageId
  pub object_path : Text

pub data GcError (E : Type 0) : Type 0 where
  retention_failed : DbError → GcError E
  invalid_hash : StorePathHashError → GcError E
  invalid_storage_id : StorageIdError → GcError E
  delete_failed : E → GcError E

-- The root rows of one build.
paths_of_build : List BuildPath → Text → List Text
paths_of_build rows build_id =
    map (λ (r : BuildPath). r.store_path_hash)
      (select (λ (r : BuildPath). text_eq r.build_id build_id) rows)

retained_rows : List BuildPath → List Text → List Text
retained_rows rows [] = []
retained_rows rows (b ∷ bs) = paths_of_build rows b ++ retained_rows rows bs

is_pending : List Build → Text → Bool
is_pending builds build_id =
    any (λ (b : Build). text_eq b.id build_id && text_eq b.status (text "pending")) builds

pending_rows : List Build → List BuildPath → List Text
pending_rows builds rows =
    map (λ (r : BuildPath). r.store_path_hash)
      (select (λ (r : BuildPath). is_pending builds r.build_id) rows)

check_hashes : {E : Type 0} → List Text → Result (GcError E) (List Text)
check_hashes [] = ok []
check_hashes (h ∷ hs) = elim (from_hash h) [
  | err e ↦ err (invalid_hash e)
  | ok parsed ↦ do rest ← check_hashes hs; ok (parsed.as_str ∷ rest)
]

-- `retained` is what `list_retained_build_ids_for_gc` gives to this call. It depends on the clock, so another
-- call may be given another answer.
unfoldable pub list_root_store_path_hashes :
    {E : Type 0} → Result DbError (List Text) → Database → Result (GcError E) (List Text)
unfolding check_hashes retained_rows paths_of_build pending_rows is_pending dedup
list_root_store_path_hashes retained db = do
  build_ids ← map_err retention_failed retained
  hashes ←
      check_hashes (
        retained_rows db.build_paths build_ids
        ++ (pending_rows db.builds db.build_paths ++ db.pins))
  ok (dedup (sort hashes))

-- `root_store_path_hashes` joined with `path_infos`.
abbrev pub is_root : List Text → PathInfo → Bool
is_root roots p = is_in p.store_path_hash roots

-- The recursive part of the query: the path is a reference of a live path.
abbrev pub is_reached : List PathReference → List PathInfo → PathInfo → Bool
is_reached refs live q =
    any
      (λ (r : PathReference).
        text_eq q.store_path r.reference_store_path
        && any (λ (p : PathInfo). text_eq r.store_path_hash p.store_path_hash) live)
      refs

-- Rounds of the recursive query, until no row is new. `rest` are the rows that are not live yet, so
-- their number is fuel enough.
pub grow : List PathReference → ℕ → List PathInfo → List PathInfo → List PathInfo
grow refs zero live rest = live
grow refs (suc k) live rest = elim (select (is_reached refs live) rest) [
  | [] ↦ live
  | new ∷ more ↦
      grow refs k ((new ∷ more) ++ live) (select (λ q. not (is_reached refs live q)) rest)
]

unfoldable pub live_paths : Database → List Text → List PathInfo
unfolding grow
live_paths db roots =
    let others = select (λ p. not (is_root roots p)) db.path_infos in
    grow db.path_references (length others) (select (is_root roots) db.path_infos) others

-- `live_objects` and its `EXISTS` test.
unfoldable pub is_live_object : Database → List Text → Text → Bool
is_live_object db roots path =
    any
      (λ (o : PathObject).
        text_eq path o.object_path
        && any (λ (p : PathInfo). text_eq o.store_path_hash p.store_path_hash)
            (live_paths db roots))
      db.path_objects

pub key_of : {E : Type 0} → StorageObject → Result (GcError E) StorageObjectKey
key_of o = elim (Ident.new o.storage_id) [
  | err e ↦ err (invalid_storage_id e)
  | ok id ↦ ok (record { storage_id = id; object_path = o.object_path })
]

pub keys_of : {E : Type 0} → List StorageObject → Result (GcError E) (List StorageObjectKey)
unfolding key_of
keys_of [] = ok []
keys_of (o ∷ os) = do key ← key_of o; rest ← keys_of os; ok (key ∷ rest)

unfoldable pub list_stale_storage_objects :
    {E : Type 0}
    → Result DbError (List Text)
    → Database
    → Result (GcError E) (List StorageObjectKey)
unfolding keys_of
list_stale_storage_objects retained db = do
  roots ← list_root_store_path_hashes retained db
  keys_of (select (λ o. not (is_live_object db roots o.object_path)) db.storage_objects)

pub clear_row : Database → List Text → StorageObject → StorageObject
clear_row db roots o =
    if (is_some o.deleted_at || is_some o.first_deleted_at) && is_live_object db roots o.object_path
    then record o { deleted_at = none; first_deleted_at = none }
    else o

unfoldable pub clear_deleted_state_for_live_storage_objects :
    {E : Type 0} → Result DbError (List Text) → Database → Result (GcError E) Database
unfolding clear_row
clear_deleted_state_for_live_storage_objects retained db = do
  roots ← list_root_store_path_hashes retained db
  ok (record db { storage_objects = map (clear_row db roots) db.storage_objects })

pub coalesce : Option ℕ → ℕ → Option ℕ
coalesce (some t) now = some t
coalesce none now = some now

pub mark_row : Database → List Text → ℕ → StorageObject → StorageObject
unfolding coalesce
mark_row db roots now o = if is_live_object db roots o.object_path then o else record o {
  deleted_at = coalesce o.deleted_at now;
  first_deleted_at = coalesce o.first_deleted_at now;
}

unfoldable pub mark_stale_storage_objects :
    {E : Type 0} → Result DbError (List Text) → ℕ → Database → Result (GcError E) Database
unfolding mark_row
mark_stale_storage_objects retained now db = do
  roots ← list_root_store_path_hashes retained db
  ok (record db { storage_objects = map (mark_row db roots now) db.storage_objects })

-- `unixepoch(first_deleted_at) <= unixepoch('now') - grace`, which a null is not.
abbrev pub has_passed : ℕ → ℕ → Option ℕ → Bool
has_passed now grace none = false
has_passed now grace (some first) = leb (first + grace) now

abbrev pub is_ready : ℕ → ℕ → StorageObject → Bool
is_ready now grace o =
    is_some o.deleted_at && (is_some o.first_deleted_at && has_passed now grace o.first_deleted_at)

unfoldable pub list_storage_objects_ready_for_deletion :
    {E : Type 0} → ℕ → ℕ → Database → Result (GcError E) (List StorageObjectKey)
unfolding keys_of
list_storage_objects_ready_for_deletion now grace db =
    keys_of (select (is_ready now grace) db.storage_objects)

abbrev pub has_key : StorageObjectKey → StorageObject → Bool
has_key key o = text_eq o.storage_id key.storage_id.value && text_eq o.object_path key.object_path

delete_rows : List StorageObjectKey → List StorageObject → List StorageObject
delete_rows [] rows = rows
delete_rows (k ∷ ks) rows = delete_rows ks (select (λ o. not (has_key k o)) rows)

unfoldable pub delete_storage_objects : List StorageObjectKey → Database → Database
unfolding delete_rows
delete_storage_objects keys db = record db { storage_objects = delete_rows keys db.storage_objects }
