-- ===== src/Db/Paths.antt =====
-- Path infos: crates/depot-db/src/paths.rs. `decode` is the base64 crate's decoder, as in NarInfo. The rows of
-- references and signatures belong to a row of `path_infos`.
use nix_project_cache.Prelude.{
  ℕ, suc, ◌^◌, Bool, true, false, ◌&&◌, ◌||◌, Option, none, some, List, [], ◌∷◌, ◌++◌, map, Result,
  ok, err, ◌>>=◌, ◌>>◌, guard, map_err, if◌then◌else◌, any, ltb, leb, ◌==◌,
}
use nix_project_cache.Prelude.Text.{Text, text_eq}
use nix_project_cache.Prelude.Text.Order.{sort}
use nix_project_cache.Prelude.Rows.{select}
use nix_project_cache.Prelude.Sort.{sort_by}
use nix_project_cache.Ident.{ProjectSlug}
use nix_project_cache.Nix.StorePath.{StorePathHash, StorePathHashError, parse_from_store_path}
use nix_project_cache.Nix.HashAlgorithm
use nix_project_cache.Nix.Hash.{NixHash, NixHashError, NormalizedNarHash, to_string}
use nix_project_cache.Nix.ContentAddress.{NixContentAddress}
use nix_project_cache.NarInfo.{NarInfo, normalized_nar_hash, ca_narinfo_string}
use nix_project_cache.Db.Projects.{ProjectLookupRow}
use nix_project_cache.Db.Builds.{BuildPathRow, ProjectRefRow}
use mathlib.Core.Option

pub data PathError (D : Type 0) : Type 0 where
  invalid_hash : StorePathHashError → PathError D
  invalid_nar_hash : NixHashError D → PathError D
  nar_size_out_of_range : ℕ → PathError D
  disappeared : PathError D
  conflicting_narinfo : Text → PathError D

pub record PathInfoLookupRow : Type 0 where
  pub store_path_hash : Text
  pub store_path : Text
  pub url : Text
  pub compression : Text
  pub nar_hash : Text
  pub nar_size : ℕ
  pub deriver : Option Text
  pub ca : Option Text

-- A row of `path_references` or of `path_signatures`.
pub record OrdinalRow : Type 0 where
  pub store_path_hash : Text
  pub value : Text
  pub ordinal : ℕ

pub record PathTables : Type 0 where
  pub path_infos : List PathInfoLookupRow
  pub path_references : List OrdinalRow
  pub path_signatures : List OrdinalRow

-- `for (ordinal, value) in values.iter().enumerate()`.
unfoldable pub ordinal_rows : Text → ℕ → List Text → List OrdinalRow
ordinal_rows hash n [] = []
ordinal_rows hash n (v ∷ values) =
    record { store_path_hash = hash; value = v; ordinal = n } ∷ ordinal_rows hash (suc n) values

unfoldable pub values_of : Text → List OrdinalRow → List Text
values_of hash rows =
    map (λ (r : OrdinalRow). r.value)
      (sort_by (λ (r : OrdinalRow) (q : OrdinalRow). leb r.ordinal q.ordinal)
        (select (λ (r : OrdinalRow). text_eq r.store_path_hash hash) rows))

unfoldable pub inflate_narinfo : PathTables → PathInfoLookupRow → NarInfo
inflate_narinfo tables r = record {
  store_path = r.store_path;
  url = r.url;
  compression = r.compression;
  nar_hash = NixHash.raw r.nar_hash;
  nar_size = r.nar_size;
  references = values_of r.store_path_hash tables.path_references;
  deriver = r.deriver;
  signatures = values_of r.store_path_hash tables.path_signatures;
  ca = Option.map NixContentAddress.raw r.ca;
}

unfoldable pub path_info_of : List PathInfoLookupRow → Text → Option PathInfoLookupRow
path_info_of [] hash = none
path_info_of (r ∷ rows) hash =
    let later = path_info_of rows hash in if text_eq r.store_path_hash hash then some r else later

unfoldable pub get_path_info_by_hash : PathTables → StorePathHash → Option NarInfo
get_path_info_by_hash tables hash =
    Option.map (inflate_narinfo tables) (path_info_of tables.path_infos hash.as_str)

unfoldable pub get_build_path_narinfo :
    PathTables → List BuildPathRow → Text → StorePathHash → Option NarInfo
get_build_path_narinfo tables build_paths build_id hash =
    if any
      (λ (r : BuildPathRow). text_eq r.build_id build_id && text_eq r.store_path_hash hash.as_str)
      build_paths
    then get_path_info_by_hash tables hash
    else none

-- A row of the view `project_visible_paths`: the path is one of the build of a ref, or pinned by the project.
unfoldable pub is_visible_in_project :
    List ProjectRefRow → List BuildPathRow → List (Text × Text) → Text → Text → Bool
is_visible_in_project refs build_paths pins project_id hash =
    any
      (λ (r : ProjectRefRow).
        text_eq r.project_id project_id
        && any
            (λ (b : BuildPathRow). text_eq b.build_id r.build_id && text_eq b.store_path_hash hash)
            build_paths)
      refs
    || any (λ pin. text_eq pin.0 project_id && text_eq pin.1 hash) pins

unfoldable pub get_project_narinfo :
    PathTables
    → List ProjectLookupRow
    → List ProjectRefRow
    → List BuildPathRow
    → List (Text × Text)
    → ProjectSlug
    → StorePathHash
    → Option NarInfo
get_project_narinfo tables projects refs build_paths pins project hash =
    if any
      (λ (p : ProjectLookupRow).
        text_eq p.slug project.slug && is_visible_in_project refs build_paths pins p.id hash.as_str)
      projects
    then get_path_info_by_hash tables hash
    else none

module _ {D : Type 0} (decode : Text → Result D (List ℕ)) where
  abbrev pub option_eq : Option Text → Option Text → Bool
  option_eq none none = true
  option_eq (some s) (some t) = text_eq s t
  option_eq _ _ = false

  abbrev pub texts_eq : List Text → List Text → Bool
  texts_eq [] [] = true
  texts_eq (s ∷ l) (t ∷ m) = text_eq s t && texts_eq l m
  texts_eq _ _ = false

  -- `PartialEq` of the normalized hashes.
  abbrev pub hash_eq : NormalizedNarHash → NormalizedNarHash → Bool
  hash_eq a b =
      text_eq (HashAlgorithm.as_str a.algorithm) (HashAlgorithm.as_str b.algorithm)
      && text_eq a.digest b.digest

  abbrev pub conflict : NarInfo → Result (PathError D) (Unit {0})
  conflict incoming = err (conflicting_narinfo incoming.store_path)

  -- The comparisons after the hash's.
  abbrev pub rest_compatible : NarInfo → NarInfo → Bool
  rest_compatible existing incoming =
      (existing.nar_size == incoming.nar_size)
      && (texts_eq (sort existing.references) (sort incoming.references)
          && (option_eq existing.deriver incoming.deriver
              && option_eq (ca_narinfo_string decode existing) (ca_narinfo_string decode incoming)))

  unfoldable pub hashes_compatible : NarInfo → NarInfo → Result (PathError D) Bool
  hashes_compatible existing incoming = do
    a ← map_err invalid_nar_hash (normalized_nar_hash decode existing)
    b ← map_err invalid_nar_hash (normalized_nar_hash decode incoming)
    ok (hash_eq a b)

  -- `&&` asks for the hashes only if what stands before them agrees.
  unfoldable pub ensure_compatible_path_info : NarInfo → NarInfo → Result (PathError D) (Unit {0})
  ensure_compatible_path_info existing incoming =
      if text_eq existing.store_path incoming.store_path
        && (text_eq existing.url incoming.url && text_eq existing.compression incoming.compression)
      then (do
        same ← hashes_compatible existing incoming
        guard (same && rest_compatible existing incoming) (conflicting_narinfo incoming.store_path))
      else conflict incoming

  abbrev pub path_info_row : StorePathHash → NormalizedNarHash → NarInfo → PathInfoLookupRow
  path_info_row hash nar_hash n = record {
    store_path_hash = hash.as_str;
    store_path = n.store_path;
    url = n.url;
    compression = n.compression;
    nar_hash = to_string nar_hash;
    nar_size = n.nar_size;
    deriver = n.deriver;
    ca = ca_narinfo_string decode n;
  }

  abbrev pub has_row : StorePathHash → NarInfo → List PathInfoLookupRow → Bool
  has_row hash n rows =
      any
        (λ (r : PathInfoLookupRow).
          text_eq r.store_path_hash hash.as_str || text_eq r.store_path n.store_path)
        rows

  -- A path info that is there already has to be compatible.
  unfoldable pub check_existing :
      PathTables → StorePathHash → NarInfo → Result (PathError D) PathTables
  check_existing tables hash n = elim (get_path_info_by_hash tables hash) [
    | none ↦ err disappeared
    | some existing ↦ do ensure_compatible_path_info existing n; ok tables
  ]

  unfoldable pub inserted_path_info :
      PathTables → StorePathHash → NormalizedNarHash → NarInfo → PathTables
  inserted_path_info tables hash nar_hash n = record {
    path_infos = path_info_row hash nar_hash n ∷ tables.path_infos;
    path_references = ordinal_rows hash.as_str 0 n.references ++ tables.path_references;
    path_signatures = ordinal_rows hash.as_str 0 n.signatures ++ tables.path_signatures;
  }

  -- `INSERT OR IGNORE`, and what follows it.
  unfoldable pub upsert_checked :
      PathTables → StorePathHash → NormalizedNarHash → NarInfo → Result (PathError D) PathTables
  upsert_checked tables hash nar_hash n =
      if has_row hash n tables.path_infos
      then check_existing tables hash n
      else ok (inserted_path_info tables hash nar_hash n)

  unfoldable pub upsert_path_info : NarInfo → PathTables → Result (PathError D) PathTables
  upsert_path_info n tables = do
    hash ← map_err invalid_hash (parse_from_store_path n.store_path)
    nar_hash ← map_err invalid_nar_hash (normalized_nar_hash decode n)
    guard (ltb n.nar_size (2 ^ 63)) (nar_size_out_of_range n.nar_size)
    upsert_checked tables hash nar_hash n
