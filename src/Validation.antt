-- ===== src/Validation.antt =====
-- crates/depot-core/src/validation.rs: what a narinfo must satisfy before it is published.
pub mod Sound
use nix_project_cache.Prelude.{
  ℕ, ◌≡◌, Bool, true, false, not, ◌||◌, Option, none, some, List, [], ◌∷◌, ◌++◌, Result, ok, err,
  ok_or, map_err, guard, ◌>>=◌, ◌>>◌,
}
use nix_project_cache.Prelude.Text.{Text, text, text_eq}
use nix_project_cache.Nix.StoreDir.{StoreDir, contains_path}
use nix_project_cache.Nix.StorePath.{StorePathHash, StorePathHashError, parse_from_store_path}
use nix_project_cache.Nix.Hash.{NixHashError, NormalizedNarHash}
use nix_project_cache.DepotPath.{
  NarCompression, uncompressed, zstd, xz, bz2, from_narinfo_compression, narinfo_compression,
  file_suffix, nar, Patterns, parse_depot_object_path,
}
use nix_project_cache.NarInfo.{NarInfo, normalized_nar_hash}

pub data PublishNarInfoValidationError {ℓ} (D : Type ℓ) : Type ℓ where
  store_path_outside_store_dir : Text → Text → PublishNarInfoValidationError D
  invalid_store_path_hash : Text → StorePathHashError → PublishNarInfoValidationError D
  invalid_depot_object_path : Text → PublishNarInfoValidationError D
  url_is_not_nar_object : Text → PublishNarInfoValidationError D
  unsupported_compression : Text → PublishNarInfoValidationError D
  compression_mismatch : Text → Text → PublishNarInfoValidationError D
  invalid_nar_hash : Text → NixHashError D → PublishNarInfoValidationError D
  url_does_not_match_nar_hash : Text → Text → PublishNarInfoValidationError D
  reference_outside_store_dir : Text → Text → PublishNarInfoValidationError D
  invalid_reference_store_path : Text → StorePathHashError → PublishNarInfoValidationError D
  deriver_outside_store_dir : Text → Text → PublishNarInfoValidationError D
  invalid_deriver_store_path : Text → StorePathHashError → PublishNarInfoValidationError D

-- `PartialEq` of the compressions.
abbrev pub compression_eq : NarCompression → NarCompression → Bool
compression_eq uncompressed uncompressed = true
compression_eq zstd zstd = true
compression_eq xz xz = true
compression_eq bz2 bz2 = true
compression_eq _ _ = false

abbrev pub nar_url : NormalizedNarHash → NarCompression → Text
nar_url hash compression = text "nar/" ++ (hash.digest ++ file_suffix compression)

module _ {ℓ} {D : Type ℓ} where
  validate_store_path_inside_store_dir :
      StoreDir → Text → Result (PublishNarInfoValidationError D) (Unit {0})
  validate_store_path_inside_store_dir store_dir path =
      guard (contains_path store_dir path) (store_path_outside_store_dir store_dir.path path)

  validate_reference : StoreDir → Text → Result (PublishNarInfoValidationError D) (Unit {0})
  validate_reference store_dir reference = do
    guard (contains_path store_dir reference) (reference_outside_store_dir store_dir.path reference)
    map_err (invalid_reference_store_path reference) (parse_from_store_path reference)
    ok tt

  validate_references : StoreDir → List Text → Result (PublishNarInfoValidationError D) (Unit {0})
  validate_references store_dir [] = ok tt
  validate_references store_dir (r ∷ rs) = do
    validate_reference store_dir r
    validate_references store_dir rs

  validate_deriver : StoreDir → Option Text → Result (PublishNarInfoValidationError D) (Unit {0})
  validate_deriver store_dir none = ok tt
  validate_deriver store_dir (some path) = do
    guard (contains_path store_dir path) (deriver_outside_store_dir store_dir.path path)
    map_err (invalid_deriver_store_path path) (parse_from_store_path path)
    ok tt

  module _ (re : Patterns) where
    parse_nar_url : Text → Result (PublishNarInfoValidationError D) (Text × NarCompression)
    parse_nar_url url = elim (parse_depot_object_path re url) [
      | some (nar digest compression) ↦ ok (digest, compression)
      | some other ↦ err (url_is_not_nar_object url)
      | none ↦ err (invalid_depot_object_path url)
    ]

    module _ (decode : Text → Result D (List ℕ)) where
      check_hash :
          NarInfo → Text → NarCompression → Result (PublishNarInfoValidationError D) (Unit {0})
      check_hash n digest compression = do
        hash ← map_err (invalid_nar_hash n.store_path) (normalized_nar_hash decode n)
        guard
            (not
              (not (text_eq n.url (nar_url hash compression)) || not (text_eq digest hash.digest)))
            (url_does_not_match_nar_hash n.url (nar_url hash compression))

      check_compression :
          NarInfo
          → Text
          → NarCompression
          → NarCompression
          → Result (PublishNarInfoValidationError D) (Unit {0})
      check_compression n digest url_compression compression = do
        guard (compression_eq compression url_compression)
            (compression_mismatch n.compression (narinfo_compression url_compression))
        check_hash n digest compression

      check_url :
          NarInfo → Text → NarCompression → Result (PublishNarInfoValidationError D) (Unit {0})
      check_url n digest url_compression = do
        compression ←
            ok_or (from_narinfo_compression n.compression) (unsupported_compression n.compression)
        check_compression n digest url_compression compression

      unfoldable pub validate_publish_narinfo :
          StoreDir → NarInfo → Result (PublishNarInfoValidationError D) StorePathHash
      unfolding validate_store_path_inside_store_dir validate_references validate_reference
          validate_deriver parse_nar_url check_url check_compression check_hash
      validate_publish_narinfo store_dir n = do
        validate_store_path_inside_store_dir store_dir n.store_path
        hash ← map_err (invalid_store_path_hash n.store_path) (parse_from_store_path n.store_path)
        url ← parse_nar_url n.url
        check_url n url.0 url.1
        validate_references store_dir n.references
        validate_deriver store_dir n.deriver
        ok hash
