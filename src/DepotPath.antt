-- ===== src/DepotPath.antt =====
-- crates/depot-core/src/depot_path.rs: the paths of objects in the cache. The regex crate is a
-- parameter: the answers of the five patterns, with what the patterns are documented to accept.
pub mod Sound
use nix_project_cache.Prelude.{
  ℕ, ◌+◌, ◌≤◌, ◌≡◌, ◌≢◌, ◌↔◌, ◌⊎◌, Bool, true, false, ◌||◌, Option, none, some, List, [], ◌∷◌, ◌++◌,
  Result, ok, err, if◌then◌else◌, All, length, is_some,
}
use nix_project_cache.Prelude.Text.{Text, text, text_eq}
use nix_project_cache.Prelude.Text.Search.{strip_suffix, strip_prefix, starts_with, contains}
use nix_project_cache.Nix.StorePath.{StorePathHash, from_hash, hash_length, nix_base32_alphabet}
use nix_project_cache.Nix.Hash.Normal.{IsBase32}
use nix_project_cache.Nix.HashAlgorithm.{sha256, nix_base32_digest_len}
use mathlib.Core.Option

pub data NarCompression : Type 0 where
  uncompressed zstd xz bz2 : NarCompression

unfoldable pub from_narinfo_compression : Text → Option NarCompression
unfolding text_eq
from_narinfo_compression value =
    if text_eq value (text "") || text_eq value (text "none")
    then some uncompressed
    else if text_eq value (text "zstd")
    then some zstd
    else if text_eq value (text "xz")
    then some xz
    else if text_eq value (text "bzip2") || text_eq value (text "bz2")
    then some bz2
    else none

abbrev pub narinfo_compression : NarCompression → Text
narinfo_compression uncompressed = text "none"
narinfo_compression zstd = text "zstd"
narinfo_compression xz = text "xz"
narinfo_compression bz2 = text "bzip2"

abbrev pub file_suffix : NarCompression → Text
file_suffix uncompressed = text ".nar"
file_suffix zstd = text ".nar.zst"
file_suffix xz = text ".nar.xz"
file_suffix bz2 = text ".nar.bz2"

pub data DepotObjectPath : Type 0 where
  nix_cache_info index_html : DepotObjectPath
  nar_info : StorePathHash → DepotObjectPath
  nar : Text → NarCompression → DepotObjectPath
  listing : StorePathHash → DepotObjectPath
  log : Text → DepotObjectPath
  realisation : Text → DepotObjectPath

-- `is_match` of four patterns, and the two groups that `captures` of the other gives.
pub record Patterns : Type 0 where
  pub narinfo_re : Text → Bool
  pub nar_re : Text → Option (Text × Option Text)
  pub ls_re : Text → Bool
  pub log_re : Text → Bool
  pub realisation_re : Text → Bool

abbrev pub sha256_nix_base32_digest_len : ℕ
sha256_nix_base32_digest_len = Option.get_or (nix_base32_digest_len sha256) 0

abbrev of_hash : (StorePathHash → DepotObjectPath) → Option Text → Option DepotObjectPath
of_hash make none = none
of_hash make (some hash_text) = elim (from_hash hash_text) [
  | ok hash ↦ some (make hash)
  | err e ↦ none
]

-- The second group, read by the `match` on `captures.get(2)`.
abbrev compression_of : Option Text → Option NarCompression
compression_of none = some uncompressed
compression_of (some s) =
    if text_eq s (text ".zst")
    then some zstd
    else if text_eq s (text ".xz")
    then some xz
    else if text_eq s (text ".bz2")
    then some bz2
    else none

module _ (re : Patterns) where
  parse_last : Text → Option DepotObjectPath
  parse_last path =
      if re.ls_re path
      then of_hash listing (strip_suffix (text ".ls") path)
      else if re.log_re path
      then some (log path)
      else if re.realisation_re path
      then some (realisation path)
      else none

  parse_captured : Text → Option (Text × Option Text) → Option DepotObjectPath
  parse_captured path none = parse_last path
  parse_captured path (some (digest, suffix)) = Option.map (nar digest) (compression_of suffix)

  parse_relative : Text → Option DepotObjectPath
  parse_relative path =
      if text_eq path (text "nix-cache-info")
      then some nix_cache_info
      else if text_eq path (text "index.html")
      then some index_html
      else if re.narinfo_re path
      then of_hash nar_info (strip_suffix (text ".narinfo") path)
      else parse_captured path (re.nar_re path)

  unfoldable pub parse_depot_object_path : Text → Option DepotObjectPath
  unfolding parse_relative parse_captured parse_last
  parse_depot_object_path path =
      if text_eq path [] || starts_with (text "/") path || contains (text "..") path
      then none
      else parse_relative path

  abbrev pub is_valid_depot_path : Text → Bool
  is_valid_depot_path path = is_some (parse_depot_object_path path)

-- What the patterns accept, as the regex crate documents their syntax. `$` without the multi-line
-- flag stands for the end of the text alone.
abbrev pub suffix_text : Option Text → Text
suffix_text none = []
suffix_text (some s) = s

abbrev pub IsSuffix : Option Text → Type 0
IsSuffix none = Unit {0}
IsSuffix (some s) = (s ≡ text ".zst") ⊎ ((s ≡ text ".xz") ⊎ (s ≡ text ".bz2"))

abbrev pub HashThen : Text → Text → Type 0
HashThen tail t = (h : Text) × (t ≡ h ++ tail) × (length h ≡ hash_length) × IsBase32 h

pub record ArePatterns (re : Patterns) : Type 0 where
  pub narinfo_law : (t : Text) → (re.narinfo_re t ≡ true) ↔ HashThen (text ".narinfo") t
  pub nar_law :
      (t d : Text) (s : Option Text)
      → (re.nar_re t ≡ some (d, s)) ↔ (
          (t ≡ text "nar/" ++ (d ++ (text ".nar" ++ suffix_text s)))
          × (length d ≡ sha256_nix_base32_digest_len)
          × IsBase32 d
          × IsSuffix s)
  pub ls_law : (t : Text) → (re.ls_re t ≡ true) ↔ HashThen (text ".ls") t
