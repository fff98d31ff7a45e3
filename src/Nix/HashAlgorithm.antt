-- ===== src/Nix/HashAlgorithm.antt =====
-- `HashAlgorithm` of crates/depot-core/src/nix.rs.
use nix_project_cache.Prelude.{
  ℕ, ◌+◌, ◌≡◌, Bool, true, false, Option, none, some, arith, if◌then◌else◌,
}
use nix_project_cache.Prelude.Text.{Text, text, text_eq, text_eq_iff, len}
use mathlib.Core.Option

pub data HashAlgorithm : Type 0 where
  sha256 sha512 : HashAlgorithm
  other : Text → HashAlgorithm

unfoldable pub parse : Text → HashAlgorithm
unfolding text_eq
parse value =
    if text_eq value (text "sha256")
    then sha256
    else if text_eq value (text "sha512")
    then sha512
    else other value

abbrev pub as_str : HashAlgorithm → Text
as_str sha256 = text "sha256"
as_str sha512 = text "sha512"
as_str (other name) = name

abbrev pub supports_nix_base32_conversion : HashAlgorithm → Bool
supports_nix_base32_conversion sha256 = true
supports_nix_base32_conversion _ = false

abbrev pub nix_base32_digest_len : HashAlgorithm → Option ℕ
nix_base32_digest_len sha256 = some 52
nix_base32_digest_len _ = none

abbrev pub prefixed_nix_base32_text_len : HashAlgorithm → Option ℕ
prefixed_nix_base32_text_len algorithm =
    Option.map (λ (n : ℕ). len (as_str algorithm) + 1 + n) (nix_base32_digest_len algorithm)

-- Writing a parsed algorithm gives back the text that it was parsed from.
as_str-parse : (value : Text) → as_str (parse value) ≡ value
unfolding parse
as_str-parse value =
    ground (arith, text_eq_iff value (text "sha256"), text_eq_iff value (text "sha512"))
