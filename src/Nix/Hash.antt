-- ===== src/Nix/Hash.antt =====
-- Hash algorithms, hashes as text and their normal form, of crates/depot-core/src/nix.rs.
pub mod Normal
use nix_project_cache.Prelude.{
  ℕ, suc, ◌+◌, ◌%◌, ◌≤◌, ◌<◌, ◌≡◌, refl, ap, ◌∙◌, sym, subst, ◌↔◌, ◌⊎◌, ◌≢◌, inl, inr, Bool, true,
  false, not, Option, none, some, List, [], ◌∷◌, ◌++◌, append_assoc, arith, ◌==◌, ==_iff,
  if◌then◌else◌, Bool-cases, Option-cases, Result, ok, err, guard, guard-ok, bind-ok, Result-cases,
  map_err, ok_or, ok_or-ok, ◌>>=◌, ◌>>◌, All, all, length, ◌&&◌, is_some,
}
use nix_project_cache.Prelude.Text.{Text, text, text_eq, text_eq_iff, len, bytes}
use nix_project_cache.Prelude.Text.Search.{
  contains_char, split_once, split_once-append, split_once-some, Lacks,
}
use nix_project_cache.Nix.StorePath.{nix_base32_alphabet}
use nix_project_cache.Nix.Base32.{encode_nix_base32}
use mathlib.Core.Option
use nix_project_cache.Nix.HashAlgorithm.{
  HashAlgorithm, as_str, supports_nix_base32_conversion, nix_base32_digest_len,
}
use nix_project_cache.Nix.HashAlgorithm

-- The base64 crate's error is a parameter of the model.
pub data NixHashError {ℓ} (D : Type ℓ) : Type ℓ where
  unsupported_text_format : Text → NixHashError D
  unsupported_algorithm : Text → NixHashError D
  unsupported_encoding : Text → NixHashError D
  invalid_nix_base32_digest : Text → Text → NixHashError D  -- algorithm, digest
  invalid_base64 : D → NixHashError D

-- The fields are private, so that every value comes from `new` or `from_base64_digest`.
pub record NormalizedNarHash : Type 0 where
  pub algorithm : HashAlgorithm
  pub digest : Text

pub data HashTextEncoding : Type 0 where
  base64 nix_base32 : HashTextEncoding
  other : Text → HashTextEncoding

unfoldable pub parse_encoding : Text → HashTextEncoding
unfolding text_eq
parse_encoding value =
    if text_eq value (text "base64")
    then base64
    else if text_eq value (text "nix32")
    then nix_base32
    else if text_eq value (text "base32")
    then nix_base32
    else other value

pub data HashTextSyntax : Type 0 where
  sri colon_separated : HashTextSyntax

pub record ParsedHashText : Type 0 where
  pub algorithm : HashAlgorithm
  pub form : HashTextSyntax
  pub digest : Text

pub data NixHash : Type 0 where
  raw : Text → NixHash
  structured : HashAlgorithm → Option HashTextEncoding → Text → NixHash

unfoldable pub parse_hash_text : Text → Option ParsedHashText
parse_hash_text input = elim (split_once b':' input) [
  | some (algorithm, digest) ↦ some (record {
    algorithm = HashAlgorithm.parse algorithm;
    form = colon_separated;
    digest = digest;
  })
  | none ↦ elim (split_once b'-' input) [
    | some (algorithm, digest) ↦
        some (record { algorithm = HashAlgorithm.parse algorithm; form = sri; digest = digest })
    | none ↦ none
  ]
]

unfoldable pub is_valid_nix_base32_alphabet : Text → Bool
is_valid_nix_base32_alphabet [] = false
is_valid_nix_base32_alphabet (c ∷ s) =
    all (λ b. contains_char b nix_base32_alphabet) (bytes (c ∷ s))

length_differs : Option ℕ → Text → Bool
length_differs none digest = false
length_differs (some n) digest = not (len digest == n)

-- `D` is the type of the base64 crate's errors.
module _ {ℓ} {D : Type ℓ} where
  unfoldable pub validate_nix32_text_digest :
      HashAlgorithm → Text → Result (NixHashError D) (Unit {0})
  unfolding length_differs
  validate_nix32_text_digest algorithm digest = do
    guard (supports_nix_base32_conversion algorithm) (unsupported_algorithm (as_str algorithm))
    guard (is_valid_nix_base32_alphabet digest)
        (invalid_nix_base32_digest (as_str algorithm) digest)
    guard (not (length_differs (nix_base32_digest_len algorithm) digest))
        (invalid_nix_base32_digest (as_str algorithm) digest)

  unfoldable pub new : HashAlgorithm → Text → Result (NixHashError D) NormalizedNarHash
  new algorithm digest = do
    validate_nix32_text_digest algorithm digest
    ok (record { algorithm = algorithm; digest = digest })

-- `decode` is the base64 crate's decoder of the standard alphabet.
module _ {ℓ} {D : Type ℓ} (decode : Text → Result D (List ℕ)) where
  unfoldable pub from_base64_digest :
      HashAlgorithm → Text → Result (NixHashError D) NormalizedNarHash
  from_base64_digest algorithm digest = do
    guard (supports_nix_base32_conversion algorithm) (unsupported_algorithm (as_str algorithm))
    hash_bytes ← map_err invalid_base64 (decode digest)
    ok (record { algorithm = algorithm; digest = encode_nix_base32 hash_bytes })

  from_parsed : ParsedHashText → HashTextSyntax → Result (NixHashError D) NormalizedNarHash
  from_parsed parsed sri = from_base64_digest parsed.algorithm parsed.digest
  from_parsed parsed colon_separated = new parsed.algorithm parsed.digest

  unfoldable pub parse_text : Text → Result (NixHashError D) NormalizedNarHash
  unfolding from_parsed
  parse_text input = do
    parsed ← ok_or (parse_hash_text input) (unsupported_text_format input)
    from_parsed parsed parsed.form

  unfoldable pub from_nix_hash : NixHash → Result (NixHashError D) NormalizedNarHash
  from_nix_hash (raw hash) = parse_text hash
  from_nix_hash (structured algorithm (some nix_base32) digest) = new algorithm digest
  from_nix_hash (structured algorithm (some base64) digest) = from_base64_digest algorithm digest
  from_nix_hash (structured algorithm none digest) = from_base64_digest algorithm digest
  from_nix_hash (structured algorithm (some (other name)) digest) = err (unsupported_encoding name)

-- `Display`.
abbrev pub to_string : NormalizedNarHash → Text
to_string h = as_str h.algorithm ++ b':' ∷ h.digest

abbrev pub digest_len : NormalizedNarHash → ℕ
digest_len h = len h.digest

abbrev pub text_len : NormalizedNarHash → ℕ
text_len h = len (as_str h.algorithm) + 1 + len h.digest

algorithm_of : NixHash → Option HashAlgorithm
algorithm_of (raw hash) = Option.map (λ (p : ParsedHashText). p.algorithm) (parse_hash_text hash)
algorithm_of (structured algorithm encoding digest) = some algorithm

unfoldable pub render_text : NixHash → Text
render_text (raw hash) = hash
render_text (structured algorithm (some nix_base32) digest) = as_str algorithm ++ b':' ∷ digest
render_text (structured algorithm _ digest) = as_str algorithm ++ b'-' ∷ digest
