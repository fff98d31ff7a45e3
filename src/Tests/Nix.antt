-- ===== src/Tests/Nix.antt =====
-- Runs of the models of crates/depot-core/src/nix.rs.
use nix_project_cache.Prelude.{
  not, ℕ, ◌≡◌, ◌↔◌, refl, subst, and-split, Bool-cases, ok_inj, inl, inr, some, List, [], ◌∷◌, ◌++◌,
  Result, ok, err, length, All, arith, ltb, all, Bool, true, false, if◌then◌else◌,
}
use nix_project_cache.Prelude.Text.{Text, text, len, bytes, is_whitespace}
use nix_project_cache.Prelude.Text.Search.{IsWord, contains_char}
use nix_project_cache.Nix.StoreDir
use nix_project_cache.Nix.StoreDir.{
  StoreDir, contains_path, display_path, expand_display_path, IsNormal, new-IsNormal,
  expand_display_path-display_path,
}
use nix_project_cache.Nix.StorePath.{
  nix_base32_alphabet, from_hash, invalid_character, IsHash, is_base32_char, parse_from_store_path,
  from_hash_iff, from_hash_position, parse_from_store_path-append,
}
use nix_project_cache.Nix.Base32.{encode_nix_base32, digit_at}
use nix_project_cache.Nix.Base32.Digits.{le_value, IsBytes}
use nix_project_cache.Nix.Base32.Decode.{
  spell, digit_count, read_base32, encode_nix_base32-eq, read_base32-encode,
}
use nix_project_cache.Nix.HashAlgorithm.{sha256}
use nix_project_cache.Nix.Hash
use nix_project_cache.Nix.Hash.{
  NixHash, NormalizedNarHash, nix_base32, from_nix_hash, parse_text, to_string,
}
use nix_project_cache.Nix.Hash.Normal.{
  IsNormalized, IsBase32, IsDigestOf, from_nix_hash-IsNormalized, parse_text-to_string_iff,
}

abbrev pub nix_store : StoreDir
nix_store = record { path = text "/nix/store" }

abbrev pub hash_text : Text
hash_text = text "p4pclmv1gyja5kzc26npqpia1qqxrf0l"

abbrev pub hello_path : Text
hello_path = text "/nix/store/p4pclmv1gyja5kzc26npqpia1qqxrf0l-ruby-2.7.3"

abbrev pub test_digest : Text
test_digest = text "020ay2q1av2xs4n842rb3d7vz8qms1dcb87a5yd6azaci20x11lz"

abbrev test_bytes : List ℕ
test_bytes =
    0x9f ∷ 0x86 ∷ 0xd0 ∷ 0x81 ∷ 0x88 ∷ 0x4c ∷ 0x7d ∷ 0x65 ∷ 0x9a ∷ 0x2f ∷ 0xea ∷ 0xa0 ∷ 0xc5 ∷ 0x5a
    ∷ 0xd0 ∷ 0x15 ∷ 0xa3 ∷ 0xbf ∷ 0x4f ∷ 0x1b ∷ 0x2b ∷ 0x0b ∷ 0x82 ∷ 0x2c ∷ 0xd1 ∷ 0x5d ∷ 0x6c
    ∷ 0x15 ∷ 0xb0 ∷ 0xf0 ∷ 0x0a ∷ 0x08 ∷ []

test_bytes-encode : encode_nix_base32 test_bytes ≡ test_digest
unfolding encode_nix_base32 digit_at
test_bytes-encode = refl

-- A decoder that reads each character as a byte.
abbrev pub plain_decode : Text → Result Text (List ℕ)
plain_decode t = if all (λ c. ltb c 256) t then ok t else err t

pub all-All : (p : ℕ → Bool) (l : List ℕ) → all p l ≡ true → All (λ c. p c ≡ true) l
all-All p [] h = tt
all-All p (c ∷ l) h = let (first, rest) = and-split (p c) (all p l) h in (first, all-All p l rest)

pub all_words : (s : Text) → all (λ c. not (is_whitespace c)) s ≡ true → IsWord s
all_words [] h = tt
all_words (c ∷ s) h =
    let (first, rest) = and-split (not (is_whitespace c)) (all (λ c. not (is_whitespace c)) s) h in
    (ground arith, all_words s rest)

all-IsBytes : (t : List ℕ) → all (λ c. ltb c 256) t ≡ true → IsBytes t
all-IsBytes [] h = tt
all-IsBytes (c ∷ t) h = (ground arith, all-IsBytes t (ground arith))

pub plain_decode-IsBytes : (t : Text) (bs : List ℕ) → plain_decode t ≡ ok bs → IsBytes bs
plain_decode-IsBytes t bs e = elim (Bool-cases (all (λ c. ltb c 256) t)) [
  | inl small ↦ subst IsBytes (ok_inj (rw (small, plain_decode) at e)) (all-IsBytes t small)
  | inr large ↦ let wrong = (rw (large, plain_decode) at e) in cc wrong
]

slashes-new : StoreDir.new (text "/nix/store//") ≡ ok nix_store
unfolding StoreDir.new
slashes-new = refl

new-IsNormal_example : IsNormal (text "/nix/store")
new-IsNormal_example = new-IsNormal (text "/nix/store//") {d = nix_store} slashes-new

pub nix_store-IsNormal : IsNormal (text "/nix/store")
nix_store-IsNormal = new-IsNormal (text "/nix/store//") {d = nix_store} slashes-new

expand_display_path-display_path_example :
    (display_path nix_store hello_path ≡ text "p4pclmv1gyja5kzc26npqpia1qqxrf0l-ruby-2.7.3")
    × (expand_display_path nix_store (display_path nix_store hello_path) ≡ hello_path)
expand_display_path-display_path_example =
    expand_display_path-display_path nix_store b'p'
      (text "4pclmv1gyja5kzc26npqpia1qqxrf0l-ruby-2.7.3") nix_store-IsNormal (omega arith)

pub hash_text-IsHash : IsHash hash_text
unfolding is_base32_char
hash_text-IsHash = (refl, all-All is_base32_char hash_text refl)

from_hash_iff_example :
    (from_hash hash_text ≡ ok (record { as_str = hash_text }))
    ↔ ((hash_text ≡ hash_text) × IsHash hash_text)
from_hash_iff_example = from_hash_iff hash_text (record { as_str = hash_text })

-- The letter "e" is not of the alphabet.
abbrev bad_hash : Text
bad_hash = text "p4pclmv1gyja5kzc26npqpia1qqxrf0e"

bad_hash-from_hash : from_hash bad_hash ≡ err (invalid_character bad_hash b'e' 31)
unfolding from_hash is_base32_char
bad_hash-from_hash = refl

from_hash_position_example :
    (bad_hash ≡ bad_hash)
    × ((a : Text) × (b : Text) × (bad_hash ≡ a ++ b'e' ∷ b)
        × (length a ≡ 31)
        × All (λ x. is_base32_char x ≡ true) a
        × (is_base32_char b'e' ≡ false))
from_hash_position_example =
    from_hash_position bad_hash {t = bad_hash} {c = b'e'} {n = 31} bad_hash-from_hash

pub hello_path-parse : parse_from_store_path hello_path ≡ ok (record { as_str = hash_text })
hello_path-parse =
    parse_from_store_path-append (text "/nix/store") hash_text (text "ruby-2.7.3") hash_text-IsHash
      (omega arith) (omega arith)

encode_nix_base32-eq_example :
    encode_nix_base32 test_bytes ≡ spell (digit_count test_bytes) (le_value test_bytes)
encode_nix_base32-eq_example = encode_nix_base32-eq test_bytes (omega arith)

read_base32-encode_example : read_base32 0 (encode_nix_base32 test_bytes) ≡ le_value test_bytes
read_base32-encode_example = read_base32-encode test_bytes (omega arith)

pub test_digest-IsBase32 : IsBase32 test_digest
test_digest-IsBase32 = all-All (λ c. contains_char c nix_base32_alphabet) test_digest refl

abbrev pub test_hash : NormalizedNarHash
test_hash = record { algorithm = sha256; digest = test_digest }

pub test_hash-from_nix_hash :
    from_nix_hash plain_decode (NixHash.structured sha256 (some nix_base32) test_digest)
    ≡ ok test_hash
unfolding from_nix_hash Hash.new Hash.validate_nix32_text_digest Hash.is_valid_nix_base32_alphabet
    bytes
test_hash-from_nix_hash = refl

from_nix_hash-IsNormalized_example :
    IsNormalized test_hash
    × IsDigestOf plain_decode (NixHash.structured sha256 (some nix_base32) test_digest) test_hash
from_nix_hash-IsNormalized_example =
    from_nix_hash-IsNormalized plain_decode plain_decode-IsBytes
      (NixHash.structured sha256 (some nix_base32) test_digest) {h = test_hash}
      test_hash-from_nix_hash

parse_text-to_string_iff_example :
    (parse_text plain_decode (to_string test_hash) ≡ ok test_hash) ↔ (len test_digest ≡ 52)
parse_text-to_string_iff_example =
    parse_text-to_string_iff plain_decode test_hash (refl, test_digest-IsBase32)
