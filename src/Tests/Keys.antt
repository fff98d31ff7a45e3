-- ===== src/Tests/Keys.antt =====
-- Runs of the models of crates/depot-core/src/signing.rs.
use nix_project_cache.Prelude.{
  ℕ, zero, suc, true, ◌==◌, if◌then◌else◌, ◌≡◌, ◌↔◌, refl, none, some, List, [], ◌∷◌, ◌++◌, ok, err,
  arith, length,
}
use nix_project_cache.Prelude.Text.{Text, text, text_eq, bytes, is_whitespace}
use nix_project_cache.Prelude.Text.Search.{trim, trim_word, strip_prefix}
use nix_project_cache.Prelude.Text.Order.{sort}
use nix_project_cache.Nix.StoreDir.{contains_path}
use nix_project_cache.Nix.Hash.{NixHash, nix_base32, to_string, from_nix_hash}
use nix_project_cache.Nix.Hash
use nix_project_cache.Nix.HashAlgorithm.{sha256}
use nix_project_cache.NarInfo.{NarInfo, normalized_nar_hash}
use nix_project_cache.Signing.{
  Ed25519, Base64, NamedSigningKey, NarInfoSigner, parse, private_key_text, fingerprint,
  fingerprint_text,
}
use nix_project_cache.Signing.Fingerprint.{
  fingerprint_text-injective, fingerprint_iff, fingerprint-Perm, IsFingerprint,
}
use nix_project_cache.Signing.Keys.{AreCodecs, parse-private_key_text}
use nix_project_cache.Nix.Base32.Digits.{IsBytes}
use nix_project_cache.Tests.Base64.{encode, decode, decode-encode, decode-IsBytes, encode-IsWord}
use nix_project_cache.Tests.Nix.{
  all_words, nix_store, hello_path, test_hash, test_digest, test_digest-IsBase32,
}
use mathlib.Core.List.Perm

-- Keys that are one of two seeds, spelled with letters.
data Seed : Type 0 where
  ones twos : Seed

abbrev repeat : ℕ → ℕ → List ℕ
repeat zero c = []
repeat (suc n) c = c ∷ repeat n c

abbrev seed_bytes : Seed → List ℕ
seed_bytes ones = repeat 32 1
seed_bytes twos = repeat 32 2

abbrev seed_of : List ℕ → Seed
seed_of [] = ones
seed_of (b ∷ bs) = if b == 1 then ones else twos

abbrev seeds : Ed25519 Seed Text
seeds = record {
  from_bytes = seed_of;
  from_keypair_bytes = λ bs. ok (seed_of bs);
  sign = λ k message. seed_bytes k ++ message;
  verifying_key = seed_bytes;
  to_bytes = seed_bytes;
}

abbrev codec : Base64 Text
codec = record { encode = encode; decode = decode; decode_no_pad = err }

seeds-back : (k : Seed) → seed_of (seed_bytes k) ≡ k
seeds-back ones = refl
seeds-back twos = refl

seed_length : (k : Seed) → length (seed_bytes k) ≡ 32
seed_length ones = refl
seed_length twos = refl

seed-IsBytes : (k : Seed) → IsBytes (seed_bytes k)
seed-IsBytes ones = omega arith
seed-IsBytes twos = omega arith

codecs : AreCodecs seeds codec
codecs = record {
  from_bytes-to_bytes = seeds-back;
  to_bytes_length = seed_length;
  to_bytes-IsBytes = seed-IsBytes;
  decode-encode = decode-encode;
  decode-IsBytes = decode-IsBytes;
  encode-IsWord = λ bs small. encode-IsWord bs;
}

abbrev cache_key : NamedSigningKey Seed
cache_key = record { name = text "cache-1"; key = twos }

cache-trim : trim (text "cache-1") ≡ text "cache-1"
unfolding is_whitespace
cache-trim = trim_word (text "cache-1") (all_words (text "cache-1") refl)

parse-private_key_text_example :
    parse seeds codec (private_key_text seeds codec cache_key) ≡ ok cache_key
parse-private_key_text_example =
    parse-private_key_text seeds codec codecs cache_key (λ e. cc) cache-trim (omega arith)

abbrev signer : NarInfoSigner Seed
signer = record { store_dir = nix_store; keys = cache_key ∷ [] }

abbrev other_path : Text
other_path = text "/nix/store/00000000000000000000000000000000-glibc"

abbrev signed : NarInfo
signed = record {
  store_path = hello_path;
  url = text "nar/x.nar";
  compression = text "none";
  nar_hash = NixHash.structured sha256 (some nix_base32) test_digest;
  nar_size = 1234;
  references = hello_path ∷ other_path ∷ [];
  deriver = none;
  signatures = [];
  ca = none;
}

abbrev signed_bytes : List ℕ
signed_bytes = bytes (fingerprint_text hello_path test_hash 1234 (sort signed.references))

fingerprint_iff_example :
    (fingerprint codec signer signed ≡ ok signed_bytes)
    ↔ IsFingerprint codec signer signed signed_bytes
fingerprint_iff_example = fingerprint_iff codec signer signed signed_bytes

inside-hello : contains_path nix_store hello_path ≡ true
unfolding contains_path strip_prefix text_eq
inside-hello = refl

inside-other : contains_path nix_store other_path ≡ true
unfolding contains_path strip_prefix text_eq
inside-other = refl

signed-hash : normalized_nar_hash codec.decode signed ≡ ok test_hash
unfolding from_nix_hash Hash.new Hash.validate_nix32_text_digest Hash.is_valid_nix_base32_alphabet
    bytes
signed-hash = refl

signed-fingerprint : fingerprint codec signer signed ≡ ok signed_bytes
signed-fingerprint =
    (fingerprint_iff codec signer signed signed_bytes).1
      (inside-hello, (inside-hello, (inside-other, tt)), (test_hash, signed-hash, refl))

fingerprint-Perm_example :
    fingerprint codec signer (record signed { references = other_path ∷ hello_path ∷ [] })
    ≡ ok signed_bytes
fingerprint-Perm_example =
    fingerprint-Perm codec signer signed (other_path ∷ hello_path ∷ []) signed_bytes
      (Perm.swap hello_path other_path []) signed-fingerprint

fingerprint_text-injective_example :
    (hello_path ≡ hello_path)
    × (to_string test_hash ≡ to_string test_hash)
    × (◌≡◌ {A = ℕ} 1234 1234)
    × (other_path ∷ [] ≡ other_path ∷ [])
fingerprint_text-injective_example =
    fingerprint_text-injective hello_path hello_path test_hash test_hash 1234 1234 (other_path ∷ [])
      (other_path ∷ []) (omega arith) (omega arith) (refl, test_digest-IsBase32)
      (refl, test_digest-IsBase32) (omega arith) (omega arith) ((λ e. cc, omega arith), tt)
      ((λ e. cc, omega arith), tt) refl
