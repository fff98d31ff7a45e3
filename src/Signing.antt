-- ===== src/Signing.antt =====
-- crates/depot-core/src/signing.rs: signing keys, the fingerprint of a narinfo, and its signatures.
-- Ed25519, base64 and the system's randomness are other crates: they are parameters.
pub mod Fingerprint
pub mod Keys
use nix_project_cache.Prelude.{
  ℕ, ◌≡◌, Bool, true, false, not, Option, none, some, List, [], ◌∷◌, ◌++◌, map, Result, ok, err,
  ok_or, map_err, guard, ◌>>=◌, ◌>>◌, if◌then◌else◌, length, ◌==◌,
}
use nix_project_cache.Prelude.Text.{Text, text, text_eq, bytes}
use nix_project_cache.Prelude.Text.Search.{split_once, trim}
use nix_project_cache.Prelude.Text.Order.{sort}
use nix_project_cache.Prelude.Text.Decimal.{show_u64}
use nix_project_cache.Nix.StoreDir.{StoreDir, contains_path}
use nix_project_cache.Nix.Hash.{NixHashError, NormalizedNarHash, to_string}
use nix_project_cache.NarInfo.{NarInfo, normalized_nar_hash}

-- What the source calls of ed25519_dalek: keys `K`, errors `E`.
pub record Ed25519 (K E : Type 0) : Type 0 where
  pub from_bytes : List ℕ → K
  pub from_keypair_bytes : List ℕ → Result E K
  pub sign : K → List ℕ → List ℕ
  pub verifying_key : K → List ℕ
  pub to_bytes : K → List ℕ

-- What the source calls of base64: errors `D`.
pub record Base64 (D : Type 0) : Type 0 where
  pub encode : List ℕ → Text
  pub decode : Text → Result D (List ℕ)
  pub decode_no_pad : Text → Result D (List ℕ)

pub data ParseSigningKeyError (D E : Type 0) : Type 0 where
  missing_separator empty_name : ParseSigningKeyError D E
  invalid_base64 : D → D → ParseSigningKeyError D E
  invalid_key_length : ℕ → ParseSigningKeyError D E
  invalid_keypair : E → ParseSigningKeyError D E

pub data GenerateSigningKeyError (R : Type 0) : Type 0 where
  empty_name : GenerateSigningKeyError R
  random : R → GenerateSigningKeyError R

pub data FingerprintError (D : Type 0) : Type 0 where
  invalid_store_path : Text → Text → FingerprintError D  -- store dir, path
  invalid_nar_hash : NixHashError D → FingerprintError D
  invalid_reference_path : Text → Text → FingerprintError D  -- store dir, path

pub record NamedSigningKey (K : Type 0) : Type 0 where
  pub name : Text
  pub key : K

pub record NarInfoSigner (K : Type 0) : Type 0 where
  pub store_dir : StoreDir
  pub keys : List (NamedSigningKey K)

module _ {K E D : Type 0} (ed : Ed25519 K E) (b64 : Base64 D) where
  pub decode_base64_standard_or_raw : Text → Result (ParseSigningKeyError D E) (List ℕ)
  decode_base64_standard_or_raw input = elim (b64.decode input) [
    | ok bs ↦ ok bs
    | err standard_error ↦ elim (b64.decode_no_pad input) [
      | ok bs ↦ ok bs
      | err raw_error ↦ err (invalid_base64 standard_error raw_error)
    ]
  ]

  pub key_of_bytes : List ℕ → Result (ParseSigningKeyError D E) K
  key_of_bytes bs =
      if length bs == 32
      then ok (ed.from_bytes bs)
      else if length bs == 64
      then map_err invalid_keypair (ed.from_keypair_bytes bs)
      else err (invalid_key_length (length bs))

  unfoldable pub parse : Text → Result (ParseSigningKeyError D E) (NamedSigningKey K)
  unfolding decode_base64_standard_or_raw key_of_bytes
  parse input = do
    parts ← ok_or (split_once b':' input) missing_separator
    guard (not (text_eq (trim parts.0) [])) ParseSigningKeyError.empty_name
    key_bytes ← decode_base64_standard_or_raw (trim parts.1)
    key ← key_of_bytes key_bytes
    ok (record { name = trim parts.0; key = key })

  unfoldable pub sign_message : NamedSigningKey K → List ℕ → Text
  sign_message k message = k.name ++ b':' ∷ b64.encode (ed.sign k.key message)

  public_key_text : NamedSigningKey K → Text
  public_key_text k = k.name ++ b':' ∷ b64.encode (ed.verifying_key k.key)

  pub private_key_text : NamedSigningKey K → Text
  private_key_text k = k.name ++ b':' ∷ b64.encode (ed.to_bytes k.key)

  -- `seed` is what the system's randomness gives.
  unfoldable pub generate :
      {R : Type 0}
      → Result R (List ℕ)
      → Text
      → Result (GenerateSigningKeyError R) (NamedSigningKey K)
  generate seed name = do
    guard (not (text_eq (trim name) [])) GenerateSigningKeyError.empty_name
    bs ← map_err random seed
    ok (record { name = trim name; key = ed.from_bytes bs })

  unfoldable pub with_name :
      NamedSigningKey K → Text → Result (ParseSigningKeyError D E) (NamedSigningKey K)
  with_name k name = do
    guard (not (text_eq (trim name) [])) ParseSigningKeyError.empty_name
    ok (record k { name = trim name })

  public_key_texts : NarInfoSigner K → List Text
  public_key_texts s = map public_key_text s.keys

-- The loop that writes the references after the first: a comma, then the reference.
pub push_rest : List Text → Text
push_rest [] = []
push_rest (r ∷ refs) = b',' ∷ r ++ push_rest refs

pub push_references : List Text → Text
push_references [] = []
push_references (r ∷ refs) = r ++ push_rest refs

-- The text that `fingerprint` builds from the store path, the hash, the size and the sorted references.
abbrev pub fingerprint_text : Text → NormalizedNarHash → ℕ → List Text → Text
fingerprint_text store_path hash size refs =
    text "1;"
    ++ (store_path
        ++ b';' ∷ (to_string hash ++ b';' ∷ (show_u64 size ++ b';' ∷ push_references refs)))

pub check_references : {D : Type 0} → StoreDir → List Text → Result (FingerprintError D) (Unit {0})
check_references d [] = ok tt
check_references d (r ∷ refs) = do
  guard (contains_path d r) (invalid_reference_path d.path r)
  check_references d refs

module _ {K D : Type 0} (b64 : Base64 D) where
  unfoldable pub fingerprint : NarInfoSigner K → NarInfo → Result (FingerprintError D) (List ℕ)
  unfolding check_references
  fingerprint s n = do
    guard (contains_path s.store_dir n.store_path)
        (invalid_store_path s.store_dir.path n.store_path)
    nar_hash ← map_err invalid_nar_hash (normalized_nar_hash b64.decode n)
    check_references s.store_dir n.references
    ok (bytes (fingerprint_text n.store_path nar_hash n.nar_size (sort n.references)))

module _ {K E D : Type 0} (ed : Ed25519 K E) (b64 : Base64 D) where
  unfoldable pub sign : NarInfoSigner K → NarInfo → Result (FingerprintError D) (List Text)
  sign s n = do message ← fingerprint b64 s n; ok (map (λ k. sign_message ed b64 k message) s.keys)
