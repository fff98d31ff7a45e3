-- ===== src/Signing/Keys.antt =====
-- Signing keys of crates/depot-core/src/signing.rs as text.
use nix_project_cache.Prelude.{ℕ, ◌≡◌, ◌≢◌, refl, ap, false, List, [], ◌∷◌, ok, length}
use nix_project_cache.Prelude.Text.{Text, text_eq}
use nix_project_cache.Prelude.Text.Search.{split_once-append, Lacks, trim, IsWord, trim_word}
use nix_project_cache.Nix.Base32.Digits.{IsBytes}
use nix_project_cache.Signing.{
  Ed25519, Base64, NamedSigningKey, parse, private_key_text, key_of_bytes,
  decode_base64_standard_or_raw,
}

name_test : (s : Text) → s ≢ [] → text_eq s [] ≡ false
unfolding text_eq
name_test [] h = absurd (h refl)
name_test (c ∷ s) h = refl

module _ {K E D : Type 0} (ed : Ed25519 K E) (b64 : Base64 D) where
  -- What the source relies on: a key is fixed by its 32 bytes, and base64 reads bytes back, gives bytes and
  -- writes no white space.
  pub record AreCodecs : Type 0 where
    pub from_bytes-to_bytes : (k : K) → ed.from_bytes (ed.to_bytes k) ≡ k
    pub to_bytes_length : (k : K) → length (ed.to_bytes k) ≡ 32
    pub to_bytes-IsBytes : (k : K) → IsBytes (ed.to_bytes k)
    pub decode-encode : (bs : List ℕ) → IsBytes bs → b64.decode (b64.encode bs) ≡ ok bs
    pub decode-IsBytes : (t : Text) (bs : List ℕ) → b64.decode t ≡ ok bs → IsBytes bs
    pub encode-IsWord : (bs : List ℕ) → IsBytes bs → IsWord (b64.encode bs)

  decode_encoded :
      AreCodecs
      → (bs : List ℕ) → IsBytes bs
      → decode_base64_standard_or_raw ed b64 (b64.encode bs) ≡ ok bs
  unfolding decode_base64_standard_or_raw
  decode_encoded codecs bs h = rw (codecs.decode-encode bs h, decode_base64_standard_or_raw)

  key_of_to_bytes : AreCodecs → (k : K) → key_of_bytes ed b64 (ed.to_bytes k) ≡ ok k
  unfolding key_of_bytes
  key_of_to_bytes codecs k = rw (codecs.to_bytes_length k) (ap ok (codecs.from_bytes-to_bytes k))

  -- If keys are fixed by their 32 bytes and base64 reads bytes back, a key whose name is not empty, has no colon and no white space around it is read back from its
  -- private text.
  pub parse-private_key_text :
      (codecs : AreCodecs) (k : NamedSigningKey K)
      → k.name ≢ []
      → trim k.name ≡ k.name
      → Lacks b':' k.name
      → parse ed b64 (private_key_text ed b64 k) ≡ ok k
  unfolding parse private_key_text
  parse-private_key_text codecs k named trimmed colon =
      let encoded = b64.encode (ed.to_bytes k.key) in
      let small = codecs.to_bytes-IsBytes k.key in
      rw (
        split_once-append b':' k.name encoded colon,
        trimmed,
        name_test k.name named,
        trim_word encoded (codecs.encode-IsWord (ed.to_bytes k.key) small),
        decode_encoded codecs (ed.to_bytes k.key) small,
        key_of_to_bytes codecs k.key,
      )
