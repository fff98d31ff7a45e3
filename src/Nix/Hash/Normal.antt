-- ===== src/Nix/Hash/Normal.antt =====
-- What a normalized NAR hash satisfies, and its round trip through text.
use nix_project_cache.Prelude.{
  ℕ, ◌+◌, ◌/◌, ◌<◌, ◌≡◌, refl, ap, ap₂, ◌∙◌, sym, subst, ◌↔◌, ◌≢◌, inl, inr, Bool, true, none, some,
  List, [], ◌∷◌, ◌++◌, arith, ◌==◌, ==_iff, Bool-cases, Result, ok, bind-ok, map_err, map_err-ok,
  ok_or, ok_or-ok, ok_inj, All, all, ◌&&◌, and-split,
}
use nix_project_cache.Prelude.Text.{Text, text, len, bytes, utf8}
use nix_project_cache.Prelude.Text.Search.{contains_char, split_once}
use nix_project_cache.Nix.StorePath.{nix_base32_alphabet}
use nix_project_cache.Nix.Base32.{encode_nix_base32}
use nix_project_cache.Nix.Base32.Digits.{IsBytes}
use nix_project_cache.Nix.Base32.Decode.{encode_nix_base32-All}
use nix_project_cache.Nix.HashAlgorithm
use nix_project_cache.Nix.HashAlgorithm.{
  HashAlgorithm, sha256, sha512, other, as_str, supports_nix_base32_conversion,
  nix_base32_digest_len,
}
use nix_project_cache.Nix.Hash.{
  NixHashError, unsupported_text_format, invalid_base64, NormalizedNarHash, base64, nix_base32,
  HashTextSyntax, sri, colon_separated, ParsedHashText, NixHash, raw, structured, parse_hash_text,
  is_valid_nix_base32_alphabet, length_differs, validate_nix32_text_digest, new, from_base64_digest,
  from_parsed, parse_text, from_nix_hash, to_string,
}
use nix_project_cache.Nix.Hash

-- Every character of the text is one of the alphabet.
abbrev pub IsBase32 : Text → Type 0
IsBase32 = All (λ c. contains_char c nix_base32_alphabet ≡ true)

contains_char-bound : (c n : ℕ) (s : Text) → All (λ x. x < n) s → contains_char c s ≡ true → c < n
contains_char-bound c n [] h e = cc
contains_char-bound c n (x ∷ s) h e = ground (arith, contains_char-bound c n s h.1)

in_alphabet : ℕ → Bool
in_alphabet c = contains_char c nix_base32_alphabet

in_alphabet-lt : (c : ℕ) → in_alphabet c ≡ true → c < 128
unfolding in_alphabet
in_alphabet-lt c e = contains_char-bound c 128 nix_base32_alphabet (omega arith) e

all-append : (p : ℕ → Bool) (xs ys : List ℕ) → all p (xs ++ ys) ≡ (all p xs && all p ys)
all-append p [] ys = refl
all-append p (x ∷ xs) ys = ground (arith, all-append p xs ys)

-- A character is in the alphabet if its bytes are: the alphabet is ASCII.
utf8_alphabet : (c : ℕ) → all in_alphabet (utf8 c) ≡ in_alphabet c
utf8_alphabet c = ground (
  arith,
  in_alphabet-lt c,
  in_alphabet-lt (192 + c / 64),
  in_alphabet-lt (224 + c / 4096),
  in_alphabet-lt (240 + c / 262144),
)

bytes_alphabet : (s : Text) → all in_alphabet (bytes s) ≡ all in_alphabet s
unfolding bytes
bytes_alphabet [] = refl
bytes_alphabet (c ∷ s) =
    all-append in_alphabet (utf8 c) (bytes s)
    ∙ ap₂ (λ x y. x && y) (utf8_alphabet c) (bytes_alphabet s)

all-All : (s : Text) → all in_alphabet s ≡ true → IsBase32 s
unfolding in_alphabet
all-All [] e = tt
all-All (c ∷ s) e = let (here, later) = and-split _ _ e in (here, all-All s later)

All-all : (s : Text) → IsBase32 s → all in_alphabet s ≡ true
unfolding in_alphabet
All-all [] h = refl
All-all (c ∷ s) h = rw h.0 (All-all s h.1)

valid-IsBase32 : (s : Text) → is_valid_nix_base32_alphabet s ≡ true → IsBase32 s
unfolding is_valid_nix_base32_alphabet in_alphabet
valid-IsBase32 [] e = cc
valid-IsBase32 (c ∷ s) e = all-All (c ∷ s) (sym (bytes_alphabet (c ∷ s)) ∙ e)

IsBase32-valid : (s : Text) → s ≢ [] → IsBase32 s → is_valid_nix_base32_alphabet s ≡ true
unfolding is_valid_nix_base32_alphabet in_alphabet
IsBase32-valid [] n h = absurd (n refl)
IsBase32-valid (c ∷ s) n h = bytes_alphabet (c ∷ s) ∙ All-all (c ∷ s) h

-- A normalized hash names SHA-256, and its digest is written in the nix-base32 alphabet.
abbrev pub IsNormalized : NormalizedNarHash → Type 0
IsNormalized h = (h.algorithm ≡ sha256) × IsBase32 h.digest

supported : (a : HashAlgorithm) → supports_nix_base32_conversion a ≡ true → a ≡ sha256
supported sha256 e = refl
supported _ e = cc

module _ {ℓ} {D : Type ℓ} where
  new-ok :
      (algorithm : HashAlgorithm) (digest : Text) {h : NormalizedNarHash}
      → new {D = D} algorithm digest ≡ ok h
      → (h ≡ record { algorithm = algorithm; digest = digest })
        × (algorithm ≡ sha256)
        × IsBase32 digest
        × (len digest ≡ 52)
  unfolding new validate_nix32_text_digest length_differs
  new-ok sha256 digest {h} e = elim (Bool-cases (is_valid_nix_base32_alphabet digest)) [
    | inl valid ↦ elim (Bool-cases (len digest == 52)) [
      | inl full ↦
          (ground arith, refl, valid-IsBase32 digest valid, (==_iff (len digest) 52).0 full)
      | inr short ↦ absurd (ground arith)
    ]
    | inr invalid ↦ absurd (ground arith)
  ]
  new-ok sha512 digest e = cc
  new-ok (other name) digest e = cc

  new_complete :
      (digest : Text)
      → IsBase32 digest
      → len digest ≡ 52
      → new {D = D} sha256 digest ≡ ok (record { algorithm = sha256; digest = digest })
  unfolding new validate_nix32_text_digest length_differs
  new_complete digest b l =
      let filled : digest ≢ [] = λ e. absurd (omega (arith, l, ap len e)) in
      let valid = IsBase32-valid digest filled b in
      let full = (==_iff (len digest) 52).1 l in ground arith

-- `decode` is the base64 crate's decoder; its output is a byte string.
module _ {ℓ} {D : Type ℓ} (decode : Text → Result D (List ℕ))
    (decode_bytes : (t : Text) (bs : List ℕ) → decode t ≡ ok bs → IsBytes bs) where
  from_base64_digest-IsNormalized :
      (algorithm : HashAlgorithm) (digest : Text) {h : NormalizedNarHash}
      → from_base64_digest decode algorithm digest ≡ ok h
      → IsNormalized h
  unfolding from_base64_digest
  from_base64_digest-IsNormalized sha256 digest {h} e =
      let (bs, decoded, made) =
        bind-ok (map_err invalid_base64 (decode digest))
          (λ hash_bytes. ok (record { algorithm = sha256; digest = encode_nix_base32 hash_bytes }))
          e in
      let made' : record { algorithm = sha256; digest = encode_nix_base32 bs } ≡ h = cc in
      subst IsNormalized made'
        (refl, encode_nix_base32-All bs (decode_bytes digest bs (map_err-ok _ _ decoded)))
  from_base64_digest-IsNormalized sha512 digest e = cc
  from_base64_digest-IsNormalized (other name) digest e = cc

  new-IsNormalized :
      (algorithm : HashAlgorithm) (digest : Text) {h : NormalizedNarHash}
      → new {D = D} algorithm digest ≡ ok h
      → IsNormalized h
  new-IsNormalized algorithm digest e =
      let (made, kind, spelled, full) = new-ok algorithm digest e in
      subst IsNormalized (sym made) (kind, spelled)

  from_parsed-IsNormalized :
      (p : ParsedHashText) (form : HashTextSyntax) {h : NormalizedNarHash}
      → from_parsed decode p form ≡ ok h
      → IsNormalized h
  unfolding from_parsed
  from_parsed-IsNormalized p sri e = from_base64_digest-IsNormalized p.algorithm p.digest e
  from_parsed-IsNormalized p colon_separated e = new-IsNormalized p.algorithm p.digest e

  parse_text-IsNormalized :
      (t : Text) {h : NormalizedNarHash} → parse_text decode t ≡ ok h → IsNormalized h
  unfolding parse_text
  parse_text-IsNormalized t e =
      let (p, found, made) =
        bind-ok (ok_or (parse_hash_text t) (unsupported_text_format t))
          (λ p. from_parsed decode p p.form) e in
      from_parsed-IsNormalized p p.form made

  pub from_nix_hash_normal :
      (hash : NixHash) {h : NormalizedNarHash} → from_nix_hash decode hash ≡ ok h → IsNormalized h
  unfolding from_nix_hash
  from_nix_hash_normal (raw t) e = parse_text-IsNormalized t e
  from_nix_hash_normal (structured algorithm none digest) e =
      from_base64_digest-IsNormalized algorithm digest e
  from_nix_hash_normal (structured algorithm (some base64) digest) e =
      from_base64_digest-IsNormalized algorithm digest e
  from_nix_hash_normal (structured algorithm (some nix_base32) digest) e =
      new-IsNormalized algorithm digest e
  from_nix_hash_normal (structured algorithm (some (Hash.other name)) digest) e = cc

-- Where the digest of the normal form comes from.
module _ {D : Type 0} (decode : Text → Result D (List ℕ)) where
  -- A nix-base32 digest is taken as it is, and has the characters of a SHA-256 digest.
  abbrev pub IsTaken : Text → NormalizedNarHash → Type 0
  IsTaken digest h = (h.digest ≡ digest) × (len digest ≡ 52)

  -- A base64 digest is decoded, and its bytes are spelled in nix-base32, however many they are.
  abbrev pub IsSpelled : Text → NormalizedNarHash → Type 0
  IsSpelled digest h = (bs : List ℕ) × (decode digest ≡ ok bs) × (h.digest ≡ encode_nix_base32 bs)

  abbrev pub IsDigestIn : HashTextSyntax → Text → NormalizedNarHash → Type 0
  IsDigestIn sri = IsSpelled
  IsDigestIn colon_separated = IsTaken

  abbrev pub IsDigestOf : NixHash → NormalizedNarHash → Type 0
  IsDigestOf (raw t) h =
      (p : ParsedHashText) × (parse_hash_text t ≡ some p) × IsDigestIn p.form p.digest h
  IsDigestOf (structured algorithm none digest) h = IsSpelled digest h
  IsDigestOf (structured algorithm (some base64) digest) h = IsSpelled digest h
  IsDigestOf (structured algorithm (some nix_base32) digest) h = IsTaken digest h
  IsDigestOf (structured algorithm (some (Hash.other name)) digest) h = ⊥

  from_base64_digest-IsSpelled :
      (algorithm : HashAlgorithm) (digest : Text) {h : NormalizedNarHash}
      → from_base64_digest decode algorithm digest ≡ ok h
      → IsSpelled digest h
  unfolding from_base64_digest
  from_base64_digest-IsSpelled sha256 digest {h} e =
      let (bs, decoded, made) =
        bind-ok (map_err invalid_base64 (decode digest))
          (λ hash_bytes. ok (record { algorithm = sha256; digest = encode_nix_base32 hash_bytes }))
          e in
      (bs, map_err-ok _ _ decoded, sym (ap (λ (h : NormalizedNarHash). h.digest) (ok_inj made)))
  from_base64_digest-IsSpelled sha512 digest e = cc
  from_base64_digest-IsSpelled (other name) digest e = cc

  new-IsTaken :
      (algorithm : HashAlgorithm) (digest : Text) {h : NormalizedNarHash}
      → new {D = D} algorithm digest ≡ ok h
      → IsTaken digest h
  new-IsTaken algorithm digest e =
      let (made, kind, spelled, full) = new-ok algorithm digest e in
      (ap (λ (h : NormalizedNarHash). h.digest) made, full)

  from_parsed-IsDigestIn :
      (p : ParsedHashText) (form : HashTextSyntax) {h : NormalizedNarHash}
      → from_parsed decode p form ≡ ok h
      → IsDigestIn form p.digest h
  unfolding from_parsed
  from_parsed-IsDigestIn p sri e = from_base64_digest-IsSpelled p.algorithm p.digest e
  from_parsed-IsDigestIn p colon_separated e = new-IsTaken p.algorithm p.digest e

  from_nix_hash-IsDigestOf :
      (hash : NixHash) {h : NormalizedNarHash}
      → from_nix_hash decode hash ≡ ok h
      → IsDigestOf hash h
  unfolding from_nix_hash parse_text
  from_nix_hash-IsDigestOf (raw t) e =
      let (p, found, made) =
        bind-ok (ok_or (parse_hash_text t) (unsupported_text_format t))
          (λ p. from_parsed decode p p.form) e in
      (p, ok_or-ok _ _ found, from_parsed-IsDigestIn p p.form made)
  from_nix_hash-IsDigestOf (structured algorithm none digest) e =
      from_base64_digest-IsSpelled algorithm digest e
  from_nix_hash-IsDigestOf (structured algorithm (some base64) digest) e =
      from_base64_digest-IsSpelled algorithm digest e
  from_nix_hash-IsDigestOf (structured algorithm (some nix_base32) digest) e =
      new-IsTaken algorithm digest e
  from_nix_hash-IsDigestOf (structured algorithm (some (Hash.other name)) digest) e = cc

  -- If the decoder gives bytes, then whatever form a hash comes in, its normal form names SHA-256 and has a
  -- digest in the nix-base32 alphabet: a nix-base32 digest as it came, of 52 characters, or the bytes of a
  -- base64 digest, of any number, spelled in nix-base32.
  pub from_nix_hash-IsNormalized :
      ((t : Text) (bs : List ℕ) → decode t ≡ ok bs → IsBytes bs)
      → (hash : NixHash) {h : NormalizedNarHash} → from_nix_hash decode hash ≡ ok h
      → IsNormalized h × IsDigestOf hash h
  from_nix_hash-IsNormalized decode_bytes hash e =
      (from_nix_hash_normal decode decode_bytes hash e, from_nix_hash-IsDigestOf hash e)

module _ {ℓ} {D : Type ℓ} (decode : Text → Result D (List ℕ)) where
  parse_text-colon :
      (digest : Text) → parse_text decode (text "sha256" ++ b':' ∷ digest) ≡ new sha256 digest
  unfolding parse_text parse_hash_text from_parsed HashAlgorithm.parse split_once
  parse_text-colon digest = refl

  colon_iff :
      (digest : Text)
      → IsBase32 digest
      → (parse_text decode (text "sha256" ++ b':' ∷ digest)
          ≡ ok (record { algorithm = sha256; digest = digest }))
        ↔ (len digest ≡ 52)
  colon_iff digest b = (
    λ e. (new-ok sha256 digest (sym (parse_text-colon digest) ∙ e)).3,
    λ l. parse_text-colon digest ∙ new_complete digest b l,
  )

  -- A normalized hash is read back from its text exactly if its digest has the 52 characters of a
  -- SHA-256 digest.
  pub parse_text-to_string_iff :
      (h : NormalizedNarHash)
      → IsNormalized h
      → (parse_text decode (to_string h) ≡ ok h) ↔ (len h.digest ≡ 52)
  parse_text-to_string_iff h n =
      let same : h ≡ record { algorithm = sha256; digest = h.digest } =
        λ i. record { algorithm = n.0 i; digest = h.digest } in
      subst
        (λ (g : NormalizedNarHash). (parse_text decode (to_string g) ≡ ok g) ↔ (len g.digest ≡ 52))
        (sym same) (colon_iff h.digest n.1)
