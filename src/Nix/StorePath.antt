-- ===== src/Nix/StorePath.antt =====
-- `StorePathHash` of crates/depot-core/src/nix.rs: the hash part of a store path.
use nix_project_cache.Prelude.{
  ℕ, ◌+◌, ◌%◌, ◌≡◌, refl, ap, ◌∙◌, sym, subst, ◌↔◌, inl, inr, Bool, true, false, Option, [], ◌∷◌,
  ◌++◌, arith, ◌==◌, if◌then◌else◌, Bool-cases, ==_iff, Result, ok, err, guard, guard-ok, bind-ok,
  Result-cases, ok_or, ok_or-ok, ◌>>=◌, ◌>>◌, All, length,
}
use nix_project_cache.Prelude.Text.{Text, text, len}
use nix_project_cache.Prelude.Text.Search.{
  contains_char, after_last, after_last-append, split_once, split_once-append, split_once-some,
  Lacks,
}

abbrev pub nix_base32_alphabet : Text
nix_base32_alphabet = text "0123456789abcdfghijklmnpqrsvwxyz"

pub data StorePathHashError : Type 0 where
  missing_hyphen : Text → StorePathHashError
  invalid_length : Text → ℕ → ℕ → StorePathHashError  -- store path, actual, expected
  invalid_character : Text → ℕ → ℕ → StorePathHashError  -- store path, character, position

pub record StorePathHash : Type 0 where
  pub as_str : Text

abbrev pub hash_length : ℕ
hash_length = 32

-- `NIX_BASE32_ALPHABET.contains(&(character as u8))`: the cast keeps the low eight bits.
unfoldable pub is_base32_char : ℕ → Bool
is_base32_char c = contains_char (c % 256) nix_base32_alphabet

-- The loop of `from_hash`.
check_chars : Text → ℕ → Text → Result StorePathHashError (Unit {0})
check_chars hash position [] = ok tt
check_chars hash position (c ∷ s) =
    if is_base32_char c
    then check_chars hash (position + 1) s
    else err (invalid_character hash c position)

unfoldable pub from_hash : Text → Result StorePathHashError StorePathHash
unfolding check_chars
from_hash hash = do
  guard (len hash == hash_length) (invalid_length hash (len hash) hash_length)
  check_chars hash 0 hash
  ok (record { as_str = hash })

unfoldable pub parse_from_store_path : Text → Result StorePathHashError StorePathHash
parse_from_store_path store_path = do
  parts ← ok_or (split_once b'-' (after_last b'/' store_path)) (missing_hyphen store_path)
  from_hash parts.0

-- What `from_hash` asks of a text.
abbrev pub IsHash : Text → Type 0
IsHash h = (len h ≡ hash_length) × All (λ c. is_base32_char c ≡ true) h

check_chars_sound :
    (hash : Text) (p : ℕ) (s : Text) {u : Unit {0}}
    → check_chars hash p s ≡ ok u
    → All (λ c. is_base32_char c ≡ true) s
unfolding check_chars
check_chars_sound hash p [] h = tt
check_chars_sound hash p (c ∷ s) h = elim (Bool-cases (is_base32_char c)) [
  | inl e ↦ (e, check_chars_sound hash (p + 1) s (rw (e, check_chars) at h))
  | inr e ↦ absurd (ground arith)
]

check_chars_complete :
    (hash : Text) (p : ℕ) (s : Text)
    → All (λ c. is_base32_char c ≡ true) s
    → check_chars hash p s ≡ ok tt
unfolding check_chars
check_chars_complete hash p [] h = refl
check_chars_complete hash p (c ∷ s) h =
    rw (h.0, check_chars) (check_chars_complete hash (p + 1) s h.1)

pub from_hash_sound :
    (h : Text) {v : StorePathHash} → from_hash h ≡ ok v → (v.as_str ≡ h) × IsHash h
unfolding from_hash
from_hash_sound h {v} e =
    let (u, g, rest) =
      bind-ok (guard (len h == hash_length) (invalid_length h (len h) hash_length))
        (λ _. check_chars h 0 h >> ok (record { as_str = h })) e in
    let (w, checked, done) = bind-ok (check_chars h 0 h) (λ _. ok (record { as_str = h })) rest in
    (
      ground arith,
      ((==_iff (len h) hash_length).0 (guard-ok _ _ g), check_chars_sound h 0 h checked),
    )

from_hash_complete : (h : Text) → IsHash h → from_hash h ≡ ok (record { as_str = h })
unfolding from_hash
from_hash_complete h k = rw (k.0, check_chars_complete h 0 h k.1)

-- The text is accepted exactly if it has 32 bytes and the low byte of every character is in the
-- alphabet, and then it is kept as it is.
pub from_hash_iff :
    (h : Text) (v : StorePathHash) → (from_hash h ≡ ok v) ↔ ((v.as_str ≡ h) × IsHash h)
from_hash_iff h v = (
  from_hash_sound h,
  λ k. subst (λ t. from_hash h ≡ ok (record { as_str = t })) (sym k.0) (from_hash_complete h k.1),
)

check_chars_position :
    (hash : Text) (p : ℕ) (s : Text) {t : Text} {c n : ℕ}
    → check_chars hash p s ≡ err (invalid_character t c n)
    → (a : Text) × (b : Text) × (t ≡ hash)
      × (s ≡ a ++ c ∷ b)
      × (p + length a ≡ n)
      × All (λ x. is_base32_char x ≡ true) a
      × (is_base32_char c ≡ false)
unfolding check_chars
check_chars_position hash p [] h = cc
check_chars_position hash p (x ∷ s) {t} {c} {n} h = elim (Bool-cases (is_base32_char x)) [
  | inl e ↦
      let (a, b, text_eq, parts, at, good, bad) =
        check_chars_position hash (p + 1) s (rw (e, check_chars) at h) in
      (x ∷ a, b, text_eq, ap (λ r. x ∷ r) parts, omega (arith, at), (e, good), bad)
  | inr e ↦
      let same : x ≡ c = ground arith in
      let start : p ≡ n = ground arith in
      ([], s, ground arith, ap (λ y. y ∷ s) same, omega arith, tt, rw (← same) e)
]

-- A bad character is reported with the text, and at the first place where there is one.
pub from_hash_position :
    (h : Text) {t : Text} {c n : ℕ}
    → from_hash h ≡ err (invalid_character t c n)
    → (t ≡ h)
      × ((a : Text) × (b : Text) × (h ≡ a ++ c ∷ b)
          × (length a ≡ n)
          × All (λ x. is_base32_char x ≡ true) a
          × (is_base32_char c ≡ false))
unfolding from_hash
from_hash_position h {t} {c} {n} e = elim (Bool-cases (len h == hash_length)) [
  | inl right ↦ elim (Result-cases (check_chars h 0 h)) [
    | inl (u, passed) ↦ absurd (ground arith)
    | inr (x, failed) ↦
        let same : x ≡ invalid_character t c n = ground arith in
        let (a, b, text_eq, parts, at, good, bad) =
          check_chars_position h 0 h (failed ∙ ap (λ y. err y) same) in
        (text_eq, (a, b, parts, omega (arith, at), good, bad))
  ]
  | inr wrong ↦ absurd (ground arith)
]

-- A path below a directory, whose last part is a hash, a hyphen and a name, gives the hash.
pub parse_from_store_path-append :
    (dir hash name : Text)
    → IsHash hash
    → Lacks b'/' (hash ++ b'-' ∷ name)
    → Lacks b'-' hash
    → parse_from_store_path (dir ++ b'/' ∷ (hash ++ b'-' ∷ name)) ≡ ok (record { as_str = hash })
unfolding parse_from_store_path
parse_from_store_path-append dir hash name h no_slash no_hyphen =
    let path = dir ++ b'/' ∷ (hash ++ b'-' ∷ name) in
    let split =
      ap (split_once b'-') (after_last-append b'/' dir (hash ++ b'-' ∷ name) no_slash)
      ∙ split_once-append b'-' hash name no_hyphen in
    ap (λ (o : Option (Text × Text)). ok_or o (missing_hyphen path) >>= λ parts. from_hash parts.0)
      split
    ∙ from_hash_complete hash h

-- Only a hash that `from_hash` accepts comes out of a path, and it stands in the path's last part,
-- before the first hyphen.
parse_from_store_path-ok :
    (path : Text) {v : StorePathHash}
    → parse_from_store_path path ≡ ok v
    → IsHash v.as_str
      × ((name : Text) × (after_last b'/' path ≡ v.as_str ++ b'-' ∷ name) × Lacks b'-' v.as_str)
unfolding parse_from_store_path
parse_from_store_path-ok path {v} e =
    let (parts, split, hashed) =
      bind-ok (ok_or (split_once b'-' (after_last b'/' path)) (missing_hyphen path))
        (λ parts. from_hash parts.0) e in
    let (same, valid) = from_hash_sound parts.0 hashed in
    let (whole, lacks) = split_once-some b'-' (after_last b'/' path) (ok_or-ok _ _ split) in
    (
      subst IsHash (sym same) valid,
      (
        parts.1,
        whole ∙ ap (λ t. t ++ b'-' ∷ parts.1) (sym same),
        subst (Lacks b'-') (sym same) lacks,
      ),
    )
