-- ===== src/Nix/Base32/Decode.antt =====
-- Reading nix-base32 text back as a number: `encode_nix_base32` loses nothing.
use native.Mathlib.Nat.{
  pow-zero, pow-succ', pow-le-pow_right, mod-eq_of_lt, add-mul-mod_self_left, div-add-mod,
  one-le-pow, le_trans,
}
use nix_project_cache.Prelude.{
  ℕ, zero, suc, ◌+◌, ◌*◌, ◌/◌, ◌%◌, ◌^◌, ◌≤◌, ◌<◌, ◌≡◌, refl, ap, ap₂, ◌∙◌, sym, subst, true, ◌&&◌,
  List, [], ◌∷◌, arith, ◌==◌, if◌then◌else◌, ==_iff, All, length, and-split,
}
use nix_project_cache.Prelude.Text.{Text}
use nix_project_cache.Prelude.Text.Search.{contains_char}
use nix_project_cache.Nix.StorePath.{nix_base32_alphabet}
use nix_project_cache.Nix.Base32.{byte_at, encode_from, encoded_length, encode_nix_base32}
use nix_project_cache.Nix.Base32.Digits.{
  le_value, IsBytes, digit_at-eq, pow_pow, passes_under, passes_at,
}

-- The `n` base-32 digits of `v`, the highest first.
abbrev pub spell : ℕ → ℕ → Text
spell zero v = []
spell (suc n) v = byte_at nix_base32_alphabet (v / 32 ^ n % 32) ∷ spell n v

-- As many digits as it takes for `8 * length` bits.
abbrev pub digit_count : List ℕ → ℕ
digit_count bs = (length bs * 8 + 4) / 5

encode_from-eq : (bs : List ℕ) (n : ℕ) → IsBytes bs → encode_from bs n ≡ spell n (le_value bs)
unfolding encode_from
encode_from-eq bs zero h = refl
encode_from-eq bs (suc n) h =
    ap₂ (λ d (s : Text). byte_at nix_base32_alphabet d ∷ s) (digit_at-eq bs n h)
      (encode_from-eq bs n h)

-- The text holds the base-32 digits of the number that the bytes spell, the highest first, and
-- just enough of them for the bytes' bits.
pub encode_nix_base32-eq :
    (bs : List ℕ) → IsBytes bs → encode_nix_base32 bs ≡ spell (digit_count bs) (le_value bs)
unfolding encode_nix_base32 encoded_length
encode_nix_base32-eq [] h = refl
encode_nix_base32-eq (b ∷ bs) h =
    encode_from-eq (b ∷ bs) (encoded_length (b ∷ bs)) h
    ∙ ap (λ n. spell n (le_value (b ∷ bs))) (omega arith)

-- The place of a character in the alphabet.
abbrev index_in : Text → ℕ → ℕ
index_in [] c = 0
index_in (x ∷ s) c = if x == c then 0 else suc (index_in s c)

abbrev pub read_base32 : ℕ → Text → ℕ
read_base32 acc [] = acc
read_base32 acc (c ∷ s) = read_base32 (acc * 32 + index_in nix_base32_alphabet c) s

index_table :
    passes_under
      (λ d.
        index_in nix_base32_alphabet (byte_at nix_base32_alphabet d) == d
        && contains_char (byte_at nix_base32_alphabet d) nix_base32_alphabet)
      32
    ≡ true
unfolding passes_under
index_table = refl

index_lem : (d : ℕ) → d < 32 → index_in nix_base32_alphabet (byte_at nix_base32_alphabet d) ≡ d
index_lem d h = (==_iff _ d).0 (and-split _ _ (passes_at _ 32 h index_table)).0

split_number : (v p : ℕ) → v ≡ v / p % 32 * p + v % p + 32 * p * (v / p / 32)
split_number v p =
    let quotient : v / p ≡ v / p % 32 + 32 * (v / p / 32) = omega arith in
    sym (div-add-mod v p) ∙ omega (arith, ap (λ t. t * p) quotient)

digit_bound : (d r p : ℕ) → d < 32 → r < p → d * p + r < 32 * p
digit_bound d r p h k = grind arith

split_digit : (v p : ℕ) → 0 < p → v / p % 32 * p + v % p ≡ v % (32 * p)
split_digit v p h =
    let d = v / p % 32 in
    let r = v % p in
    let q = v / p / 32 in
    let parts : v ≡ d * p + r + 32 * p * q = split_number v p in
    let small : d * p + r < 32 * p = digit_bound d r p (omega arith) (omega arith) in
    sym (
      ap (λ w. w % (32 * p)) parts
      ∙ add-mul-mod_self_left (d * p + r) (32 * p) q
      ∙ mod-eq_of_lt small)

read_base32-spell : (acc n v : ℕ) → read_base32 acc (spell n v) ≡ acc * 32 ^ n + v % 32 ^ n
read_base32-spell acc zero v = rw pow-zero (omega arith)
read_base32-spell acc (suc n) v =
    let p = 32 ^ n in
    let d = v / p % 32 in
    let positive : 0 < p = one-le-pow n 32 (omega arith) in
    ap (λ t. read_base32 (acc * 32 + t) (spell n v)) (index_lem d (omega arith))
    ∙ read_base32-spell (acc * 32 + d) n v
    ∙ omega (arith, split_digit v p positive, pow-succ' 32 n, ap (λ t. acc * t) (pow-succ' 32 n))
    ∙ ap (λ t. acc * 32 ^ suc n + v % t) (sym (pow-succ' 32 n))

le_value-lt : (bs : List ℕ) → IsBytes bs → le_value bs < 256 ^ length bs
le_value-lt [] h = omega arith
le_value-lt (b ∷ bs) h =
    let ih = le_value-lt bs h.1 in rw (pow-succ' 256 (length bs)) (omega (arith, h.0, ih))

enough_digits : (bs : List ℕ) → 256 ^ length bs ≤ 32 ^ digit_count bs
enough_digits bs =
    rw (pow_pow 2 8 (length bs), pow_pow 2 5 (digit_count bs))
      (pow-le-pow_right (omega arith) (omega arith))

drop_zero : (p r : ℕ) → 0 * p + r ≡ r
drop_zero p r = omega arith

-- Reading the text gives back the number that the bytes spell.
pub read_base32-encode :
    (bs : List ℕ) → IsBytes bs → read_base32 0 (encode_nix_base32 bs) ≡ le_value bs
read_base32-encode bs h =
    ap (read_base32 0) (encode_nix_base32-eq bs h)
    ∙ read_base32-spell 0 (digit_count bs) (le_value bs)
    ∙ drop_zero (32 ^ digit_count bs) (le_value bs % 32 ^ digit_count bs)
    ∙ mod-eq_of_lt (le_trans (le_value-lt bs h) (enough_digits bs))

le_value-injective :
    (xs bs : List ℕ)
    → IsBytes xs
    → IsBytes bs
    → length xs ≡ length bs
    → le_value xs ≡ le_value bs
    → xs ≡ bs
le_value-injective [] [] h k l e = refl
le_value-injective [] (b ∷ bs) h k l e = absurd (omega arith)
le_value-injective (a ∷ xs) [] h k l e = absurd (omega arith)
le_value-injective (a ∷ xs) (b ∷ bs) h k l e =
    ap₂ (λ x (ys : List ℕ). x ∷ ys) (omega (arith, h.0, k.0))
      (le_value-injective xs bs h.1 k.1 (omega arith) (omega (arith, h.0, k.0)))

-- No two byte strings of one length have the same text.
encode_nix_base32-injective :
    (xs bs : List ℕ)
    → IsBytes xs
    → IsBytes bs
    → length xs ≡ length bs
    → encode_nix_base32 xs ≡ encode_nix_base32 bs
    → xs ≡ bs
encode_nix_base32-injective xs bs h k l e =
    le_value-injective xs bs h k l
      (sym (read_base32-encode xs h) ∙ ap (read_base32 0) e ∙ read_base32-encode bs k)

spell-All : (n v : ℕ) → All (λ c. contains_char c nix_base32_alphabet ≡ true) (spell n v)
spell-All zero v = tt
spell-All (suc n) v = (
  (and-split _ _ (passes_at _ 32 {value = v / 32 ^ n % 32} (omega arith) index_table)).1,
  spell-All n v,
)

-- Only characters of the alphabet are written.
pub encode_nix_base32-All :
    (bs : List ℕ)
    → IsBytes bs
    → All (λ c. contains_char c nix_base32_alphabet ≡ true) (encode_nix_base32 bs)
encode_nix_base32-All bs h =
    subst (All (λ c. contains_char c nix_base32_alphabet ≡ true)) (sym (encode_nix_base32-eq bs h))
      (spell-All (digit_count bs) (le_value bs))
