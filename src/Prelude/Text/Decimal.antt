-- ===== src/Prelude/Text/Decimal.antt =====
-- `u64` as decimal text: `Display` and `FromStr`.
use Prim.Native.Nat.{ℕ, zero, suc, ◌+◌, ◌-◌, ◌*◌, ◌/◌, ◌%◌, ◌^◌, ◌≤◌, ◌<◌}
use mathlib.Core.Path.{◌≡◌, refl, ap, ◌∙◌}
use mathlib.Core.Bool.{◌&&◌}
use mathlib.Core.Option.{Option, none, some}
use mathlib.Core.List.{[], ◌∷◌, ◌++◌}
use native.Mathlib.Omega.{arith}
use nix_project_cache.Prelude.Tests.{ltb, leb, ◌==◌, if◌then◌else◌, Bool-cases, Option-cases}
use mathlib.Core.Logic.{◌≢◌, inl, inr}
use native.Mathlib.Nat.{pow-suc}
use nix_project_cache.Prelude.Lists.{All, All-append, length, length-append}
use nix_project_cache.Prelude.Text.{Text}

abbrev pub u64_mod : ℕ
u64_mod = 18446744073709551616

-- The digits of `n`, on fuel: twenty rounds are enough below 2^64.
digits : ℕ → ℕ → Text
digits zero n = []
digits (suc f) n =
    let rest = digits f (n / 10) in if ltb n 10 then (n + 48) ∷ [] else rest ++ (n % 10 + 48) ∷ []

unfoldable pub show_u64 : ℕ → Text
unfolding digits
show_u64 n = digits 20 n

-- One digit: `checked_mul` and `checked_add`.
step : ℕ → ℕ → Option ℕ
step acc c =
    if leb 48 c && leb c 57 && ltb (acc * 10 + (c - 48)) u64_mod
    then some (acc * 10 + (c - 48))
    else none

read_digits : ℕ → Text → Option ℕ
read_digits acc [] = some acc
read_digits acc (c ∷ s) = elim (step acc c) [ none ↦ none | some v ↦ read_digits v s ]

-- An empty text and a lone sign are refused; a leading `+` is allowed.
unfoldable pub parse_u64 : Text → Option ℕ
unfolding read_digits step
parse_u64 [] = none
parse_u64 (c ∷ []) = if c == b'+' then none else read_digits 0 (c ∷ [])
parse_u64 (c ∷ d ∷ s) = if c == b'+' then read_digits 0 (d ∷ s) else read_digits 0 (c ∷ d ∷ s)

read_digits-append :
    (acc : ℕ) (s : Text) (c v : ℕ)
    → read_digits acc s ≡ some v
    → read_digits acc (s ++ c ∷ []) ≡ step v c
unfolding read_digits
read_digits-append acc [] c v h = elim (Option-cases (step acc c)) [
  | inl e ↦ ground arith
  | inr (w, e) ↦ ground arith
]
read_digits-append acc (d ∷ s) c v h = elim (Option-cases (step acc d)) [
  | inl e ↦ ground arith
  | inr (w, e) ↦ rw (e, read_digits) (read_digits-append w s c v (rw (e, read_digits) at h))
]

step_digit : (n : ℕ) → n < u64_mod → step (n / 10) (n % 10 + 48) ≡ some n
unfolding step
step_digit n h = ground arith

digits_small : (n : ℕ) → n < 10 → read_digits 0 ((n + 48) ∷ []) ≡ some n
unfolding read_digits step
digits_small n h = ground arith

read_digits-digits :
    (f n : ℕ) → n < 10 ^ suc f → n < u64_mod → read_digits 0 (digits (suc f) n) ≡ some n
unfolding digits
read_digits-digits zero n h k = elim (Bool-cases (ltb n 10)) [
  | inl small ↦ rw small (digits_small n (ground arith))
  | inr big ↦ absurd (ground arith)
]
read_digits-digits (suc f) n h k = elim (Bool-cases (ltb n 10)) [
  | inl small ↦ rw small (digits_small n (ground arith))
  | inr big ↦
      let smaller : n / 10 < 10 ^ suc f = omega (arith, pow-suc 10 (suc f)) in
      rw big (
        read_digits-append 0 (digits (suc f) (n / 10)) (n % 10 + 48) (n / 10)
          (read_digits-digits f (n / 10) smaller (omega arith))
        ∙ step_digit n k)
]

-- Every `char` that `Display` writes is a digit.
abbrev pub IsDigit : ℕ → Type 0
IsDigit c = (48 ≤ c) × (c ≤ 57)

digits-All : (f n : ℕ) → All IsDigit (digits f n)
unfolding digits
digits-All zero n = tt
digits-All (suc f) n = elim (Bool-cases (ltb n 10)) [
  | inl small ↦ rw small (ground arith)
  | inr big ↦
      rw big (All-append IsDigit (digits f (n / 10)) _ (digits-All f (n / 10)) (omega arith))
]

pub show_u64-All : (n : ℕ) → All IsDigit (show_u64 n)
unfolding show_u64
show_u64-All n = digits-All 20 n

digits-ne-nil : (f n : ℕ) → digits (suc f) n ≢ []
unfolding digits
digits-ne-nil f n h = elim (Bool-cases (ltb n 10)) [
  | inl small ↦ cc (rw small at h)
  | inr big ↦
      omega (arith, ap length (rw big at h), length-append (digits f (n / 10)) ((n % 10 + 48) ∷ []))
]

parse_unsigned : (s : Text) → s ≢ [] → All IsDigit s → parse_u64 s ≡ read_digits 0 s
unfolding parse_u64
parse_unsigned [] h k = absurd (h refl)
parse_unsigned (c ∷ []) h k = ground arith
parse_unsigned (c ∷ d ∷ s) h k = ground arith

-- A number that was written is read back.
pub parse_u64-show_u64 : (n : ℕ) → n < u64_mod → parse_u64 (show_u64 n) ≡ some n
unfolding show_u64
parse_u64-show_u64 n h =
    parse_unsigned (digits 20 n) (digits-ne-nil 19 n) (digits-All 20 n)
    ∙ read_digits-digits 19 n (omega arith) h
