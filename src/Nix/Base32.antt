-- ===== src/Nix/Base32.antt =====
-- `encode_nix_base32` and the checks of digests of crates/depot-core/src/nix.rs.
pub mod Digits
pub mod Decode
use Prim.Native.Nat.{bit_or, bit_and}
use nix_project_cache.Prelude.{
  ℕ, zero, suc, ◌+◌, ◌-◌, ◌*◌, ◌/◌, ◌%◌, ◌^◌, ◌≤◌, ◌<◌, ◌≡◌, refl, ap, ◌∙◌, sym, ◌↔◌, ◌≢◌, inl, inr,
  Bool, true, false, ◌&&◌, not, List, [], ◌∷◌, ◌++◌, arith, ltb, ◌==◌, if◌then◌else◌, Bool-cases,
  ==_iff, All, length, length-append,
}
use nix_project_cache.Prelude.Text.{Text, text}
use nix_project_cache.Nix.StorePath.{nix_base32_alphabet}

-- A read that the code guards by `i < input.len()`.
abbrev pub byte_at : List ℕ → ℕ → ℕ
byte_at [] i = 0
byte_at (b ∷ bs) zero = b
byte_at (b ∷ bs) (suc i) = byte_at bs i

-- `x >> j` and `x << k` on `u8`.
abbrev shr8 : ℕ → ℕ → ℕ
shr8 x j = x / 2 ^ j

abbrev shl8 : ℕ → ℕ → ℕ
shl8 x k = (x * 2 ^ k) % 256

-- The five bits of round `n`, before the look-up in the alphabet.
unfoldable pub digit_at : List ℕ → ℕ → ℕ
digit_at input n =
    let i = n * 5 / 8 in
    let j = n * 5 % 8 in
    let c = if ltb i (length input) then shr8 (byte_at input i) j else 0 in
    let c' =
      if ltb (i + 1) (length input) && not (j == 0)
      then bit_or c (shl8 (byte_at input (i + 1)) (8 - j))
      else c in
    bit_and c' 0x1f

unfoldable pub encoded_length : List ℕ → ℕ
encoded_length input = (length input * 8 - 1) / 5 + 1

-- The rounds `n = count - 1, …, 0` of the loop.
encode_from : List ℕ → ℕ → Text
encode_from input zero = []
encode_from input (suc n) = byte_at nix_base32_alphabet (digit_at input n) ∷ encode_from input n

unfoldable pub encode_nix_base32 : List ℕ → Text
unfolding encode_from encoded_length
encode_nix_base32 [] = []
encode_nix_base32 (b ∷ bs) = encode_from (b ∷ bs) (encoded_length (b ∷ bs))
