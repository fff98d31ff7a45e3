-- ===== src/Nix/Base32/Digits.antt =====
-- The digits that `encode_nix_base32` writes are those of the number that the bytes spell.
use nix_project_cache.Prelude.{
  ◌⊎◌, inl, inr, and-split, ℕ, zero, suc, ◌+◌, ◌-◌, ◌*◌, ◌/◌, ◌%◌, ◌^◌, ◌≤◌, ◌<◌, ◌≡◌, refl, ap,
  ◌∙◌, sym, inl, inr, Bool, true, ◌&&◌, not, List, [], ◌∷◌, arith, ltb, ◌==◌, if◌then◌else◌,
  Bool-cases, ==_iff, All, length,
}
use native.Mathlib.Numerals.{add-one}
use native.Mathlib.Nat.{
  zero-add, suc-add, mul_assoc, zero-mul, suc-mul, pow-zero, zero-div, pow-succ',
  div-div-eq-div-mul,
}
use nix_project_cache.Nix.Base32.{byte_at, digit_at}
use Prim.Native.Nat.{bit_or, bit_and}

-- The bytes as one number, the first byte the lowest.
abbrev pub le_value : List ℕ → ℕ
le_value [] = 0
le_value (b ∷ bs) = b + 256 * le_value bs

abbrev pub IsBytes : List ℕ → Type 0
IsBytes = All (λ b. b < 256)

abbrev rest_from : List ℕ → ℕ → List ℕ
rest_from bs zero = bs
rest_from [] (suc i) = []
rest_from (b ∷ bs) (suc i) = rest_from bs i

le_value-rest_from :
    (bs : List ℕ) (i : ℕ) → IsBytes bs → le_value bs / 256 ^ i ≡ le_value (rest_from bs i)
le_value-rest_from bs zero h = omega arith
le_value-rest_from [] (suc i) h = zero-div _
le_value-rest_from (b ∷ bs) (suc i) h =
    let shift : (b + 256 * le_value bs) / 256 ≡ le_value bs = omega arith in
    ap (λ p. le_value (b ∷ bs) / p) (pow-succ' 256 i)
    ∙ sym (div-div-eq-div-mul (le_value (b ∷ bs)) 256 (256 ^ i))
    ∙ ap (λ v. v / 256 ^ i) shift
    ∙ le_value-rest_from bs i h.1

-- The two bytes that a round reads, and the rest.
le_value_window :
    (bs : List ℕ) (i : ℕ)
    → le_value (rest_from bs i)
      ≡ byte_at bs i + 256 * (byte_at bs (suc i) + 256 * le_value (rest_from bs (suc (suc i))))
le_value_window [] zero = omega arith
le_value_window [] (suc i) = omega arith
le_value_window (b ∷ []) zero = omega arith
le_value_window (b ∷ c ∷ bs) zero = omega arith
le_value_window (b ∷ bs) (suc i) = le_value_window bs i

lt_or_eq : (m n : ℕ) → m < suc n → (m < n) ⊎ (m ≡ n)
lt_or_eq m n h = omega (arith, h)

-- A test that every number under a bound passes.
unfoldable pub passes_under : (ℕ → Bool) → ℕ → Bool
passes_under test zero = true
passes_under test (suc bound) = passes_under test bound && test bound

pub passes_at :
    (test : ℕ → Bool) (bound : ℕ) {value : ℕ}
    → value < bound
    → passes_under test bound ≡ true
    → test value ≡ true
unfolding passes_under
passes_at test zero small every = absurd (omega arith)
passes_at test (suc bound) {value} small every =
    let (before, last) = and-split (passes_under test bound) (test bound) every in
    elim (lt_or_eq value bound small) [
      | inl below ↦ passes_at test bound below before
      | inr same ↦ ap test same ∙ last
    ]

-- The two parts of a round share no bit, so joining them by `|` adds them: checked at every value.
abbrev joins : ℕ → ℕ → ℕ → Bool
joins j u v = bit_and (bit_or u (v * 2 ^ (8 - j))) 0x1f == (u + v * 2 ^ (8 - j)) % 32

join_table :
    passes_under (λ j. passes_under (λ u. passes_under (λ v. joins j u v) (2 ^ j)) (2 ^ (8 - j))) 8
    ≡ true
unfolding passes_under
join_table = refl

mask_table : passes_under (λ u. bit_and u 0x1f == u % 32) 256 ≡ true
unfolding passes_under
mask_table = refl

join_lem :
    (j u v : ℕ)
    → j < 8
    → u < 2 ^ (8 - j)
    → v < 2 ^ j
    → bit_and (bit_or u (v * 2 ^ (8 - j))) 0x1f ≡ (u + v * 2 ^ (8 - j)) % 32
join_lem j u v hj hu hv =
    let row = passes_at _ 8 hj join_table in
    let cell = passes_at _ (2 ^ (8 - j)) hu row in (==_iff _ _).0 (passes_at _ (2 ^ j) hv cell)

mask_lem : (u : ℕ) → u < 256 → bit_and u 0x1f ≡ u % 32
mask_lem u h = (==_iff _ _).0 (passes_at _ 256 h mask_table)

-- Five bits from bit `j` on, of a byte, the next byte and the rest.
window :
    (j x y z : ℕ)
    → j < 8
    → x < 256
    → (x / 2 ^ j + y % 2 ^ j * 2 ^ (8 - j)) % 32 ≡ (x + 256 * (y + 256 * z)) / 2 ^ j % 32
window zero x y z h k = omega arith
window (suc zero) x y z h k = omega arith
window (suc (suc zero)) x y z h k = omega arith
window (suc (suc (suc zero))) x y z h k = omega arith
window (suc (suc (suc (suc zero)))) x y z h k = omega arith
window (suc (suc (suc (suc (suc zero))))) x y z h k = omega arith
window (suc (suc (suc (suc (suc (suc zero)))))) x y z h k = omega arith
window (suc (suc (suc (suc (suc (suc (suc zero))))))) x y z h k = omega arith
window (suc (suc (suc (suc (suc (suc (suc (suc j)))))))) x y z h k = absurd (omega arith)

-- What a round shifts out of the next byte.
carry : (j y : ℕ) → j < 8 → 0 < j → (y * 2 ^ (8 - j)) % 256 ≡ y % 2 ^ j * 2 ^ (8 - j)
carry zero y h p = absurd (omega arith)
carry (suc zero) y h p = omega arith
carry (suc (suc zero)) y h p = omega arith
carry (suc (suc (suc zero))) y h p = omega arith
carry (suc (suc (suc (suc zero)))) y h p = omega arith
carry (suc (suc (suc (suc (suc zero))))) y h p = omega arith
carry (suc (suc (suc (suc (suc (suc zero)))))) y h p = omega arith
carry (suc (suc (suc (suc (suc (suc (suc zero))))))) y h p = omega arith
carry (suc (suc (suc (suc (suc (suc (suc (suc j)))))))) y h p = absurd (omega arith)

shifted_bound :
    (j x : ℕ) → j < 8 → x < 256 → (x / 2 ^ j < 2 ^ (8 - j)) × (0 < 2 ^ j) × (x / 2 ^ j < 256)
shifted_bound zero x h k = omega arith
shifted_bound (suc zero) x h k = omega arith
shifted_bound (suc (suc zero)) x h k = omega arith
shifted_bound (suc (suc (suc zero))) x h k = omega arith
shifted_bound (suc (suc (suc (suc zero)))) x h k = omega arith
shifted_bound (suc (suc (suc (suc (suc zero))))) x h k = omega arith
shifted_bound (suc (suc (suc (suc (suc (suc zero)))))) x h k = omega arith
shifted_bound (suc (suc (suc (suc (suc (suc (suc zero))))))) x h k = omega arith
shifted_bound (suc (suc (suc (suc (suc (suc (suc (suc j)))))))) x h k = absurd (omega arith)

byte_at-lt : (bs : List ℕ) (i : ℕ) → IsBytes bs → byte_at bs i < 256
byte_at-lt [] i h = omega arith
byte_at-lt (b ∷ bs) zero h = h.0
byte_at-lt (b ∷ bs) (suc i) h = byte_at-lt bs i h.1

byte_at-out : (bs : List ℕ) (i : ℕ) → length bs ≤ i → byte_at bs i ≡ 0
byte_at-out [] i h = refl
byte_at-out (b ∷ bs) zero h = absurd (omega arith)
byte_at-out (b ∷ bs) (suc i) h = byte_at-out bs i (omega arith)

-- A read under its guard is a read.
guarded :
    (bs : List ℕ) (i : ℕ) (f : ℕ → ℕ)
    → f 0 ≡ 0
    → (if ltb i (length bs) then f (byte_at bs i) else 0) ≡ f (byte_at bs i)
guarded bs i f z = elim (Bool-cases (ltb i (length bs))) [
  | inl inside ↦ rw inside
  | inr outside ↦ rw (outside, byte_at-out bs i (ground arith)) (sym z)
]

low_part : (y p : ℕ) → 0 < p → y % p < p
low_part y p h = omega arith

zero_mod : (p : ℕ) → 0 % p ≡ 0
zero_mod p = omega arith

unmasked : (u y j q : ℕ) → u < 256 → y % 2 ^ j ≡ 0 → bit_and u 0x1f ≡ (u + y % 2 ^ j * q) % 32
unmasked u y j q h e = rw e (mask_lem u h ∙ ap (λ t. t % 32) (omega arith))

round : (bs : List ℕ) (i j : ℕ) → ℕ
round bs i j =
    let c = if ltb i (length bs) then byte_at bs i / 2 ^ j else 0 in
    let c' =
      if ltb (i + 1) (length bs) && not (j == 0)
      then bit_or c ((byte_at bs (i + 1) * 2 ^ (8 - j)) % 256)
      else c in
    bit_and c' 0x1f

round-eq :
    (bs : List ℕ) (i j : ℕ)
    → IsBytes bs
    → j < 8
    → round bs i j ≡ (byte_at bs i / 2 ^ j + byte_at bs (suc i) % 2 ^ j * 2 ^ (8 - j)) % 32
unfolding round
round-eq bs i j h k = rw (guarded bs i (λ x. x / 2 ^ j) (zero-div _)) (
    let b = shifted_bound j (byte_at bs i) k (byte_at-lt bs i h) in
    elim (Bool-cases (ltb (i + 1) (length bs))) [
      | inl inside ↦ elim (Bool-cases (j == 0)) [
        | inl aligned ↦
            let none_left : byte_at bs (suc i) % 2 ^ j ≡ 0 =
              rw ((==_iff j 0).0 aligned) (omega arith) in
            rw (inside, aligned) (unmasked _ (byte_at bs (suc i)) j _ b.2 none_left)
        | inr crossing ↦
            rw (inside, crossing, carry j (byte_at bs (i + 1)) k (ground arith))
              (rw add-one (join_lem j _ _ k b.0 (low_part (byte_at bs (suc i)) (2 ^ j) b.1)))
      ]
      | inr outside ↦
          let none_left : byte_at bs (suc i) % 2 ^ j ≡ 0 =
            rw (byte_at-out bs (suc i) (ground arith)) (zero_mod (2 ^ j)) in
          rw outside (unmasked _ (byte_at bs (suc i)) j _ b.2 none_left)
    ])

pow-add : (a m n : ℕ) → a ^ (m + n) ≡ a ^ m * a ^ n
pow-add a zero n = rw (zero-add, pow-zero) (omega arith)
pow-add a (suc m) n =
    rw (suc-add, pow-succ' a (m + n), pow-add a m n, pow-succ' a m)
      (sym (mul_assoc a (a ^ m) (a ^ n)))

pub pow_pow : (a k n : ℕ) → (a ^ k) ^ n ≡ a ^ (n * k)
pow_pow a k zero = rw (zero-mul, pow-zero, pow-zero)
pow_pow a k (suc n) =
    rw (pow-succ' (a ^ k) n, pow_pow a k n, suc-mul, ← pow-add) (ap (λ m. a ^ m) (omega arith))

-- Round `n` starts at bit `5 n`, which is bit `5 n % 8` of byte `5 n / 8`.
bit_offset : (n : ℕ) → 32 ^ n ≡ 256 ^ (n * 5 / 8) * 2 ^ (n * 5 % 8)
bit_offset n =
    pow_pow 2 5 n
    ∙ ap (λ m. 2 ^ m) (omega arith)
    ∙ pow-add 2 (n * 5 / 8 * 8) (n * 5 % 8)
    ∙ ap (λ p. p * 2 ^ (n * 5 % 8)) (sym (pow_pow 2 8 (n * 5 / 8)))

-- The round computes the digit of weight 32 ^ n of the number that the bytes spell.
pub digit_at-eq : (bs : List ℕ) (n : ℕ) → IsBytes bs → digit_at bs n ≡ le_value bs / 32 ^ n % 32
unfolding digit_at round
digit_at-eq bs n h =
    let i = n * 5 / 8 in
    let j = n * 5 % 8 in
    let aligned : j < 8 = omega arith in
    let x = byte_at bs i in
    let y = byte_at bs (suc i) in
    let z = le_value (rest_from bs (suc (suc i))) in
    round-eq bs i j h aligned
    ∙ window j x y z aligned (byte_at-lt bs i h)
    ∙ ap (λ v. v / 2 ^ j % 32) (sym (le_value_window bs i) ∙ sym (le_value-rest_from bs i h))
    ∙ ap (λ v. v % 32) (div-div-eq-div-mul (le_value bs) (256 ^ i) (2 ^ j))
    ∙ ap (λ p. le_value bs / p % 32) (sym (bit_offset n))
