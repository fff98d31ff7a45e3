-- ===== src/Tests/Base64.antt =====
-- The base64 of RFC 4648 with its padding, for the runs.
use nix_project_cache.Prelude.{
  ℕ, ◌+◌, ◌*◌, ◌/◌, ◌%◌, ◌-◌, ◌<◌, ◌≡◌, refl, ap, ap₂, inl, inr, subst, Bool, true, false, ◌&&◌,
  List, [], ◌∷◌, Result, ok, err, ◌>>=◌, ◌>>◌, guard, guard-ok, bind-ok, ok_inj, Bool-cases,
  if◌then◌else◌, ltb, leb, ◌==◌, arith,
}
use nix_project_cache.Prelude.Text.{Text, is_whitespace}
use nix_project_cache.Prelude.Text.Search.{IsWord}
use nix_project_cache.Nix.Base32.Digits.{IsBytes}

spell : ℕ → ℕ
spell d =
    if ltb d 26
    then 65 + d
    else if ltb d 52
    then 71 + d
    else if ltb d 62
    then d - 4
    else if d == 62
    then 43
    else 47

-- 64 if the character is none of the alphabet.
value : ℕ → ℕ
value c =
    if leb 65 c && leb c 90
    then c - 65
    else if leb 97 c && leb c 122
    then c - 71
    else if leb 48 c && leb c 57
    then c + 4
    else if c == 43
    then 62
    else if c == 47
    then 63
    else 64

value-spell : (d : ℕ) → d < 64 → value (spell d) ≡ d
unfolding value spell
value-spell d h = ground arith

spell-ne : (d : ℕ) → d < 64 → (spell d == 61) ≡ false
unfolding spell
spell-ne d h = ground arith

spell-word : (d : ℕ) → is_whitespace (spell d) ≡ false
unfolding spell is_whitespace
spell-word d = ground arith

pub encode : List ℕ → Text
encode [] = []
encode (a ∷ []) = spell (a / 4) ∷ spell (a % 4 * 16) ∷ 61 ∷ 61 ∷ []
encode (a ∷ b ∷ []) = spell (a / 4) ∷ spell (a % 4 * 16 + b / 16) ∷ spell (b % 16 * 4) ∷ 61 ∷ []
encode (a ∷ b ∷ c ∷ rest) =
    spell (a / 4)
    ∷ spell (a % 4 * 16 + b / 16)
    ∷ spell (b % 16 * 4 + c / 64)
    ∷ spell (c % 64)
    ∷ encode rest

is_known : ℕ → Bool
is_known c = ltb (value c) 64

-- The last four characters, when they end in padding.
padded : Text → ℕ → ℕ → ℕ → Result Text (List ℕ)
padded t w x y =
    if y == 61
    then (do
      guard (is_known w && (is_known x && (value x % 16 == 0))) t
      ok ((value w * 4 + value x / 16) ∷ []))
    else (do
      guard (is_known w && (is_known x && (is_known y && (value y % 4 == 0)))) t
      ok ((value w * 4 + value x / 16) ∷ (value x % 16 * 16 + value y / 4) ∷ []))

abbrev is_nil : Text → Bool
is_nil [] = true
is_nil (c ∷ t) = false

triple : ℕ → ℕ → ℕ → ℕ → List ℕ → List ℕ
triple w x y z others =
    (value w * 4 + value x / 16)
    ∷ (value x % 16 * 16 + value y / 4)
    ∷ (value y % 4 * 64 + value z)
    ∷ others

-- The error is the text that is left.
pub decode : Text → Result Text (List ℕ)
decode [] = ok []
decode (w ∷ []) = err (w ∷ [])
decode (w ∷ x ∷ []) = err (w ∷ x ∷ [])
decode (w ∷ x ∷ y ∷ []) = err (w ∷ x ∷ y ∷ [])
decode (w ∷ x ∷ y ∷ z ∷ rest) =
    let others = decode rest in
    if z == 61 then (do guard (is_nil rest) rest; padded (w ∷ x ∷ y ∷ z ∷ rest) w x y) else (do
      guard (is_known w && (is_known x && (is_known y && is_known z))) (w ∷ x ∷ y ∷ z ∷ rest)
      bs ← others
      ok (triple w x y z bs))

known-spell : (d : ℕ) → d < 64 → is_known (spell d) ≡ true
unfolding is_known
known-spell d h = rw (value-spell d h) (ground arith)

pub decode-encode : (bs : List ℕ) → IsBytes bs → decode (encode bs) ≡ ok bs
unfolding decode encode padded triple
decode-encode [] h = refl
decode-encode (a ∷ []) h =
    let p : a / 4 < 64 = omega (arith, h.0) in
    let q : a % 4 * 16 < 64 = omega arith in
    let r : (a % 4 * 16 % 16 == 0) ≡ true = ground arith in
    rw
      (
        known-spell (a / 4) p,
        known-spell (a % 4 * 16) q,
        value-spell (a / 4) p,
        value-spell (a % 4 * 16) q,
        r,
      )
      (ap (λ x. ok (x ∷ [])) (omega (arith, h.0)))
decode-encode (a ∷ b ∷ []) h =
    let p : a / 4 < 64 = omega (arith, h.0) in
    let q : a % 4 * 16 + b / 16 < 64 = omega (arith, h.1.0) in
    let r : b % 16 * 4 < 64 = omega arith in
    let t : (b % 16 * 4 % 4 == 0) ≡ true = ground arith in
    rw
      (
        spell-ne (b % 16 * 4) r,
        known-spell (a / 4) p,
        known-spell (a % 4 * 16 + b / 16) q,
        known-spell (b % 16 * 4) r,
        value-spell (a / 4) p,
        value-spell (a % 4 * 16 + b / 16) q,
        value-spell (b % 16 * 4) r,
        t,
      )
      (ap₂ (λ x y. ok (x ∷ y ∷ [])) (omega (arith, h.0, h.1.0)) (omega (arith, h.0, h.1.0)))
decode-encode (a ∷ b ∷ c ∷ rest) h =
    let p : a / 4 < 64 = omega (arith, h.0) in
    let q : a % 4 * 16 + b / 16 < 64 = omega (arith, h.1.0) in
    let r : b % 16 * 4 + c / 64 < 64 = omega (arith, h.1.1.0) in
    let t : c % 64 < 64 = omega arith in
    rw
      (
        spell-ne (c % 64) t,
        known-spell (a / 4) p,
        known-spell (a % 4 * 16 + b / 16) q,
        known-spell (b % 16 * 4 + c / 64) r,
        known-spell (c % 64) t,
        value-spell (a / 4) p,
        value-spell (a % 4 * 16 + b / 16) q,
        value-spell (b % 16 * 4 + c / 64) r,
        value-spell (c % 64) t,
        decode-encode rest h.1.1.1,
      )
      (ap₂ (λ x (l : List ℕ). ok (x ∷ l)) (omega (arith, h.0, h.1.0))
        (ap₂ (λ y z. y ∷ z ∷ rest) (omega (arith, h.1.0, h.1.1.0)) (omega (arith, h.1.1.0))))

pub encode-IsWord : (bs : List ℕ) → IsWord (encode bs)
unfolding encode is_whitespace
encode-IsWord [] = tt
encode-IsWord (a ∷ []) = (spell-word (a / 4), (spell-word (a % 4 * 16), (refl, (refl, tt))))
encode-IsWord (a ∷ b ∷ []) =
    (spell-word (a / 4), (spell-word (a % 4 * 16 + b / 16), (spell-word (b % 16 * 4), (refl, tt))))
encode-IsWord (a ∷ b ∷ c ∷ rest) = (
  spell-word (a / 4),
  (
    spell-word (a % 4 * 16 + b / 16),
    (spell-word (b % 16 * 4 + c / 64), (spell-word (c % 64), encode-IsWord rest)),
  ),
)

triple-IsBytes :
    (w x y z : ℕ) (bs : List ℕ)
    → (is_known w && (is_known x && (is_known y && is_known z))) ≡ true
    → IsBytes bs
    → IsBytes (triple w x y z bs)
unfolding triple is_known
triple-IsBytes w x y z bs k h = (ground arith, (ground arith, (ground arith, h)))

first-lt :
    (w x : ℕ) (b : Bool)
    → (is_known w && (is_known x && b)) ≡ true
    → value w * 4 + value x / 16 < 256
unfolding is_known
first-lt w x b k = ground arith

second-lt :
    (w x y : ℕ) (b : Bool)
    → (is_known w && (is_known x && (is_known y && b))) ≡ true
    → value x % 16 * 16 + value y / 4 < 256
unfolding is_known
second-lt w x y b k = ground arith

padded-IsBytes : (t : Text) (w x y : ℕ) (bs : List ℕ) → padded t w x y ≡ ok bs → IsBytes bs
unfolding padded
padded-IsBytes t w x y bs e = elim (Bool-cases (y == 61)) [
  | inl one ↦
      let (u, g, made) =
        bind-ok (guard (is_known w && (is_known x && (value x % 16 == 0))) t) _
          (rw (one, padded) at e) in
      subst IsBytes (ok_inj made) (first-lt w x _ (guard-ok _ t g), tt)
  | inr two ↦
      let (u, g, made) =
        bind-ok (guard (is_known w && (is_known x && (is_known y && (value y % 4 == 0)))) t) _
          (rw (two, padded) at e) in
      subst IsBytes (ok_inj made)
        (first-lt w x _ (guard-ok _ t g), (second-lt w x y _ (guard-ok _ t g), tt))
]

pub decode-IsBytes : (t : Text) (bs : List ℕ) → decode t ≡ ok bs → IsBytes bs
unfolding decode
decode-IsBytes [] bs e = subst IsBytes (ok_inj e) tt
decode-IsBytes (w ∷ []) bs e = cc
decode-IsBytes (w ∷ x ∷ []) bs e = cc
decode-IsBytes (w ∷ x ∷ y ∷ []) bs e = cc
decode-IsBytes (w ∷ x ∷ y ∷ z ∷ rest) bs e = elim (Bool-cases (z == 61)) [
  | inl pad ↦
      let (u, g, e1) =
        bind-ok (guard (is_nil rest) rest) (λ _. padded (w ∷ x ∷ y ∷ z ∷ rest) w x y)
          (rw (pad, decode) at e) in
      padded-IsBytes (w ∷ x ∷ y ∷ z ∷ rest) w x y bs e1
  | inr full ↦
      let (u, g, e1) =
        bind-ok
          (guard (is_known w && (is_known x && (is_known y && is_known z))) (w ∷ x ∷ y ∷ z ∷ rest))
          (λ _. decode rest >>= λ others. ok (triple w x y z others)) (rw (full, decode) at e) in
      let (others, d, made) = bind-ok (decode rest) (λ others. ok (triple w x y z others)) e1 in
      subst IsBytes (ok_inj made) (
        triple-IsBytes w x y z others (guard-ok _ (w ∷ x ∷ y ∷ z ∷ rest) g)
          (decode-IsBytes rest others d))
]
