-- ===== src/Prelude/Lists.antt =====
-- Lists measured by native numbers, tests over lists, and the predicate that holds of every item.
use Prim.Native.Nat.{ℕ, suc, ◌+◌}
use mathlib.Core.Path.{◌≡◌, refl, sym, subst}
use mathlib.Core.Bool.{Bool, true, false, ◌&&◌, ◌||◌}
use mathlib.Core.List.{List, [], ◌∷◌, ◌++◌, Memᴰ}
use mathlib.Core.Logic.{◌⊎◌, inl, inr}
use native.Mathlib.Omega.{arith}

module _ {ℓ} {A : Type ℓ} where
  abbrev pub length : List A → ℕ
  length [] = 0
  length (x ∷ xs) = suc (length xs)

  abbrev pub all : (A → Bool) → List A → Bool
  all p [] = true
  all p (x ∷ xs) = p x && all p xs

  abbrev pub any : (A → Bool) → List A → Bool
  any p [] = false
  any p (x ∷ xs) = p x || any p xs

  pub length-append : (xs ys : List A) → length (xs ++ ys) ≡ length xs + length ys
  length-append [] ys = omega arith
  length-append (x ∷ xs) ys = omega (arith, length-append xs ys)

module _ {ℓ κ} {A : Type ℓ} where
  abbrev pub All : (A → Type κ) → List A → Type κ
  All P [] = Unit
  All P (x ∷ xs) = P x × All P xs

  pub All-at : (P : A → Type κ) {a : A} {xs : List A} → All P xs → Memᴰ a xs → P a
  All-at P h (Memᴰ.head e) = subst P (sym e) h.0
  All-at P h (Memᴰ.tail m) = All-at P h.1 m

  pub All-append :
      (P : A → Type κ) (front back : List A) → All P front → All P back → All P (front ++ back)
  All-append P [] back front_holds back_holds = back_holds
  All-append P (x ∷ front) back front_holds back_holds =
      (front_holds.0, All-append P front back front_holds.1 back_holds)

  pub All-left : (P : A → Type κ) (xs ys : List A) → All P (xs ++ ys) → All P xs
  All-left P [] ys h = tt
  All-left P (x ∷ xs) ys h = (h.0, All-left P xs ys h.1)

  pub All-right : (P : A → Type κ) (xs ys : List A) → All P (xs ++ ys) → All P ys
  All-right P [] ys h = h
  All-right P (x ∷ xs) ys h = All-right P xs ys h.1

-- To split on a computed list and keep the equation.
pub List-cases {ℓ} :
    {A : Type ℓ} (l : List A) → (l ≡ []) ⊎ ((n : A) × (more : List A) × (l ≡ n ∷ more))
List-cases [] = inl refl
List-cases (n ∷ more) = inr (n, more, refl)

pub any-append {ℓ} :
    {A : Type ℓ} (p : A → Bool) (l m : List A) → any p (l ++ m) ≡ (any p l || any p m)
any-append p [] m = refl
any-append p (x ∷ l) m = or_assoc (p x) (any p l) (any p m) (any-append p l m)
  where
    or_assoc : (a b c : Bool) {d : Bool} → d ≡ (b || c) → (a || d) ≡ ((a || b) || c)
    or_assoc a b c h = ground arith
