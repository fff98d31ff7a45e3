-- ===== src/Prelude/Rows.antt =====
-- Tables as lists of rows: the rows that pass a test, and texts without repetition.
use mathlib.Core.Path.{◌≡◌, refl, ap, ◌∙◌, sym}
use mathlib.Core.Logic.{inl, inr}
use mathlib.Core.Bool.{Bool, true, not}
use mathlib.Core.List.{List, [], ◌∷◌, ◌++◌, map, Memᴰ}
use mathlib.Core.List.Memᴰ
use Prim.Native.Nat.{◌+◌}
use native.Mathlib.Omega.{arith}
use nix_project_cache.Prelude.Tests.{Bool-cases, if◌then◌else◌}
use nix_project_cache.Prelude.Lists.{length, any}
use nix_project_cache.Prelude.Text.{Text, text_eq, text_eq_iff}

abbrev pub select {ℓ} : {A : Type ℓ} → (A → Bool) → List A → List A
select p [] = []
select p (x ∷ xs) = if p x then x ∷ select p xs else select p xs

abbrev pub is_in : Text → List Text → Bool
is_in x l = any (text_eq x) l

-- `Vec::dedup`: of neighbours that are equal the first is kept.
unfoldable pub dedup : List Text → List Text
dedup [] = []
dedup (x ∷ []) = x ∷ []
dedup (x ∷ y ∷ l) = if text_eq x y then dedup (y ∷ l) else x ∷ dedup (y ∷ l)

module _ {ℓ} {A : Type ℓ} (p : A → Bool) where
  -- A test that some row passes has a row that passes.
  pub any-row : (l : List A) → any p l ≡ true → (x : A) × Memᴰ x l × (p x ≡ true)
  any-row [] h = cc
  any-row (x ∷ l) h = elim (Bool-cases (p x)) [
    | inl here ↦ (x, Memᴰ.head refl, here)
    | inr other ↦ let (y, m, passes) = any-row l (rw other at h) in (y, Memᴰ.tail m, passes)
  ]

  pub row-any : {x : A} {l : List A} → Memᴰ x l → p x ≡ true → any p l ≡ true
  row-any {x} (Memᴰ.head {x = y} {xs = l} e) h = let here : p y ≡ true = ap p (sym e) ∙ h in rw here
  row-any {x} (Memᴰ.tail {x = y} m) h =
      let rest = row-any m h in
      elim (Bool-cases (p y)) [ inl here ↦ rw here | inr other ↦ rw (other, rest) ]

  pub row-select : {x : A} {l : List A} → Memᴰ x l → p x ≡ true → Memᴰ x (select p l)
  row-select (Memᴰ.head {x = y} {xs = l} e) h =
      let here : p y ≡ true = ap p (sym e) ∙ h in rw here (Memᴰ.head e)
  row-select (Memᴰ.tail {x = y} {xs = l} m) h =
      let rest = row-select m h in
      elim (Bool-cases (p y)) [ inl here ↦ rw here (Memᴰ.tail rest) | inr other ↦ rw other rest ]

  pub select-row : {x : A} (l : List A) → Memᴰ x (select p l) → Memᴰ x l × (p x ≡ true)
  select-row [] m = absurd (Memᴰ.not-nil m)
  select-row {x} (y ∷ l) m = elim (Bool-cases (p y)) [
    | inl here ↦ elim (Memᴰ.cases_cons (rw here at m)) [
      | inl e ↦ (Memᴰ.head e, ap p e ∙ here)
      | inr n ↦ let (row, passes) = select-row l n in (Memᴰ.tail row, passes)
    ]
    | inr other ↦ let (row, passes) = select-row l (rw other at m) in (Memᴰ.tail row, passes)
  ]

  pub length-select :
      (l : List A) → length (select p l) + length (select (λ x. not (p x)) l) ≡ length l
  length-select [] = refl
  length-select (x ∷ l) =
      let rest = length-select l in
      elim (Bool-cases (p x)) [
        | inl here ↦ rw here (omega (arith, rest))
        | inr other ↦ rw other (omega (arith, rest))
      ]

text_eq-any : (p : Text → Bool) (x y : Text) → text_eq x y ≡ true → p x ≡ p y
text_eq-any p x y e = ap p ((text_eq_iff x y).0 e)

-- Leaving out repetitions keeps what some text of the list passes.
pub any-dedup : (p : Text → Bool) (l : List Text) → any p (dedup l) ≡ any p l
unfolding dedup
any-dedup p [] = refl
any-dedup p (x ∷ []) = refl
any-dedup p (x ∷ y ∷ l) = ground (arith, any-dedup p (y ∷ l), text_eq-any p x y)

module _ {ℓ} {A : Type ℓ} (p : A → Bool) where
  pub select-append : (l m : List A) → select p (l ++ m) ≡ select p l ++ select p m
  select-append [] m = refl
  select-append (x ∷ l) m = elim (Bool-cases (p x)) [
    | inl e ↦ rw e (ap (λ r. x ∷ r) (select-append l m))
    | inr e ↦ rw e (select-append l m)
  ]

  -- No row that fails the test passes it.
  pub select-select-not : (l : List A) → select p (select (λ x. not (p x)) l) ≡ []
  select-select-not [] = refl
  select-select-not (x ∷ l) = elim (Bool-cases (p x)) [
    | inl e ↦ rw e (select-select-not l)
    | inr e ↦ rw e (rw e (select-select-not l))
  ]

  pub select-map {κ} :
      {B : Type κ} (f : B → A) (l : List B)
      → ((x : B) → p (f x) ≡ true)
      → select p (map f l) ≡ map f l
  select-map f [] h = refl
  select-map f (x ∷ l) h = rw (h x) (ap (λ r. f x ∷ r) (select-map f l h))
