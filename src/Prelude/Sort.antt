-- ===== src/Prelude/Sort.antt =====
-- `ORDER BY` a key: the rows sorted, equal keys in the order they had.
use mathlib.Core.Logic.{inl, inr}
use mathlib.Core.Bool.{Bool, true, false}
use mathlib.Core.List.{List, [], ◌∷◌, map, Memᴰ}
use mathlib.Core.List.Memᴰ
use mathlib.Core.Path.{◌≡◌, refl, ap, ◌∙◌}
use nix_project_cache.Prelude.Lists.{All}
use nix_project_cache.Prelude.Tests.{if◌then◌else◌, Bool-cases}

module _ {ℓ} {A : Type ℓ} (le : A → A → Bool) where
  insert_by : A → List A → List A
  insert_by x [] = x ∷ []
  insert_by x (y ∷ ys) = let rest = insert_by x ys in if le x y then x ∷ y ∷ ys else y ∷ rest

  unfoldable pub sort_by : List A → List A
  unfolding insert_by
  sort_by [] = []
  sort_by (x ∷ xs) = insert_by x (sort_by xs)

  insert_by-row : {x y : A} (l : List A) → Memᴰ y (insert_by x l) → Memᴰ y (x ∷ l)
  unfolding insert_by
  insert_by-row [] m = m
  insert_by-row {x} {y} (z ∷ l) m = elim (Bool-cases (le x z)) [
    | inl e ↦ rw e at m
    | inr e ↦ elim (Memᴰ.cases_cons (rw e at m)) [
      | inl here ↦ Memᴰ.tail (Memᴰ.head here)
      | inr later ↦ elim (Memᴰ.cases_cons (insert_by-row l later)) [
        | inl first ↦ Memᴰ.head first
        | inr rest ↦ Memᴰ.tail (Memᴰ.tail rest)
      ]
    ]
  ]

  row-insert_by : {x y : A} (l : List A) → Memᴰ y (x ∷ l) → Memᴰ y (insert_by x l)
  unfolding insert_by
  row-insert_by [] m = m
  row-insert_by {x} {y} (z ∷ l) m = elim (Bool-cases (le x z)) [
    | inl e ↦ rw e m
    | inr e ↦ rw e (elim (Memᴰ.cases_cons m) [
      | inl here ↦ Memᴰ.tail (row-insert_by l (Memᴰ.head here))
      | inr rest ↦ elim (Memᴰ.cases_cons rest) [
        | inl first ↦ Memᴰ.head first
        | inr later ↦ Memᴰ.tail (row-insert_by l (Memᴰ.tail later))
      ]
    ])
  ]

  -- The rows of the sorted list are those of the list.
  pub sort_by-row : {x : A} (l : List A) → Memᴰ x (sort_by l) → Memᴰ x l
  unfolding sort_by
  sort_by-row [] m = m
  sort_by-row (y ∷ l) m = elim (Memᴰ.cases_cons (insert_by-row (sort_by l) m)) [
    | inl here ↦ Memᴰ.head here
    | inr later ↦ Memᴰ.tail (sort_by-row l later)
  ]

  pub row-sort_by : {x : A} (l : List A) → Memᴰ x l → Memᴰ x (sort_by l)
  unfolding sort_by
  row-sort_by [] m = m
  row-sort_by (y ∷ l) m = elim (Memᴰ.cases_cons m) [
    | inl here ↦ row-insert_by (sort_by l) (Memᴰ.head here)
    | inr later ↦ row-insert_by (sort_by l) (Memᴰ.tail (row-sort_by l later))
  ]

  -- Each row stands before all that follow it.
  abbrev pub IsSorted : List A → Type ℓ
  IsSorted [] = Unit
  IsSorted (x ∷ xs) = All (λ y. le x y ≡ true) xs × IsSorted xs

  module _ (total : (x y : A) → le x y ≡ false → le y x ≡ true)
      (transitive : (x y z : A) → le x y ≡ true → le y z ≡ true → le x z ≡ true) where
    All-after :
        (x y : A) (l : List A)
        → le x y ≡ true
        → All (λ z. le y z ≡ true) l
        → All (λ z. le x z ≡ true) l
    All-after x y [] e h = tt
    All-after x y (z ∷ l) e h = (transitive x y z e h.0, All-after x y l e h.1)

    insert_by-All :
        (z x : A) (l : List A)
        → le z x ≡ true
        → All (λ y. le z y ≡ true) l
        → All (λ y. le z y ≡ true) (insert_by x l)
    unfolding insert_by
    insert_by-All z x [] e h = (e, tt)
    insert_by-All z x (y ∷ l) e h = elim (Bool-cases (le x y)) [
      | inl first ↦ rw first (e, h)
      | inr later ↦ rw later (h.0, insert_by-All z x l e h.1)
    ]

    insert_by-IsSorted : (x : A) (l : List A) → IsSorted l → IsSorted (insert_by x l)
    unfolding insert_by
    insert_by-IsSorted x [] h = (tt, tt)
    insert_by-IsSorted x (y ∷ l) h = elim (Bool-cases (le x y)) [
      | inl first ↦ rw first ((first, All-after x y l first h.0), h)
      | inr later ↦ rw later (insert_by-All y x l (total x y later) h.0, insert_by-IsSorted x l h.1)
    ]

    pub sort_by-IsSorted : (l : List A) → IsSorted (sort_by l)
    unfolding sort_by
    sort_by-IsSorted [] = tt
    sort_by-IsSorted (x ∷ l) = insert_by-IsSorted x (sort_by l) (sort_by-IsSorted l)

module _ {ℓ κ} {A : Type ℓ} {B : Type κ} (le : A → A → Bool) (ge : B → B → Bool) (f : A → B)
    (agree : (x y : A) → ge (f x) (f y) ≡ le x y) where
  insert_by-map : (x : A) (l : List A) → insert_by ge (f x) (map f l) ≡ map f (insert_by le x l)
  unfolding insert_by
  insert_by-map x [] = refl
  insert_by-map x (y ∷ l) = elim (Bool-cases (le x y)) [
    | inl e ↦ rw (agree x y, e) refl
    | inr e ↦ rw (agree x y, e) (ap (λ r. f y ∷ r) (insert_by-map x l))
  ]

  -- Sorting the image is the image of the sorted list, where the orders agree.
  pub sort_by-map : (l : List A) → sort_by ge (map f l) ≡ map f (sort_by le l)
  unfolding sort_by
  sort_by-map [] = refl
  sort_by-map (x ∷ l) = ap (insert_by ge (f x)) (sort_by-map l) ∙ insert_by-map x (sort_by le l)
