-- ===== src/Prelude/Text/Order.antt =====
-- The order of `str` and `sort_unstable` on texts. Equal texts cannot be told apart, so the result
-- of a sort is fixed by its input; insertion sort computes it.
use mathlib.Core.Path.{◌≡◌, refl, ap, ◌∙◌}
use mathlib.Core.Logic.{inl, inr, ∥∥₁_elim}
use mathlib.Core.Bool.{Bool, true, false, ◌||◌}
use mathlib.Core.List.{List, [], ◌∷◌, Perm, Permᴰ}
use mathlib.Core.List.Perm
use native.Mathlib.Omega.{arith}
use nix_project_cache.Prelude.Tests.{ltb, ◌==◌, if◌then◌else◌, Bool-cases}
use nix_project_cache.Prelude.Lists.{All, any}
use nix_project_cache.Prelude.Text.{Text}

unfoldable pub text_leb : Text → Text → Bool
text_leb [] t = true
text_leb (a ∷ s) [] = false
text_leb (a ∷ s) (b ∷ t) = if a == b then text_leb s t else ltb a b

pub text_leb_total : (s t : Text) → text_leb s t ≡ false → text_leb t s ≡ true
unfolding text_leb
text_leb_total [] t h = cc
text_leb_total (a ∷ s) [] h = refl
text_leb_total (a ∷ s) (b ∷ t) h = ground (arith, text_leb_total s t)

pub text_leb_antisymm : (s t : Text) → text_leb s t ≡ true → text_leb t s ≡ true → s ≡ t
unfolding text_leb
text_leb_antisymm [] [] h k = refl
text_leb_antisymm [] (b ∷ t) h k = cc
text_leb_antisymm (a ∷ s) [] h k = cc
text_leb_antisymm (a ∷ s) (b ∷ t) h k = ground (arith, text_leb_antisymm s t)

pub text_leb_trans :
    (s t u : Text) → text_leb s t ≡ true → text_leb t u ≡ true → text_leb s u ≡ true
unfolding text_leb
text_leb_trans [] t u h k = refl
text_leb_trans (a ∷ s) [] u h k = cc
text_leb_trans (a ∷ s) (b ∷ t) [] h k = cc
text_leb_trans (a ∷ s) (b ∷ t) (c ∷ u) h k = ground (arith, text_leb_trans s t u)

insert : Text → List Text → List Text
insert x [] = x ∷ []
insert x (y ∷ ys) = if text_leb x y then x ∷ y ∷ ys else y ∷ insert x ys

unfoldable pub sort : List Text → List Text
unfolding insert text_leb
sort [] = []
sort (x ∷ xs) = insert x (sort xs)

insert_comm : (x y : Text) (l : List Text) → insert x (insert y l) ≡ insert y (insert x l)
unfolding insert
insert_comm x y [] = ground (arith, text_leb_total x y, text_leb_total y x, text_leb_antisymm x y)
insert_comm x y (z ∷ l) = ground (
  arith,
  text_leb_total x y,
  text_leb_total y x,
  text_leb_antisymm x y,
  text_leb_trans x y z,
  text_leb_trans y x z,
  insert_comm x y l,
)

sort-Permᴰ : {xs ys : List Text} → Permᴰ xs ys → sort xs ≡ sort ys
unfolding sort
sort-Permᴰ Permᴰ.nil = refl
sort-Permᴰ (Permᴰ.cons e p) = cc (sort-Permᴰ p)
sort-Permᴰ (Permᴰ.swap {a} {b} {l} e f) = cc (insert_comm a b (sort l))
sort-Permᴰ (Permᴰ.trans p q) = sort-Permᴰ p ∙ sort-Permᴰ q

texts_set : IsSet (List Text)
texts_set = hlevel

-- A sorted list does not depend on the order of the list that was sorted.
pub sort_eq : {xs ys : List Text} → Perm xs ys → sort xs ≡ sort ys
sort_eq {xs} {ys} p = ∥∥₁_elim p (texts_set (sort xs) (sort ys)) sort-Permᴰ

insert-Perm : (x : Text) (l : List Text) → Perm (insert x l) (x ∷ l)
unfolding insert
insert-Perm x [] = Perm.refl _
insert-Perm x (y ∷ l) = elim (Bool-cases (text_leb x y)) [
  | inl e ↦ rw e (Perm.refl _)
  | inr e ↦ rw e (Perm.trans (Perm.cons y (insert-Perm x l)) (Perm.swap x y l))
]

-- Sorting keeps the texts, each as often.
pub sort-Perm : (l : List Text) → Perm (sort l) l
unfolding sort
sort-Perm [] = Perm.refl _
sort-Perm (x ∷ l) = Perm.trans (insert-Perm x (sort l)) (Perm.cons x (sort-Perm l))

insert-All {ℓ} : (P : Text → Type ℓ) (x : Text) (l : List Text) → P x → All P l → All P (insert x l)
unfolding insert
insert-All P x [] px h = (px, tt)
insert-All P x (y ∷ l) px h = elim (Bool-cases (text_leb x y)) [
  | inl e ↦ rw e (px, h)
  | inr e ↦ rw e (h.0, insert-All P x l px h.1)
]

-- What holds of every text of a list holds of every text of the sorted list.
pub sort-All {ℓ} : (P : Text → Type ℓ) (l : List Text) → All P l → All P (sort l)
unfolding sort
sort-All P [] h = tt
sort-All P (x ∷ l) h = insert-All P x (sort l) h.0 (sort-All P l h.1)

or-swap : (a b c d : Bool) → c ≡ (a || d) → (b || c) ≡ (a || (b || d))
or-swap a b c d h = ground arith

any-insert : (p : Text → Bool) (x : Text) (l : List Text) → any p (insert x l) ≡ (p x || any p l)
unfolding insert
any-insert p x [] = refl
any-insert p x (y ∷ l) = elim (Bool-cases (text_leb x y)) [
  | inl e ↦ rw e refl
  | inr e ↦ rw e (or-swap (p x) (p y) _ (any p l) (any-insert p x l))
]

-- Sorting keeps what some text of the list passes.
pub any-sort : (p : Text → Bool) (l : List Text) → any p (sort l) ≡ any p l
unfolding sort
any-sort p [] = refl
any-sort p (x ∷ l) = any-insert p x (sort l) ∙ ap (λ b. p x || b) (any-sort p l)
