-- ===== src/Nix/StoreDir.antt =====
-- `StoreDir` of crates/depot-core/src/nix.rs: the store directory, and the paths below it.
use nix_project_cache.Prelude.{
  ℕ, ◌≡◌, refl, ap, ◌∙◌, sym, subst, ◌↔◌, ◌⊎◌, ◌≢◌, inl, inr, Bool, true, false, not, Option, none,
  some, [], ◌∷◌, ◌++◌, arith, ◌==◌, if◌then◌else◌, Bool-cases, Option-cases, Result, ok, guard,
  guard-ok, ◌>>◌,
}
use nix_project_cache.Prelude.Text.{
  Text, text, text_eq, text_eq_iff, text_eq_refl, text_eq_extended,
}
use nix_project_cache.Prelude.Text.Search.{
  strip_prefix, strip_prefix-append, strip_prefix-some, starts_with, trim_start_matches,
}
use mathlib.Core.List.{reverse, reverse-cons, reverse-reverse, reverse-append}
use mathlib.Core.Option

pub data StoreDirError : Type 0 where
  empty : StoreDirError
  not_absolute : Text → StoreDirError

pub record StoreDir : Type 0 where
  pub path : Text

-- The loop of `new` over the text from its end: `pop` while there are two items and the last is "/".
pop_slashes : Text → Text
pop_slashes (c ∷ d ∷ s) = if c == b'/' then pop_slashes (d ∷ s) else c ∷ d ∷ s
pop_slashes s = s

abbrev is_empty : Text → Bool
is_empty [] = true
is_empty (c ∷ s) = false

unfoldable pub new : Text → Result StoreDirError StoreDir
unfolding strip_prefix pop_slashes
new path = do
  guard (not (is_empty path)) empty
  guard (starts_with (text "/") path) (not_absolute path)
  ok (record { path = reverse (pop_slashes (reverse path)) })

unfoldable pub contains_path : StoreDir → Text → Bool
unfolding strip_prefix text_eq
contains_path d path = if text_eq path d.path then true else elim (strip_prefix d.path path) [
  | none ↦ false
  | some suffix ↦ starts_with (text "/") suffix
]

unfoldable pub relative_path : StoreDir → Text → Option Text
unfolding strip_prefix text_eq Option.bind
relative_path d path =
    if text_eq path d.path
    then some []
    else Option.bind (strip_prefix d.path path) (strip_prefix (text "/"))

unfoldable pub display_path : StoreDir → Text → Text
unfolding relative_path
display_path d path = Option.get_or (relative_path d path) path

unfoldable pub expand_display_path : StoreDir → Text → Text
unfolding contains_path trim_start_matches
expand_display_path d value =
    if contains_path d value then value else d.path ++ b'/' ∷ trim_start_matches b'/' value

-- A path is inside a store directory if it is the directory, or goes on from it with a slash. Inside the root
-- are then only the root and the paths that begin with two slashes.
abbrev pub IsInside : StoreDir → Text → Type 0
IsInside d path = (path ≡ d.path) ⊎ ((rest : Text) × (path ≡ d.path ++ b'/' ∷ rest))

starts_with_slash : (s : Text) → starts_with (text "/") s ≡ true → (r : Text) × (s ≡ b'/' ∷ r)
unfolding strip_prefix
starts_with_slash [] h = cc
starts_with_slash (c ∷ s) h = (s, ground arith)

contains_path_sound : (d : StoreDir) (path : Text) → contains_path d path ≡ true → IsInside d path
unfolding contains_path
contains_path_sound d path h = elim (Bool-cases (text_eq path d.path)) [
  | inl e ↦ inl ((text_eq_iff path d.path).0 e)
  | inr e ↦ elim (Option-cases (strip_prefix d.path path)) [
    | inl missing ↦ absurd (ground arith)
    | inr (suffix, found) ↦
        let slashed : starts_with (text "/") suffix ≡ true = ground arith in
        let (rest, e') = starts_with_slash suffix slashed in
        inr (rest, strip_prefix-some d.path path found ∙ ap (λ t. d.path ++ t) e')
  ]
]

contains_path-append : (d : StoreDir) (rest : Text) → contains_path d (d.path ++ b'/' ∷ rest) ≡ true
unfolding contains_path
contains_path-append d rest = elim (Bool-cases (text_eq (d.path ++ b'/' ∷ rest) d.path)) [
  | inl e ↦ rw e
  | inr e ↦ rw (e, strip_prefix-append d.path (b'/' ∷ rest))
]

inside_contains : (d : StoreDir) (path : Text) → IsInside d path → contains_path d path ≡ true
unfolding contains_path
inside_contains d path (inl e) = rw (e, text_eq_refl d.path, contains_path)
inside_contains d path (inr (rest, e)) = rw e (contains_path-append d rest)

-- `contains_path` answers true exactly for the paths inside the store directory.
pub contains_path_iff :
    (d : StoreDir) (path : Text) → (contains_path d path ≡ true) ↔ IsInside d path
contains_path_iff d path = (contains_path_sound d path, inside_contains d path)

starts_absolute :
    (p : Text) {u : Unit {0}}
    → guard (starts_with (text "/") p) (not_absolute p) ≡ ok u
    → (r : Text) × (p ≡ b'/' ∷ r)
starts_absolute p h = starts_with_slash p (guard-ok (starts_with (text "/") p) (not_absolute p) h)

-- A path is absolute and has no trailing slash, unless it is the root.
abbrev pub IsNormal : Text → Type 0
IsNormal p = ((r : Text) × (p ≡ b'/' ∷ r)) × ((r : Text) → p ≡ r ++ b'/' ∷ [] → p ≡ text "/")

pop_slashes_head : (s : Text) → (r : Text) → pop_slashes s ≡ b'/' ∷ r → r ≡ []
unfolding pop_slashes
pop_slashes_head [] r h = cc
pop_slashes_head (c ∷ []) r h = cc
pop_slashes_head (c ∷ d ∷ s) r h = ground (arith, pop_slashes_head (d ∷ s) r)

pop_slashes_last : (s : Text) (c : ℕ) → (r : Text) × (pop_slashes (s ++ c ∷ []) ≡ r ++ c ∷ [])
unfolding pop_slashes
pop_slashes_last [] c = ([], refl)
pop_slashes_last (x ∷ []) c = elim (Bool-cases (x == b'/')) [
  | inl e ↦ ([], rw e)
  | inr e ↦ (x ∷ [], rw e)
]
pop_slashes_last (x ∷ y ∷ s) c = elim (Bool-cases (x == b'/')) [
  | inl e ↦ rw e (pop_slashes_last (y ∷ s) c)
  | inr e ↦ (x ∷ y ∷ s, rw e)
]

popped-IsNormal : (s : Text) → IsNormal (reverse (pop_slashes (reverse (b'/' ∷ s))))
popped-IsNormal s =
    let (r, e) = pop_slashes_last (reverse s) b'/' in
    let whole : pop_slashes (reverse (b'/' ∷ s)) ≡ r ++ b'/' ∷ [] = rw (reverse-cons) e in
    (
      (reverse r, ap reverse whole ∙ reverse-append r (b'/' ∷ [])),
      λ t trailing.
          let last : pop_slashes (reverse (b'/' ∷ s)) ≡ b'/' ∷ reverse t =
            sym (reverse-reverse _) ∙ ap reverse trailing ∙ reverse-append t (b'/' ∷ []) in
          ap reverse (last ∙ ap (λ x. b'/' ∷ x) (pop_slashes_head _ _ last)),
    )

-- A directory that `new` accepts is normal: the path is absolute and without trailing slashes.
pub new-IsNormal : (path : Text) {d : StoreDir} → new path ≡ ok d → IsNormal d.path
unfolding new
new-IsNormal [] h = cc
new-IsNormal (c ∷ s) {d} h =
    let first : c ≡ b'/' = ground arith in
    let path_eq : reverse (pop_slashes (reverse (c ∷ s))) ≡ d.path = ground arith in
    subst IsNormal path_eq (
      subst (λ x. IsNormal (reverse (pop_slashes (reverse (x ∷ s))))) (sym first)
        (popped-IsNormal s))

heads_eq : {c b : ℕ} {s r : Text} → ◌≡◌ {A = Text} (c ∷ s) (b ∷ r) → c ≡ b
heads_eq h = cc

not_inside :
    (d : StoreDir) (c : ℕ) (s : Text) → IsNormal d.path → c ≢ b'/' → contains_path d (c ∷ s) ≡ false
not_inside d c s n h = elim (Bool-cases (contains_path d (c ∷ s))) [
  | inl inside ↦ elim (contains_path_sound d (c ∷ s) inside) [
    | inl e ↦ absurd (h (heads_eq (e ∙ n.0.1)))
    | inr (rest, e) ↦ absurd (h (heads_eq (e ∙ ap (λ p. p ++ b'/' ∷ rest) n.0.1)))
  ]
  | inr outside ↦ outside
]

trim_none : (c : ℕ) (s : Text) → c ≢ b'/' → trim_start_matches b'/' (c ∷ s) ≡ c ∷ s
unfolding trim_start_matches
trim_none c s h = ground arith

display_below : (d : StoreDir) (rest : Text) → display_path d (d.path ++ b'/' ∷ rest) ≡ rest
unfolding display_path
display_below d rest =
    rw (text_eq_extended d.path b'/' rest, strip_prefix-append d.path (b'/' ∷ rest)) refl

-- Under a normal store directory, a path whose part below it does not start with a slash is printed
-- by that part, and read back from it.
pub expand_display_path-display_path :
    (d : StoreDir) (c : ℕ) (s : Text)
    → IsNormal d.path
    → c ≢ b'/'
    → (display_path d (d.path ++ b'/' ∷ c ∷ s) ≡ c ∷ s)
      × (expand_display_path d (display_path d (d.path ++ b'/' ∷ c ∷ s)) ≡ d.path ++ b'/' ∷ c ∷ s)
unfolding expand_display_path
expand_display_path-display_path d c s n h = (
  display_below d (c ∷ s),
  rw (display_below d (c ∷ s)) (rw (not_inside d c s n h, trim_none c s h) refl),
)
