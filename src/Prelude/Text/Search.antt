-- ===== src/Prelude/Text/Search.antt =====
-- The methods of `str` that look for a part of a text, with their laws.
use Prim.Native.Nat.{ℕ}
use mathlib.Core.Path.{◌≡◌, refl, ap, ◌∙◌, subst}
use mathlib.Core.Logic.{◌≢◌, inl, inr}
use mathlib.Core.Bool.{Bool, true, false, ◌||◌}
use mathlib.Core.Option.{Option, none, some}
use mathlib.Core.Option
use mathlib.Core.List.{List, [], ◌∷◌, ◌++◌, append_assoc, append-nil}
use native.Mathlib.Omega.{arith}
use nix_project_cache.Prelude.Tests.{
  ◌==◌, if◌then◌else◌, Bool-cases, Option-cases, ==_refl, ==_iff, some_inj, is_some,
}
use nix_project_cache.Prelude.Lists.{length, All, length-append}
use nix_project_cache.Prelude.Text.{Text, text_eq, text_eq_iff, text_eq_refl, is_whitespace}

-- `s.strip_prefix(p)`, the prefix first.
unfoldable pub strip_prefix : Text → Text → Option Text
strip_prefix [] s = some s
strip_prefix (a ∷ p) [] = none
strip_prefix (a ∷ p) (b ∷ s) = if a == b then strip_prefix p s else none

pub strip_prefix-append : (p s : Text) → strip_prefix p (p ++ s) ≡ some s
unfolding strip_prefix
strip_prefix-append [] s = refl
strip_prefix-append (a ∷ p) s = rw (==_refl a) (strip_prefix-append p s)

pub strip_prefix-some : (p s : Text) {t : Text} → strip_prefix p s ≡ some t → s ≡ p ++ t
unfolding strip_prefix
strip_prefix-some [] s h = cc
strip_prefix-some (a ∷ p) [] h = cc
strip_prefix-some (a ∷ p) (b ∷ s) {t} h = ground (arith, strip_prefix-some p s {t = t})

-- `s.starts_with(p)`.
abbrev pub starts_with : Text → Text → Bool
starts_with p s = is_some (strip_prefix p s)

-- `s.strip_suffix(x)`, the suffix first: the part before the first place where `x` is what is left.
unfoldable pub strip_suffix : Text → Text → Option Text
strip_suffix x [] = if text_eq [] x then some [] else none
strip_suffix x (c ∷ s) =
    if text_eq (c ∷ s) x then some [] else Option.map (λ (r : Text). c ∷ r) (strip_suffix x s)

text_eq_longer : (a : ℕ) (s x : Text) → text_eq (a ∷ s ++ x) x ≡ false
text_eq_longer a s x = elim (Bool-cases (text_eq (a ∷ s ++ x) x)) [
  | inl e ↦
      let same = ap length ((text_eq_iff (a ∷ s ++ x) x).0 e) in
      absurd (omega (arith, same, length-append s x))
  | inr e ↦ e
]

pub strip_suffix-append : (x s : Text) → strip_suffix x (s ++ x) ≡ some s
unfolding strip_suffix
strip_suffix-append [] [] = rw (text_eq_refl [])
strip_suffix-append (a ∷ x) [] = rw (text_eq_refl (a ∷ x))
strip_suffix-append x (c ∷ s) = rw (text_eq_longer c s x) (rw (strip_suffix-append x s))

pub strip_suffix-some : (x s : Text) {t : Text} → strip_suffix x s ≡ some t → s ≡ t ++ x
unfolding strip_suffix
strip_suffix-some x [] {t} h = ground (arith, text_eq_iff [] x)
strip_suffix-some x (c ∷ s) {t} h = elim (Bool-cases (text_eq (c ∷ s) x)) [
  | inl e ↦ ground (arith, text_eq_iff (c ∷ s) x)
  | inr e ↦ elim (Option-cases (strip_suffix x s)) [
    | inl missing ↦ ground arith
    | inr (r, found) ↦ ground (arith, strip_suffix-some x s found)
  ]
]

-- `s.split_once(c)`.
unfoldable pub split_once : ℕ → Text → Option (Text × Text)
split_once c [] = none
split_once c (x ∷ s) =
    if x == c
    then some ([], s)
    else Option.map (λ (p : Text × Text). (x ∷ p.0, p.1)) (split_once c s)

-- No item of the text is `c`.
abbrev pub Lacks : ℕ → Text → Type 0
Lacks c = All (λ x. x ≢ c)

pub split_once-append : (c : ℕ) (a b : Text) → Lacks c a → split_once c (a ++ c ∷ b) ≡ some (a, b)
unfolding split_once
split_once-append c [] b h = rw (==_refl c)
split_once-append c (x ∷ a) b h = ground (arith, split_once-append c a b h.1)

abbrev SplitsAt : ℕ → Text → Text × Text → Type 0
SplitsAt c s p = (s ≡ p.0 ++ c ∷ p.1) × Lacks c p.0

pub split_once-some :
    (c : ℕ) (s : Text) {p : Text × Text}
    → split_once c s ≡ some p
    → (s ≡ p.0 ++ c ∷ p.1) × Lacks c p.0
unfolding split_once
split_once-some c [] h = cc
split_once-some c (x ∷ s) {p} h = elim (Bool-cases (x == c)) [
  | inl here ↦
      let e : ([], s) ≡ p = some_inj (rw here at h) in
      subst (SplitsAt c (x ∷ s)) e (ap (λ y. y ∷ s) ((==_iff x c).0 here), tt)
  | inr other ↦ elim (Option-cases (split_once c s)) [
    | inl missing ↦ ground arith
    | inr (q, found) ↦
        let later = split_once-some c s found in
        let e : (x ∷ q.0, q.1) ≡ p = some_inj (rw (other, found) at h) in
        subst (SplitsAt c (x ∷ s)) e (ap (λ r. x ∷ r) later.0, (ground arith, later.1))
  ]
]

-- The first part of `s.rsplit(c)`: what stands after the last `c`, or all of `s`.
after_last_from : ℕ → Text → Text → Text
after_last_from c best [] = best
after_last_from c best (x ∷ s) = after_last_from c (if x == c then s else best) s

unfoldable pub after_last : ℕ → Text → Text
unfolding after_last_from
after_last c s = after_last_from c s s

after_last_from-Lacks : (c : ℕ) (best s : Text) → Lacks c s → after_last_from c best s ≡ best
unfolding after_last_from
after_last_from-Lacks c best [] h = refl
after_last_from-Lacks c best (x ∷ s) h = ground (arith, after_last_from-Lacks c best s h.1)

after_last_from-append :
    (c : ℕ) (best a b : Text) → Lacks c b → after_last_from c best (a ++ c ∷ b) ≡ b
unfolding after_last_from
after_last_from-append c best [] b h =
    rw (==_refl c, after_last_from) (after_last_from-Lacks c b b h)
after_last_from-append c best (x ∷ a) b h =
    after_last_from-append c (if x == c then a ++ c ∷ b else best) a b h

pub after_last-append : (c : ℕ) (a b : Text) → Lacks c b → after_last c (a ++ c ∷ b) ≡ b
unfolding after_last
after_last-append c a b h = after_last_from-append c (a ++ c ∷ b) a b h

-- `s.trim_start_matches(c)`.
unfoldable pub trim_start_matches : ℕ → Text → Text
trim_start_matches c [] = []
trim_start_matches c (x ∷ s) = if x == c then trim_start_matches c s else x ∷ s

-- `s.trim_start()`, `s.trim_end()` and `s.trim()`.
unfoldable pub trim_start : Text → Text
unfolding is_whitespace
trim_start [] = []
trim_start (x ∷ s) = if is_whitespace x then trim_start s else x ∷ s

cons_unless_blank : ℕ → Text → Text
unfolding is_whitespace
cons_unless_blank x [] = if is_whitespace x then [] else x ∷ []
cons_unless_blank x (y ∷ s) = x ∷ y ∷ s

unfoldable pub trim_end : Text → Text
unfolding cons_unless_blank
trim_end [] = []
trim_end (x ∷ s) = cons_unless_blank x (trim_end s)

unfoldable pub trim : Text → Text
unfolding trim_start trim_end
trim s = trim_end (trim_start s)

trim_end-cons : (c : ℕ) (s : Text) → is_whitespace c ≡ false → text_eq (trim_end (c ∷ s)) [] ≡ false
unfolding trim_end text_eq
trim_end-cons c s h = ground arith

pub trim_spaced :
    (c : ℕ) (s : Text) → is_whitespace c ≡ false → text_eq (trim (32 ∷ c ∷ s)) [] ≡ false
unfolding trim_start trim
trim_spaced c s h = rw (h, trim_start) (trim_end-cons c s h)

pub trim_blank : text_eq (trim (32 ∷ [])) [] ≡ true
unfolding trim text_eq
trim_blank = refl

-- `s.contains(c)` of a `char`, and of a text.
abbrev pub contains_char : ℕ → Text → Bool
contains_char c [] = false
contains_char c (x ∷ s) = x == c || contains_char c s

unfoldable pub contains : Text → Text → Bool
unfolding strip_prefix
contains p [] = starts_with p []
contains p (x ∷ s) = starts_with p (x ∷ s) || contains p s

-- A line of `s.lines()` has lost its "\r\n" or "\n"; the last may have neither.
unfoldable pub strip_cr : Text → Text
strip_cr [] = []
strip_cr (c ∷ []) = if c == 13 then [] else c ∷ []
strip_cr (c ∷ d ∷ s) = c ∷ strip_cr (d ∷ s)

unfoldable pub lines_from : Text → Text → List Text
lines_from [] [] = []
lines_from (c ∷ cur) [] = (c ∷ cur) ∷ []
lines_from cur (c ∷ s) =
    let closed = strip_cr cur ∷ lines_from [] s in
    let longer = lines_from (cur ++ c ∷ []) s in if c == 10 then closed else longer

unfoldable pub lines : Text → List Text
unfolding lines_from strip_cr
lines s = lines_from [] s

-- `s.split_whitespace()`: the longest parts with no white space.
unfoldable pub words_from : Text → Text → List Text
unfolding is_whitespace
words_from [] [] = []
words_from (c ∷ cur) [] = (c ∷ cur) ∷ []
words_from [] (c ∷ s) =
    let skipped = words_from [] s in
    let begun = words_from (c ∷ []) s in if is_whitespace c then skipped else begun
words_from (d ∷ cur) (c ∷ s) =
    let closed = (d ∷ cur) ∷ words_from [] s in
    let longer = words_from ((d ∷ cur) ++ c ∷ []) s in if is_whitespace c then closed else longer

unfoldable pub split_whitespace : Text → List Text
unfolding words_from
split_whitespace s = words_from [] s

-- No `char` of the text ends a line.
abbrev pub IsLine : Text → Type 0
IsLine = All (λ c. (c ≢ 10) × (c ≢ 13))

IsLine-strip_cr : (s : Text) → IsLine s → strip_cr s ≡ s
unfolding strip_cr
IsLine-strip_cr [] h = refl
IsLine-strip_cr (c ∷ []) h = ground arith
IsLine-strip_cr (c ∷ d ∷ s) h = ap (λ r. c ∷ r) (IsLine-strip_cr (d ∷ s) h.1)

lines_from-append :
    (cur a s : Text)
    → IsLine a
    → lines_from cur (a ++ 10 ∷ s) ≡ strip_cr (cur ++ a) ∷ lines_from [] s
unfolding lines_from
lines_from-append [] [] s h = refl
lines_from-append (d ∷ cur) [] s h = rw append-nil
lines_from-append [] (c ∷ a) s h = ground (arith, lines_from-append (c ∷ []) a s h.1)
lines_from-append (d ∷ cur) (c ∷ a) s h =
    ground
      (arith, lines_from-append ((d ∷ cur) ++ c ∷ []) a s h.1, append_assoc (d ∷ cur) (c ∷ []) a)

-- The first line of a text is what stands before its first line feed.
pub lines-append : (a s : Text) → IsLine a → lines (a ++ 10 ∷ s) ≡ a ∷ lines s
unfolding lines
lines-append a s h =
    lines_from-append [] a s h ∙ ap (λ l. l ∷ lines_from [] s) (IsLine-strip_cr a h)

-- No `char` of the text is white space.
abbrev pub IsWord : Text → Type 0
IsWord = All (λ c. is_whitespace c ≡ false)

words_from-append :
    (d : ℕ) (cur a s : Text)
    → IsWord a
    → words_from (d ∷ cur) (a ++ 32 ∷ s) ≡ (d ∷ cur ++ a) ∷ words_from [] s
unfolding words_from
words_from-append d cur [] s h = rw append-nil
words_from-append d cur (c ∷ a) s h =
    rw (h.0, words_from)
      (words_from-append d (cur ++ c ∷ []) a s h.1
        ∙ ap (λ r. (d ∷ r) ∷ words_from [] s) (append_assoc cur (c ∷ []) a))

words_from-end : (d : ℕ) (cur a : Text) → IsWord a → words_from (d ∷ cur) a ≡ (d ∷ cur ++ a) ∷ []
unfolding words_from
words_from-end d cur [] h = rw append-nil
words_from-end d cur (c ∷ a) h =
    rw (h.0, words_from)
      (words_from-end d (cur ++ c ∷ []) a h.1
        ∙ ap (λ r. (d ∷ r) ∷ []) (append_assoc cur (c ∷ []) a))

-- Words, each after one space: what a printed list of words looks like.
abbrev pub spaced : List Text → Text
spaced [] = []
spaced (w ∷ ws) = 32 ∷ w ++ spaced ws

abbrev pub IsWords : List Text → Type 0
IsWords = All (λ w. (w ≢ []) × IsWord w)

words_from-spaced :
    (d : ℕ) (cur : Text) (w : Text) (ws : List Text)
    → IsWord w
    → IsWords ws
    → words_from (d ∷ cur) (w ++ spaced ws) ≡ (d ∷ cur ++ w) ∷ ws
unfolding words_from
words_from-spaced d cur w [] h k = rw append-nil (words_from-end d cur w h)
words_from-spaced d cur w ([] ∷ ws) h k = absurd (k.0.0 refl)
words_from-spaced d cur w ((c ∷ v) ∷ ws) h k =
    words_from-append d cur w ((c ∷ v) ++ spaced ws) h
    ∙ ap (λ l. (d ∷ cur ++ w) ∷ l)
        (rw (k.0.1.0, words_from) (words_from-spaced c [] v ws k.0.1.1 k.1))

-- Splitting gives the words back.
pub split_whitespace-spaced : (ws : List Text) → IsWords ws → split_whitespace (spaced ws) ≡ ws
unfolding split_whitespace
split_whitespace-spaced [] k = refl
split_whitespace-spaced ([] ∷ ws) k = absurd (k.0.0 refl)
split_whitespace-spaced ((c ∷ w) ∷ ws) k =
    rw (k.0.1.0, words_from) (words_from-spaced c [] w ws k.0.1.1 k.1)

trim_start-word : (s : Text) → IsWord s → trim_start s ≡ s
unfolding trim_start
trim_start-word [] h = refl
trim_start-word (x ∷ s) h = rw h.0

trim_end-word : (s : Text) → IsWord s → trim_end s ≡ s
unfolding trim_end cons_unless_blank
trim_end-word [] h = refl
trim_end-word (x ∷ []) h = rw h.0
trim_end-word (x ∷ y ∷ s) h = rw (trim_end-word (y ∷ s) h.1)

-- A word is not trimmed.
pub trim_word : (s : Text) → IsWord s → trim s ≡ s
unfolding trim
trim_word s h = ap trim_end (trim_start-word s h) ∙ trim_end-word s h
