-- ===== src/Tests/Patterns.antt =====
-- A matcher that answers the patterns of crates/depot-core/src/depot_path.rs as they are documented.
use nix_project_cache.Prelude.{
  ℕ, zero, suc, ◌≡◌, ◌≢◌, ◌↔◌, refl, ap, subst, ◌∙◌, inl, inr, Bool, true, false, ◌&&◌, Option,
  none, some, [], ◌∷◌, ◌++◌, length, arith, Bool-cases, and-split, some_inj, Option-cases,
  if◌then◌else◌,
}
use nix_project_cache.Prelude.Text.{Text, text, text_eq, text_eq_iff, text_eq_refl}
use nix_project_cache.Prelude.Text.Search.{
  contains_char, strip_prefix, strip_prefix-append, strip_prefix-some,
}
use nix_project_cache.Nix.StorePath.{nix_base32_alphabet}
use nix_project_cache.Nix.Hash.Normal.{IsBase32}
use nix_project_cache.DepotPath.{Patterns, ArePatterns, suffix_text, IsSuffix}
use mathlib.Core.Option

-- `n` characters of the alphabet, then the tail.
abbrev match_hash : ℕ → Text → Text → Bool
match_hash zero tail t = text_eq t tail
match_hash (suc n) tail [] = false
match_hash (suc n) tail (c ∷ t) = contains_char c nix_base32_alphabet && match_hash n tail t

match_hash_sound :
    (n : ℕ) (tail t : Text)
    → match_hash n tail t ≡ true
    → (h : Text) × (t ≡ h ++ tail) × (length h ≡ n) × IsBase32 h
match_hash_sound zero tail t e = ([], (text_eq_iff t tail).0 e, refl, tt)
match_hash_sound (suc n) tail [] e = cc
match_hash_sound (suc n) tail (c ∷ t) e =
    let (first, rest) = and-split (contains_char c nix_base32_alphabet) (match_hash n tail t) e in
    let (h, whole, size, spelled) = match_hash_sound n tail t rest in
    (c ∷ h, ap (λ r. c ∷ r) whole, omega (arith, size), (first, spelled))

hash_append : (tail h : Text) → IsBase32 h → match_hash (length h) tail (h ++ tail) ≡ true
hash_append tail [] b = text_eq_refl tail
hash_append tail (c ∷ h) b = rw (b.0) (hash_append tail h b.1)

match_hash_iff :
    (n : ℕ) (tail t : Text)
    → (match_hash n tail t ≡ true) ↔ ((h : Text) × (t ≡ h ++ tail) × (length h ≡ n) × IsBase32 h)
match_hash_iff n tail t = (
  match_hash_sound n tail t,
  λ (h, whole, size, spelled).
      rw whole
        (subst (λ k. match_hash k tail (h ++ tail) ≡ true) size (hash_append tail h spelled)),
)

-- The suffix after a digest, and the digest before it.
abbrev match_suffix : Text → Option (Option Text)
match_suffix t =
    if text_eq t (text ".nar")
    then some none
    else if text_eq t (text ".nar.zst")
    then some (some (text ".zst"))
    else if text_eq t (text ".nar.xz")
    then some (some (text ".xz"))
    else if text_eq t (text ".nar.bz2")
    then some (some (text ".bz2"))
    else none

abbrev match_digest : ℕ → Text → Option (Text × Option Text)
match_digest zero t = Option.map (λ s. ([], s)) (match_suffix t)
match_digest (suc n) [] = none
match_digest (suc n) (c ∷ t) =
    if contains_char c nix_base32_alphabet
    then Option.map (λ (p : Text × Option Text). (c ∷ p.0, p.1)) (match_digest n t)
    else none

abbrev Fits : Text → Option Text → Type 0
Fits t s = (t ≡ text ".nar" ++ suffix_text s) × IsSuffix s

suffix_sound : (t : Text) {s : Option Text} → match_suffix t ≡ some s → Fits t s
suffix_sound t {s} e = elim (Bool-cases (text_eq t (text ".nar"))) [
  | inl a ↦ subst (Fits t) (some_inj (rw a at e)) ((text_eq_iff t (text ".nar")).0 a, tt)
  | inr a ↦ elim (Bool-cases (text_eq t (text ".nar.zst"))) [
    | inl b ↦
        subst (Fits t) (some_inj (rw (a, b) at e)) ((text_eq_iff t (text ".nar.zst")).0 b, inl refl)
    | inr b ↦ elim (Bool-cases (text_eq t (text ".nar.xz"))) [
      | inl c ↦
          subst (Fits t) (some_inj (rw (a, b, c) at e))
            ((text_eq_iff t (text ".nar.xz")).0 c, inr (inl refl))
      | inr c ↦ elim (Bool-cases (text_eq t (text ".nar.bz2"))) [
        | inl d ↦
            subst (Fits t) (some_inj (rw (a, b, c, d) at e))
              ((text_eq_iff t (text ".nar.bz2")).0 d, inr (inr refl))
        | inr d ↦ let wrong = (rw (a, b, c, d) at e) in cc wrong
      ]
    ]
  ]
]

suffix_complete :
    (s : Option Text) → IsSuffix s → match_suffix (text ".nar" ++ suffix_text s) ≡ some s
unfolding text_eq
suffix_complete none h = refl
suffix_complete (some s) (inl e) = rw e
suffix_complete (some s) (inr (inl e)) = rw e
suffix_complete (some s) (inr (inr e)) = rw e

abbrev IsCaptured : ℕ → Text → Text × Option Text → Type 0
IsCaptured n t p =
    (t ≡ p.0 ++ (text ".nar" ++ suffix_text p.1)) × (length p.0 ≡ n) × IsBase32 p.0 × IsSuffix p.1

digest_sound :
    (n : ℕ) (t : Text) {p : Text × Option Text} → match_digest n t ≡ some p → IsCaptured n t p
digest_sound zero t {p} e = elim (Option-cases (match_suffix t)) [
  | inl missing ↦ let wrong = (rw missing at e) in cc wrong
  | inr (s, found) ↦
      let (whole, suffix) = suffix_sound t found in
      subst (IsCaptured zero t) (some_inj (rw found at e)) (whole, refl, tt, suffix)
]
digest_sound (suc n) [] e = cc
digest_sound (suc n) (c ∷ t) {p} e = elim (Bool-cases (contains_char c nix_base32_alphabet)) [
  | inr other ↦ let wrong = (rw other at e) in cc wrong
  | inl spelled ↦ elim (Option-cases (match_digest n t)) [
    | inl missing ↦ let wrong = (rw (spelled, missing) at e) in cc wrong
    | inr (q, found) ↦
        let (whole, size, good, suffix) = digest_sound n t found in
        subst (IsCaptured (suc n) (c ∷ t)) (some_inj (rw (spelled, found) at e))
          (ap (λ r. c ∷ r) whole, omega (arith, size), (spelled, good), suffix)
  ]
]

digest_complete :
    (d : Text) (s : Option Text)
    → IsBase32 d
    → IsSuffix s
    → match_digest (length d) (d ++ (text ".nar" ++ suffix_text s)) ≡ some (d, s)
digest_complete [] s b h = ap (Option.map (λ s. ([], s))) (suffix_complete s h)
digest_complete (c ∷ d) s b h =
    rw (b.0)
      (ap (Option.map (λ (p : Text × Option Text). (c ∷ p.0, p.1))) (digest_complete d s b.1 h))

abbrev match_nar : Text → Option (Text × Option Text)
match_nar t = Option.bind (strip_prefix (text "nar/") t) (match_digest 52)

abbrev pub matcher : Patterns
matcher = record {
  narinfo_re = match_hash 32 (text ".narinfo");
  nar_re = match_nar;
  ls_re = match_hash 32 (text ".ls");
  log_re = λ t. false;
  realisation_re = λ t. false;
}

none-not-some : {A : Type 0} {x : A} → ◌≢◌ {A = Option A} none (some x)
none-not-some e = cc

nar_sound :
    (t d : Text) (s : Option Text)
    → match_nar t ≡ some (d, s)
    → (t ≡ text "nar/" ++ (d ++ (text ".nar" ++ suffix_text s)))
      × (length d ≡ 52)
      × IsBase32 d
      × IsSuffix s
unfolding Option.bind
nar_sound t d s e = elim (Option-cases (strip_prefix (text "nar/") t)) [
  | inl missing ↦ absurd (none-not-some (rw missing at e))
  | inr (r, found) ↦
      let (whole, size, good, suffix) = digest_sound 52 r (rw found at e) in
      (
        strip_prefix-some (text "nar/") t found ∙ ap (λ r. text "nar/" ++ r) whole,
        size,
        good,
        suffix,
      )
]

nar_complete :
    (t d : Text) (s : Option Text)
    → (t ≡ text "nar/" ++ (d ++ (text ".nar" ++ suffix_text s)))
      × (length d ≡ 52)
      × IsBase32 d
      × IsSuffix s
    → match_nar t ≡ some (d, s)
unfolding Option.bind
nar_complete t d s (whole, size, good, suffix) =
    let rest = d ++ (text ".nar" ++ suffix_text s) in
    ap match_nar whole
    ∙ ap (λ o. Option.bind o (match_digest 52)) (strip_prefix-append (text "nar/") rest)
    ∙ subst (λ n. match_digest n rest ≡ some (d, s)) size (digest_complete d s good suffix)

pub matcher-ArePatterns : ArePatterns matcher
matcher-ArePatterns = record {
  narinfo_law = match_hash_iff 32 (text ".narinfo");
  nar_law = λ t d s. (nar_sound t d s, nar_complete t d s);
  ls_law = match_hash_iff 32 (text ".ls");
}
