-- ===== src/DepotPath/Sound.antt =====
-- The object paths that are parsed, and printing them.
use nix_project_cache.Prelude.{
  ℕ, ◌≤◌, ◌≡◌, refl, sym, subst, ap, ◌∙◌, ◌≢◌, ◌↔◌, inl, inr, Bool, true, false, ◌||◌, Option, none,
  some, [], ◌∷◌, ◌++◌, if◌then◌else◌, length, Bool-cases, Option-cases, Result-cases, some_inj,
  arith,
}
use nix_project_cache.Prelude.Text.{Text, text, text_eq, text_eq_iff}
use nix_project_cache.Prelude.Text.Search.{
  strip_suffix, strip_prefix, strip_prefix-append, starts_with, contains, contains_char,
}
use nix_project_cache.Nix.StorePath.{StorePathHash, from_hash, nix_base32_alphabet}
use nix_project_cache.Nix.Hash.Normal.{IsBase32}
use nix_project_cache.DepotPath.{
  NarCompression, uncompressed, zstd, xz, bz2, from_narinfo_compression, narinfo_compression,
  file_suffix, DepotObjectPath, nar_info, nar, listing, Patterns, ArePatterns, IsSuffix,
  suffix_text, sha256_nix_base32_digest_len, of_hash, compression_of, parse_last, parse_captured,
  parse_relative, parse_depot_object_path,
}
use mathlib.Core.Option

-- The name of a compression in a narinfo is read back.
from_narinfo_compression-narinfo_compression :
    (c : NarCompression) → from_narinfo_compression (narinfo_compression c) ≡ some c
unfolding from_narinfo_compression
from_narinfo_compression-narinfo_compression uncompressed = refl
from_narinfo_compression-narinfo_compression _ = refl

-- A path that can be joined to a directory and stays in it: it is not empty, does not start at the
-- root, and holds no two dots in a row.
abbrev pub IsRelative : Text → Type 0
IsRelative path =
    (path ≢ []) × ((r : Text) → path ≢ b'/' ∷ r) × ((a b : Text) → path ≢ a ++ (text ".." ++ b))

or_true : (b : Bool) → (b || true) ≡ true
or_true b = ground arith

contains-append : (p a b : Text) → contains p (a ++ (p ++ b)) ≡ true
unfolding contains
contains-append [] [] [] = refl
contains-append [] [] (x ∷ b) = refl
contains-append (x ∷ p) [] b = rw (strip_prefix-append (x ∷ p) b)
contains-append p (x ∷ a) b = rw (contains-append p a b, ◌||◌) (or_true _)

starts_slash : (r : Text) → starts_with (text "/") (b'/' ∷ r) ≡ true
unfolding strip_prefix
starts_slash r = refl

module _ (re : Patterns) where
  -- Whatever path is accepted, it is relative.
  pub parse_depot_object_path-IsRelative :
      (path : Text) {o : DepotObjectPath}
      → parse_depot_object_path re path ≡ some o
      → IsRelative path
  unfolding parse_depot_object_path
  parse_depot_object_path-IsRelative path e = (
    λ empty. absurd (ground (arith, text_eq_iff path [])),
    λ r rooted. absurd (ground (arith, ap (starts_with (text "/")) rooted, starts_slash r)),
    λ a b dots.
        absurd (ground (arith, ap (contains (text "..")) dots, contains-append (text "..") a b)),
  )

abbrev pub nar_path : Text → NarCompression → Text
nar_path digest c = text "nar/" ++ (digest ++ file_suffix c)

abbrev pub suffix_of : NarCompression → Option Text
suffix_of uncompressed = none
suffix_of zstd = some (text ".zst")
suffix_of xz = some (text ".xz")
suffix_of bz2 = some (text ".bz2")

suffix_lem : (c : NarCompression) → text ".nar" ++ suffix_text (suffix_of c) ≡ file_suffix c
suffix_lem uncompressed = refl
suffix_lem _ = refl

compression_of-suffix :
    (s : Option Text) {c : NarCompression}
    → compression_of s ≡ some c
    → text ".nar" ++ suffix_text s ≡ file_suffix c
compression_of-suffix none {c} e = rw (← some_inj e)
compression_of-suffix (some s) {c} e =
    ground
      (arith, text_eq_iff s (text ".zst"), text_eq_iff s (text ".xz"), text_eq_iff s (text ".bz2"))

module _ (re : Patterns) where
  not_of_hash :
      (make : StorePathHash → DepotObjectPath) (o : Option Text) {d : Text} {c : NarCompression}
      → ((h : StorePathHash) → make h ≢ nar d c)
      → of_hash make o ≢ some (nar d c)
  not_of_hash make none h e = cc
  not_of_hash make (some t) h e = elim (Result-cases (from_hash t)) [
    | inl (v, made) ↦ h v (some_inj (rw (made, of_hash) at e))
    | inr (x, failed) ↦ absurd (ground arith)
  ]

  parse_last-ne-nar :
      (path : Text) {d : Text} {c : NarCompression} → parse_last re path ≢ some (nar d c)
  unfolding parse_last
  parse_last-ne-nar path e = elim (Bool-cases (re.ls_re path)) [
    | inl l ↦ not_of_hash listing (strip_suffix (text ".ls") path) (λ h k. cc) (rw l at e)
    | inr l ↦ ground arith
  ]

  parse_captured-nar :
      (path : Text) (o : Option (Text × Option Text)) {d : Text} {c : NarCompression}
      → parse_captured re path o ≡ some (nar d c)
      → (s : Option Text) × (o ≡ some (d, s)) × (text ".nar" ++ suffix_text s ≡ file_suffix c)
  unfolding parse_captured
  parse_captured-nar path none e = absurd (parse_last-ne-nar path e)
  parse_captured-nar path (some (d', s)) {d} {c} e = elim (Option-cases (compression_of s)) [
    | inl missing ↦ absurd (ground arith)
    | inr (c', found) ↦
        let made : some (nar d' c') ≡ some (nar d c) = rw found at e in
        let same_c : c' ≡ c = cc in
        let same_d : d' ≡ d = cc in
        (s, ap (λ x. some (x, s)) same_d, compression_of-suffix s (found ∙ ap (λ x. some x) same_c))
  ]

  parse_relative-nar :
      (path : Text) {d : Text} {c : NarCompression}
      → parse_relative re path ≡ some (nar d c)
      → parse_captured re path (re.nar_re path) ≡ some (nar d c)
  unfolding parse_relative
  parse_relative-nar path {d} {c} e = elim (Bool-cases (re.narinfo_re path)) [
    | inl n ↦
        let hashed : of_hash nar_info (strip_suffix (text ".narinfo") path) ≡ some (nar d c) =
          ground arith in
        absurd (not_of_hash nar_info (strip_suffix (text ".narinfo") path) (λ h k. cc) hashed)
    | inr n ↦ ground arith
  ]

unfoldable pub IsNar : Text → Text → NarCompression → Type 0
IsNar path d c = (path ≡ nar_path d c) × (length d ≡ sha256_nix_base32_digest_len) × IsBase32 d

slash_not_hash :
    (h tail rest : Text) → text "nar/" ++ rest ≡ h ++ tail → 4 ≤ length h → IsBase32 h → ⊥
slash_not_hash [] tail rest e l b = omega arith
slash_not_hash (w ∷ []) tail rest e l b = omega arith
slash_not_hash (w ∷ x ∷ []) tail rest e l b = omega arith
slash_not_hash (w ∷ x ∷ y ∷ []) tail rest e l b = omega arith
slash_not_hash (w ∷ x ∷ y ∷ z ∷ h) tail rest e l b =
    let slash : b'/' ≡ z = cc in
    let bad : contains_char b'/' nix_base32_alphabet ≡ true =
      subst (λ x. contains_char x nix_base32_alphabet ≡ true) (sym slash) b.1.1.1.0 in
    cc

contains-skip :
    (x : ℕ) (s : Text) → x ≢ b'.' → contains (text "..") (x ∷ s) ≡ contains (text "..") s
unfolding contains
contains-skip x s n = ground arith

alphabet_no_dot : (c : ℕ) → contains_char c nix_base32_alphabet ≡ true → c ≢ b'.'
alphabet_no_dot c h e =
    let bad : contains_char b'.' nix_base32_alphabet ≡ true =
      subst (λ x. contains_char x nix_base32_alphabet ≡ true) e h in
    cc

contains-hash : (d s : Text) → IsBase32 d → contains (text "..") (d ++ s) ≡ contains (text "..") s
contains-hash [] s b = refl
contains-hash (x ∷ d) s b = contains-skip x (d ++ s) (alphabet_no_dot x b.0) ∙ contains-hash d s b.1

suffix_no_dots : (c : NarCompression) → contains (text "..") (file_suffix c) ≡ false
unfolding contains
suffix_no_dots uncompressed = refl
suffix_no_dots _ = refl

nar_path_no_dots :
    (d : Text) (c : NarCompression) → IsBase32 d → contains (text "..") (nar_path d c) ≡ false
nar_path_no_dots d c b =
    let rest = d ++ file_suffix c in
    contains-skip b'n' _ (omega arith)
    ∙ contains-skip b'a' _ (omega arith)
    ∙ contains-skip b'r' _ (omega arith)
    ∙ contains-skip b'/' rest (omega arith)
    ∙ contains-hash d (file_suffix c) b
    ∙ suffix_no_dots c

compression_of-suffix_of : (c : NarCompression) → compression_of (suffix_of c) ≡ some c
unfolding text_eq
compression_of-suffix_of uncompressed = refl
compression_of-suffix_of _ = refl

suffix_of-IsSuffix : (c : NarCompression) → IsSuffix (suffix_of c)
suffix_of-IsSuffix uncompressed = tt
suffix_of-IsSuffix zstd = inl refl
suffix_of-IsSuffix xz = inr (inl refl)
suffix_of-IsSuffix bz2 = inr (inr refl)

module _ (re : Patterns) (laws : ArePatterns re) where
  nar_sound :
      (path d : Text) (c : NarCompression)
      → parse_depot_object_path re path ≡ some (nar d c)
      → IsNar path d c
  unfolding parse_depot_object_path IsNar
  nar_sound path d c e =
      let relative : parse_relative re path ≡ some (nar d c) = ground arith in
      let (s, captured, tail) =
        parse_captured-nar re path (re.nar_re path) (parse_relative-nar re path relative) in
      let (spelled, full, base32, known) = (laws.nar_law path d s).0 captured in
      (spelled ∙ ap (λ t. text "nar/" ++ (d ++ t)) tail, full, base32)

  nar_not_narinfo : (d : Text) (c : NarCompression) → re.narinfo_re (nar_path d c) ≡ false
  nar_not_narinfo d c = elim (Bool-cases (re.narinfo_re (nar_path d c))) [
    | inl m ↦
        let (h, e, l, b) = (laws.narinfo_law (nar_path d c)).0 m in
        absurd (slash_not_hash h (text ".narinfo") (d ++ file_suffix c) e (omega (arith, l)) b)
    | inr m ↦ m
  ]

  nar_complete :
      (d : Text) (c : NarCompression)
      → length d ≡ sha256_nix_base32_digest_len
      → IsBase32 d
      → parse_depot_object_path re (nar_path d c) ≡ some (nar d c)
  unfolding parse_depot_object_path parse_relative parse_captured text_eq strip_prefix
  nar_complete d c l b =
      let captured =
        (laws.nar_law (nar_path d c) d (suffix_of c)).1
          (ap (λ t. text "nar/" ++ (d ++ t)) (sym (suffix_lem c)), l, b, suffix_of-IsSuffix c) in
      let path = nar_path d c in
      let hashed = of_hash nar_info (strip_suffix (text ".narinfo") path) in
      ap
        (λ t.
          if t
          then none
          else (if re.narinfo_re path then hashed else parse_captured re path (re.nar_re path)))
        (nar_path_no_dots d c b)
      ∙ ap (λ t. if t then hashed else parse_captured re path (re.nar_re path))
          (nar_not_narinfo d c)
      ∙ ap (parse_captured re path) captured
      ∙ ap (Option.map (nar d)) (compression_of-suffix_of c)

  -- A path is the path of a NAR exactly if it spells "nar/", a digest of 52 characters of the
  -- alphabet, and the suffix of the compression.
  pub parse-nar_iff :
      (path d : Text) (c : NarCompression)
      → (parse_depot_object_path re path ≡ some (nar d c)) ↔ IsNar path d c
  unfolding IsNar
  parse-nar_iff path d c = (
    nar_sound path d c,
    λ (e, l, b).
        subst (λ p. parse_depot_object_path re p ≡ some (nar d c)) (sym e) (nar_complete d c l b),
  )
