-- ===== src/Signing/Fingerprint.antt =====
-- `NarInfoSigner::fingerprint` of crates/depot-core/src/signing.rs: when there is a fingerprint and what it fixes.
use nix_project_cache.Prelude.{
  ℕ, ◌<◌, ◌≡◌, ◌≢◌, ◌↔◌, refl, sym, ap, ap₂, ◌∙◌, subst, true, Option, none, some, List, [], ◌∷◌,
  ◌++◌, append-nil, Result, ok, ◌>>=◌, ◌>>◌, guard, guard-ok, All, All-append, arith, bind-ok,
  ok_inj, some_inj, map_err, map_err-ok,
}
use nix_project_cache.Prelude.Text.{Text, text, bytes}
use nix_project_cache.Prelude.Text.Search.{split_once, split_once-append, Lacks}
use nix_project_cache.Prelude.Text.Order.{sort, sort_eq}
use nix_project_cache.Prelude.Text.Decimal.{
  parse_u64, show_u64, show_u64-All, parse_u64-show_u64, IsDigit, u64_mod,
}
use nix_project_cache.Nix.StoreDir.{StoreDir, contains_path}
use nix_project_cache.Nix.Hash.{NormalizedNarHash, to_string}
use nix_project_cache.Nix.HashAlgorithm.{as_str}
use nix_project_cache.Nix.Hash.Normal.{IsNormalized, IsBase32}
use nix_project_cache.NarInfo.{NarInfo, normalized_nar_hash}
use nix_project_cache.Signing.{
  Base64, FingerprintError, invalid_nar_hash, NarInfoSigner, push_rest, push_references,
  fingerprint_text, check_references, fingerprint,
}
use mathlib.Core.List.{Perm, Permᴰ}
use mathlib.Core.Logic.{∥∥₁_elim}

split_once-Lacks : (c : ℕ) (s : Text) → Lacks c s → split_once c s ≡ none
unfolding split_once
split_once-Lacks c [] h = refl
split_once-Lacks c (x ∷ s) h = ground (arith, split_once-Lacks c s h.1)

-- Two texts that agree, cut at the first separator, agree on both sides of it.
cut : (c : ℕ) (a b s t : Text) → Lacks c a → Lacks c b → a ++ c ∷ s ≡ b ++ c ∷ t → (a ≡ b) × (s ≡ t)
cut c a b s t ha hb e =
    let same : (a, s) ≡ (b, t) =
      some_inj
        (sym (split_once-append c a s ha) ∙ ap (split_once c) e ∙ split_once-append c b t hb) in
    (ap (λ (p : Text × Text). p.0) same, ap (λ (p : Text × Text). p.1) same)

none_some : {x : Text × Text} → ◌≢◌ {A = Option (Text × Text)} none (some x)
none_some e = cc

-- A reference has characters, none of them a comma.
abbrev pub IsListed : Text → Type 0
IsListed r = (r ≢ []) × Lacks b',' r

push_rest_injective :
    (r s : Text) (rs ss : List Text)
    → Lacks b',' r
    → Lacks b',' s
    → All IsListed rs
    → All IsListed ss
    → r ++ push_rest rs ≡ s ++ push_rest ss
    → r ∷ rs ≡ s ∷ ss
unfolding push_rest
push_rest_injective r s [] [] hr hs hrs hss e =
    ap (λ t. t ∷ []) (sym (append-nil r) ∙ e ∙ append-nil s)
push_rest_injective r s [] (s' ∷ ss) hr hs hrs hss e =
    let a : split_once b',' (r ++ []) ≡ none =
      ap (split_once b',') (append-nil r) ∙ split_once-Lacks b',' r hr in
    let b = split_once-append b',' s (s' ++ push_rest ss) hs in
    absurd (none_some (sym a ∙ ap (split_once b',') e ∙ b))
push_rest_injective r s (r' ∷ rs) [] hr hs hrs hss e =
    let a : split_once b',' (s ++ []) ≡ none =
      ap (split_once b',') (append-nil s) ∙ split_once-Lacks b',' s hs in
    let b = split_once-append b',' r (r' ++ push_rest rs) hr in
    absurd (none_some (sym a ∙ ap (split_once b',') (sym e) ∙ b))
push_rest_injective r s (r' ∷ rs) (s' ∷ ss) hr hs hrs hss e =
    let (first, more) = cut b',' r s (r' ++ push_rest rs) (s' ++ push_rest ss) hr hs e in
    ap₂ (λ x (xs : List Text). x ∷ xs) first
      (push_rest_injective r' s' rs ss hrs.0.1 hss.0.1 hrs.1 hss.1 more)

pub push_references_injective :
    (rs ss : List Text)
    → All IsListed rs
    → All IsListed ss
    → push_references rs ≡ push_references ss
    → rs ≡ ss
unfolding push_references
push_references_injective [] [] hr hs e = refl
push_references_injective [] ([] ∷ ss) hr hs e = absurd (hs.0.0 refl)
push_references_injective [] ((c ∷ s) ∷ ss) hr hs e = cc
push_references_injective ([] ∷ rs) ss hr hs e = absurd (hr.0.0 refl)
push_references_injective ((c ∷ r) ∷ rs) [] hr hs e = cc
push_references_injective ((c ∷ r) ∷ rs) (s ∷ ss) hr hs e =
    push_rest_injective (c ∷ r) s rs ss hr.0.1 hs.0.1 hr.1 hs.1 e

digits-Lacks : (s : Text) → All IsDigit s → Lacks b';' s
digits-Lacks [] h = tt
digits-Lacks (c ∷ s) h = (λ e. ground arith, digits-Lacks s h.1)

show_u64-injective : (m n : ℕ) → m < u64_mod → n < u64_mod → show_u64 m ≡ show_u64 n → m ≡ n
show_u64-injective m n hm hn e =
    some_inj (sym (parse_u64-show_u64 m hm) ∙ ap parse_u64 e ∙ parse_u64-show_u64 n hn)

base32-Lacks : (s : Text) → IsBase32 s → Lacks b';' s
base32-Lacks [] h = tt
base32-Lacks (c ∷ s) h = ((λ e. cc (h.0)), base32-Lacks s h.1)

to_string-Lacks : (h : NormalizedNarHash) → IsNormalized h → Lacks b';' (to_string h)
to_string-Lacks h (kind, spelled) =
    subst (λ a. Lacks b';' (as_str a ++ b':' ∷ h.digest)) (sym kind)
      (All-append _ (text "sha256:") h.digest (omega arith) (base32-Lacks h.digest spelled))

-- Two signed texts that agree were made of the same store path, hash, size and references, when no
-- store path has a semicolon, the hashes are normalized, the sizes fit in 64 bits and no reference
-- is empty or has a comma.
pub fingerprint_text-injective :
    (p q : Text) (g h : NormalizedNarHash) (m n : ℕ) (rs ss : List Text)
    → Lacks b';' p
    → Lacks b';' q
    → IsNormalized g
    → IsNormalized h
    → m < u64_mod
    → n < u64_mod
    → All IsListed rs
    → All IsListed ss
    → fingerprint_text p g m rs ≡ fingerprint_text q h n ss
    → (p ≡ q) × (to_string g ≡ to_string h) × (m ≡ n) × (rs ≡ ss)
fingerprint_text-injective p q g h m n rs ss hp hq hg hh hm hn hrs hss e =
    let size_of = λ (k : ℕ) (l : List Text). show_u64 k ++ b';' ∷ push_references l in
    let strip : p ++ b';' ∷ (to_string g ++ b';' ∷ size_of m rs)
        ≡ q ++ b';' ∷ (to_string h ++ b';' ∷ size_of n ss) =
      cc in
    let (paths, rest) =
      cut b';' p q (to_string g ++ b';' ∷ size_of m rs) (to_string h ++ b';' ∷ size_of n ss) hp hq
        strip in
    let (hashes, rest') =
      cut b';' (to_string g) (to_string h) (size_of m rs) (size_of n ss) (to_string-Lacks g hg)
        (to_string-Lacks h hh) rest in
    let (sizes, refs) =
      cut b';' (show_u64 m) (show_u64 n) (push_references rs) (push_references ss)
        (digits-Lacks _ (show_u64-All m)) (digits-Lacks _ (show_u64-All n)) rest' in
    (
      paths,
      hashes,
      show_u64-injective m n hm hn sizes,
      push_references_injective rs ss hrs hss refs,
    )

-- Every path of the list is inside the store directory.
abbrev pub AreInside : StoreDir → List Text → Type 0
AreInside d = All (λ r. contains_path d r ≡ true)

module _ {D : Type 0} (d : StoreDir) where
  check_references-Inside :
      (refs : List Text) → check_references {D = D} d refs ≡ ok tt → AreInside d refs
  unfolding check_references
  check_references-Inside [] e = tt
  check_references-Inside (r ∷ refs) e =
      let (u, first, more) =
        bind-ok (guard (contains_path d r) (FingerprintError.invalid_reference_path d.path r))
          (λ x. check_references d refs) e in
      (guard-ok _ _ first, check_references-Inside refs more)

  Inside-check_references :
      (refs : List Text) → AreInside d refs → check_references {D = D} d refs ≡ ok tt
  unfolding check_references
  Inside-check_references [] h = refl
  Inside-check_references (r ∷ refs) h =
      rw (h.0, check_references) (Inside-check_references refs h.1)

module _ {K D : Type 0} (b64 : Base64 D) (s : NarInfoSigner K) where
  -- What makes the fingerprint of a narinfo: the paths are inside the store directory, the hash has
  -- a normal form, and the bytes are those of the text over the sorted references.
  abbrev pub IsFingerprint : NarInfo → List ℕ → Type 0
  IsFingerprint n bs =
      (contains_path s.store_dir n.store_path ≡ true)
      × AreInside s.store_dir n.references
      × ((h : NormalizedNarHash) × (normalized_nar_hash b64.decode n ≡ ok h)
          × (bytes (fingerprint_text n.store_path h n.nar_size (sort n.references)) ≡ bs))

  text_of : NarInfo → NormalizedNarHash → List ℕ
  text_of n h = bytes (fingerprint_text n.store_path h n.nar_size (sort n.references))

  check_then : NarInfo → NormalizedNarHash → Result (FingerprintError D) (List ℕ)
  unfolding text_of
  check_then n h = check_references s.store_dir n.references >> ok (text_of n h)

  hash_then : NarInfo → Result (FingerprintError D) (List ℕ)
  unfolding check_then
  hash_then n = map_err invalid_nar_hash (normalized_nar_hash b64.decode n) >>= check_then n

  -- `fingerprint` gives some bytes exactly if they are the fingerprint of the narinfo.
  pub fingerprint_iff :
      (n : NarInfo) (bs : List ℕ) → (fingerprint b64 s n ≡ ok bs) ↔ IsFingerprint n bs
  unfolding fingerprint hash_then check_then text_of
  fingerprint_iff n bs = (
    λ e.
        let (u, inside, e1) =
          bind-ok
            (guard (contains_path s.store_dir n.store_path)
              (FingerprintError.invalid_store_path s.store_dir.path n.store_path))
            (λ x. hash_then n) e in
        let (h, normal, e2) =
          bind-ok (map_err invalid_nar_hash (normalized_nar_hash b64.decode n))
            (λ h. check_then n h) e1 in
        let (v, checked, made) =
          bind-ok (check_references s.store_dir n.references) (λ x. ok (text_of n h)) e2 in
        (
          guard-ok _ _ inside,
          check_references-Inside s.store_dir n.references checked,
          (h, map_err-ok _ _ normal, ok_inj made),
        ),
    λ f.
        rw (f.0, f.2.1, Inside-check_references {D = D} s.store_dir n.references f.1) (ap ok f.2.2),
  )

AreInside-Permᴰ : (d : StoreDir) {xs ys : List Text} → Permᴰ xs ys → AreInside d ys → AreInside d xs
AreInside-Permᴰ d Permᴰ.nil h = h
AreInside-Permᴰ d (Permᴰ.cons e p) h =
    (subst (λ r. contains_path d r ≡ true) (sym e) h.0, AreInside-Permᴰ d p h.1)
AreInside-Permᴰ d (Permᴰ.swap e f) h = (
  subst (λ r. contains_path d r ≡ true) (sym e) h.1.0,
  (subst (λ r. contains_path d r ≡ true) (sym f) h.0, h.1.1),
)
AreInside-Permᴰ d (Permᴰ.trans p q) h = AreInside-Permᴰ d p (AreInside-Permᴰ d q h)

AreInside-prop : (d : StoreDir) (xs : List Text) → IsProp (AreInside d xs)
AreInside-prop d [] = hlevel
AreInside-prop d (x ∷ xs) = let rest = AreInside-prop d xs in hlevel

module _ {K D : Type 0} (b64 : Base64 D) (s : NarInfoSigner K) where
  -- If a narinfo has a fingerprint, it is also the fingerprint of the narinfo with the references in
  -- another order.
  pub fingerprint-Perm :
      (n : NarInfo) (refs : List Text) (bs : List ℕ)
      → Perm refs n.references
      → fingerprint b64 s n ≡ ok bs
      → fingerprint b64 s (record n { references = refs }) ≡ ok bs
  fingerprint-Perm n refs bs p e =
      let (path, inside, (h, normal, made)) = (fingerprint_iff b64 s n bs).0 e in
      let inside' =
        ∥∥₁_elim p (AreInside-prop s.store_dir refs) (λ q. AreInside-Permᴰ s.store_dir q inside) in
      (fingerprint_iff b64 s (record n { references = refs }) bs).1 (
        path,
        inside',
        (
          h,
          normal,
          ap (λ l. bytes (fingerprint_text n.store_path h n.nar_size l)) (sort_eq p) ∙ made,
        ),
      )
