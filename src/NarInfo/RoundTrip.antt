-- ===== src/NarInfo/RoundTrip.antt =====
-- A whole narinfo, as `render` writes it, is read back by `parse_narinfo`.
use nix_project_cache.Prelude.{
  ℕ, ◌<◌, ◌≡◌, ◌≢◌, refl, sym, ap, ◌∙◌, subst, true, Option, none, some, List, [], ◌∷◌, ◌++◌,
  append_assoc, append-nil, map, Result, ok, ◌>>=◌, All, All-append, arith,
}
use nix_project_cache.Prelude.Text.{Text, text, is_whitespace}
use nix_project_cache.Prelude.Text.Search.{contains_char, lines, IsLine, IsWord, IsWords, spaced}
use nix_project_cache.Prelude.Text.Order.{sort, sort_eq, sort-All}
use nix_project_cache.Prelude.Text.Decimal.{
  show_u64, show_u64-All, parse_u64-show_u64, IsDigit, u64_mod,
}
use nix_project_cache.Nix.StoreDir.{StoreDir, display_path, IsNormal}
use nix_project_cache.Nix.Base32.Digits.{IsBytes}
use nix_project_cache.Nix.HashAlgorithm.{as_str}
use nix_project_cache.Nix.StorePath.{nix_base32_alphabet}
use nix_project_cache.Nix.Hash.{NixHash, NormalizedNarHash, to_string}
use nix_project_cache.Nix.Hash.Normal.{IsNormalized, IsBase32, from_nix_hash_normal}
use nix_project_cache.Nix.ContentAddress.{NixContentAddress}
use nix_project_cache.NarInfo.{
  NarInfo, Slots, no_slots, Field, set_field, parse_lines, finish, parse_narinfo, set_once, line_of,
  reference_list, deriver_line, sig_lines, ca_line, normalized_nar_hash, ca_narinfo_string,
  render_with_signatures, render,
}
use nix_project_cache.NarInfo.Lines.{
  next_line, IsPlain, display_plain, expand_plain, display-IsWords, set_references,
}
use mathlib.Core.List.{Perm}
use mathlib.Core.Option

-- The slots once the six mandatory fields of `n` were read.
abbrev slots_of : NarInfo → Option Text → List Text → Option NixContentAddress → Slots
slots_of n path sigs address = record {
  store_path = some n.store_path;
  url = some n.url;
  compression = some n.compression;
  nar_hash = some n.nar_hash;
  nar_size = some n.nar_size;
  references = some n.references;
  deriver = path;
  signatures = sigs;
  ca = address;
}

IsWord-IsLine : (s : Text) → IsWord s → IsLine s
unfolding is_whitespace
IsWord-IsLine [] h = tt
IsWord-IsLine (c ∷ s) h = ((λ e. ground arith, λ e. ground arith), IsWord-IsLine s h.1)

IsDigit-IsLine : (s : Text) → All IsDigit s → IsLine s
IsDigit-IsLine [] h = tt
IsDigit-IsLine (c ∷ s) h = ((λ e. ground arith, λ e. ground arith), IsDigit-IsLine s h.1)

unbroken : (c : ℕ) → contains_char c nix_base32_alphabet ≡ true → (c ≢ 10) × (c ≢ 13)
unbroken c e = (λ k. cc, λ k. cc)

IsBase32-IsLine : (s : Text) → IsBase32 s → IsLine s
IsBase32-IsLine [] h = tt
IsBase32-IsLine (c ∷ s) h = (unbroken c h.0, IsBase32-IsLine s h.1)

spaced-IsLine : (ws : List Text) → IsWords ws → IsLine (spaced ws)
spaced-IsLine [] h = tt
spaced-IsLine (w ∷ ws) h = (
  (λ e. omega arith, λ e. omega arith),
  All-append _ w (spaced ws) (IsWord-IsLine w h.0.1) (spaced-IsLine ws h.1),
)

-- An optional path that is plain when it is there.
abbrev pub IsPlainOption : StoreDir → Option Text → Type 0
IsPlainOption d none = Unit
IsPlainOption d (some path) = IsPlain d path

abbrev pub IsLineOption : Option Text → Type 0
IsLineOption none = Unit
IsLineOption (some t) = IsLine t

module _ (d : StoreDir) (normal : IsNormal d.path) (n : NarInfo) where
  read_deriver :
      (path : Option Text) (rest : Text)
      → IsPlainOption d path
      → parse_lines d (lines (deriver_line d path ++ rest)) (slots_of n none [] none)
        ≡ parse_lines d (lines rest) (slots_of n path [] none)
  unfolding set_field
  read_deriver none rest h = refl
  read_deriver (some path) rest h =
      next_line d Field.deriver (display_path d path) rest (slots_of n none [] none) (
        subst IsLine (sym (display_plain d normal path h))
          (IsWord-IsLine (h.first ∷ h.more) h.word))
      ∙ ap (λ p. parse_lines d (lines rest) (slots_of n (some p) [] none))
          (expand_plain d normal path h)

  read_signatures :
      (path : Option Text) (sigs sofar : List Text) (rest : Text)
      → All IsLine sigs
      → parse_lines d (lines (sig_lines sigs ++ rest)) (slots_of n path sofar none)
        ≡ parse_lines d (lines rest) (slots_of n path (sofar ++ sigs) none)
  unfolding set_field
  read_signatures path [] sofar rest h =
      ap (λ l. parse_lines d (lines rest) (slots_of n path l none)) (sym (append-nil sofar))
  read_signatures path (s ∷ sigs) sofar rest h =
      ap (λ t. parse_lines d (lines t) (slots_of n path sofar none))
        (append_assoc (line_of Field.sig s) (sig_lines sigs) rest)
      ∙ next_line d Field.sig s (sig_lines sigs ++ rest) (slots_of n path sofar none) h.0
      ∙ read_signatures path sigs (sofar ++ s ∷ []) rest h.1
      ∙ ap (λ l. parse_lines d (lines rest) (slots_of n path l none))
          (append_assoc sofar (s ∷ []) sigs)

  read_ca :
      (path : Option Text) (sigs : List Text) (address : Option Text)
      → IsLineOption address
      → parse_lines d (lines (ca_line address)) (slots_of n path sigs none)
        ≡ ok (slots_of n path sigs (Option.map NixContentAddress.raw address))
  unfolding set_field parse_lines lines
  read_ca path sigs none h = refl
  read_ca path sigs (some t) h =
      ap (λ l. parse_lines d (lines l) (slots_of n path sigs none))
        (sym (append-nil (line_of Field.ca t)))
      ∙ next_line d Field.ca t [] (slots_of n path sigs none) h

  -- After the mandatory fields, the optional ones are read back as they were written.
  read_tail :
      (address : Option Text)
      → IsPlainOption d n.deriver
      → All IsLine n.signatures
      → IsLineOption address
      → parse_lines d
          (lines (deriver_line d n.deriver ++ (sig_lines n.signatures ++ ca_line address)))
          (slots_of n none [] none)
        ≡ ok (slots_of n n.deriver n.signatures (Option.map NixContentAddress.raw address))
  read_tail address path sigs ca =
      read_deriver n.deriver (sig_lines n.signatures ++ ca_line address) path
      ∙ read_signatures n.deriver n.signatures [] (ca_line address) sigs
      ∙ read_ca n.deriver n.signatures address ca

  set_nar_size :
      (s : Slots)
      → s.nar_size ≡ none
      → n.nar_size < u64_mod
      → set_field d Field.nar_size (show_u64 n.nar_size) s
        ≡ ok (record s { nar_size = some n.nar_size })
  unfolding set_field
  set_nar_size s empty h = rw (parse_u64-show_u64 n.nar_size h) (
      ap
        (λ old.
          set_once old n.nar_size (text "NarSize") >>= λ slot. ok (record s { nar_size = slot }))
        empty)

  references-IsLine : (refs : List Text) → All (IsPlain d) refs → IsLine (reference_list d refs)
  references-IsLine [] h = ((λ e. omega arith, λ e. omega arith), tt)
  references-IsLine (r ∷ refs) h =
      spaced-IsLine (map (display_path d) (r ∷ refs)) (display-IsWords d normal (r ∷ refs) h)

  -- The mandatory fields are read back as they were written.
  read_head :
      (hash tail : Text)
      → n.nar_hash ≡ NixHash.raw hash
      → IsLine hash
      → IsLine n.store_path
      → IsLine n.url
      → IsLine n.compression
      → n.nar_size < u64_mod
      → All (IsPlain d) n.references
      → parse_lines d
          (lines (
            line_of Field.store_path n.store_path
            ++ (line_of Field.url n.url
                ++ (line_of Field.compression n.compression
                    ++ (line_of Field.nar_hash hash
                        ++ (line_of Field.nar_size (show_u64 n.nar_size)
                            ++ (line_of Field.references (reference_list d n.references)
                                ++ tail)))))))
          no_slots
        ≡ parse_lines d (lines tail) (slots_of n none [] none)
  unfolding set_field
  read_head hash tail raw_hash hash_line path_line url_line compression_line size refs =
      let r6 = line_of Field.references (reference_list d n.references) ++ tail in
      let r5 = line_of Field.nar_size (show_u64 n.nar_size) ++ r6 in
      let r4 = line_of Field.nar_hash hash ++ r5 in
      let r3 = line_of Field.compression n.compression ++ r4 in
      let r2 = line_of Field.url n.url ++ r3 in
      let s1 : Slots = record no_slots { store_path = some n.store_path } in
      let s2 : Slots = record s1 { url = some n.url } in
      let s3 : Slots = record s2 { compression = some n.compression } in
      let s4 : Slots = record s3 { nar_hash = some (NixHash.raw hash) } in
      let s5 : Slots = record s4 { nar_size = some n.nar_size } in
      next_line d Field.store_path n.store_path r2 no_slots path_line
      ∙ next_line d Field.url n.url r3 s1 url_line
      ∙ next_line d Field.compression n.compression r4 s2 compression_line
      ∙ next_line d Field.nar_hash hash r5 s3 hash_line
      ∙ next_line d Field.nar_size (show_u64 n.nar_size) r6 s4
          (IsDigit-IsLine _ (show_u64-All n.nar_size))
      ∙ ap (λ m. m >>= parse_lines d (lines r6)) (set_nar_size s4 refl size)
      ∙ next_line d Field.references (reference_list d n.references) tail s5
          (references-IsLine n.references refs)
      ∙ ap (λ m. m >>= parse_lines d (lines tail))
          (set_references d normal n.references s5 refs refl)
      ∙ ap
          (λ hash.
            parse_lines d (lines tail) (record (slots_of n none [] none) { nar_hash = some hash }))
          (sym raw_hash)

module _ {ℓ} {D : Type ℓ} (decode : Text → Result D (List ℕ)) where
  -- What reading a rendered narinfo gives: `h` as the hash, sorted lists, the content address as text.
  abbrev pub read_back : NarInfo → NormalizedNarHash → NarInfo
  read_back n h = record n {
    nar_hash = NixHash.raw (to_string h);
    references = sort n.references;
    signatures = sort n.signatures;
    ca = Option.map NixContentAddress.raw (ca_narinfo_string decode n);
  }

  -- No field of the narinfo breaks its line, and the references and the deriver are plain store paths.
  pub record IsWritable (d : StoreDir) (n : NarInfo) : Type 0 where
    pub store_dir : IsNormal d.path
    pub store_path : IsLine n.store_path
    pub url : IsLine n.url
    pub compression : IsLine n.compression
    pub nar_size : n.nar_size < u64_mod
    pub references : All (IsPlain d) n.references
    pub deriver : IsPlainOption d n.deriver
    pub signatures : All IsLine n.signatures
    pub ca : IsLineOption (ca_narinfo_string decode n)

  to_string-IsLine : (h : NormalizedNarHash) → IsNormalized h → IsLine (to_string h)
  to_string-IsLine h (kind, spelled) =
      subst (λ a. IsLine (as_str a ++ b':' ∷ h.digest)) (sym kind)
        (All-append _ (text "sha256:") h.digest (omega arith) (IsBase32-IsLine h.digest spelled))

  module _ (decode_bytes : (t : Text) (bs : List ℕ) → decode t ≡ ok bs → IsBytes bs) where
    -- If the decoder gives bytes, a writable narinfo whose hash has the normal form `h` is rendered, and reading the text gives
    -- the narinfo back, with the hash in its normal form, the references and signatures sorted and
    -- the content address as its text.
    pub parse_narinfo-render :
        (d : StoreDir) (n : NarInfo) (h : NormalizedNarHash)
        → IsWritable d n
        → normalized_nar_hash decode n ≡ ok h
        → (t : Text) × (render decode d n ≡ ok t) × (parse_narinfo d t ≡ ok (read_back n h))
    unfolding render render_with_signatures parse_narinfo
    parse_narinfo-render d n h w normal =
        let m = read_back n h in
        let hash_line =
          to_string-IsLine h (from_nix_hash_normal decode decode_bytes n.nar_hash normal) in
        let refs = sort-All (IsPlain d) n.references w.references in
        let sigs = sort-All IsLine n.signatures w.signatures in
        let tail =
          deriver_line d m.deriver
          ++ (sig_lines m.signatures ++ ca_line (ca_narinfo_string decode n)) in
        let head =
          read_head d w.store_dir m (to_string h) tail refl hash_line w.store_path w.url
            w.compression w.nar_size refs in
        let rest = read_tail d w.store_dir m (ca_narinfo_string decode n) w.deriver sigs w.ca in
        (_, rw normal, ap (λ s. s >>= finish) (head ∙ rest))

  -- The rendered text does not depend on the order of the references and of the signatures.
  pub render-Perm :
      (d : StoreDir) (n : NarInfo) (refs sigs : List Text)
      → Perm refs n.references
      → Perm sigs n.signatures
      → render decode d (record n { references = refs; signatures = sigs }) ≡ render decode d n
  unfolding render render_with_signatures
  render-Perm d n refs sigs p q = rw (sort_eq p, sort_eq q)
