-- ===== src/NarInfo/Lines.antt =====
-- Single lines of a narinfo: what was written is what is read.
use nix_project_cache.Prelude.{
  ℕ, ◌≡◌, ◌≢◌, refl, sym, ap, ap₂, ◌∙◌, subst, false, none, some, List, [], ◌∷◌, ◌++◌, append_assoc,
  map, ok, ◌>>=◌, if◌then◌else◌, All, All-append, arith,
}
use nix_project_cache.Prelude.Text.{Text, text, text_eq}
use nix_project_cache.Prelude.Text.Search.{
  strip_prefix, lines, lines-append, IsLine, IsWord, IsWords, spaced, split_whitespace,
  split_whitespace-spaced, trim, trim_spaced, trim_blank,
}
use nix_project_cache.Nix.StoreDir.{
  StoreDir, display_path, expand_display_path, IsNormal, expand_display_path-display_path,
}
use nix_project_cache.NarInfo.{
  Slots, Field, prefix_of, all_fields, find_field, parse_references, set_field, parse_line,
  parse_lines, set_once, line_of, reference_list,
}

pub prefix-IsLine : (f : Field) → IsLine (prefix_of f)
prefix-IsLine Field.store_path = omega arith
prefix-IsLine _ = omega arith

find_field-prefix : (f : Field) (v : Text) → find_field all_fields (prefix_of f ++ v) ≡ some (f, v)
unfolding find_field strip_prefix
find_field-prefix Field.store_path v = refl
find_field-prefix _ v = refl

parse_line-line :
    (d : StoreDir) (f : Field) (v : Text) (s : Slots)
    → parse_line d (prefix_of f ++ v) s ≡ set_field d f v s
unfolding parse_line find_field strip_prefix
parse_line-line d Field.store_path v s = refl
parse_line-line d _ v s = refl

-- A line that was written is the next line that is read.
pub next_line :
    (d : StoreDir) (f : Field) (v rest : Text) (s : Slots)
    → IsLine v
    → parse_lines d (lines (line_of f v ++ rest)) s
      ≡ (set_field d f v s >>= parse_lines d (lines rest))
unfolding parse_lines
next_line d f v rest s h =
    let split : line_of f v ++ rest ≡ (prefix_of f ++ v) ++ 10 ∷ rest =
      append_assoc (prefix_of f) (v ++ 10 ∷ []) rest
      ∙ ap (λ t. prefix_of f ++ t) (append_assoc v (10 ∷ []) rest)
      ∙ sym (append_assoc (prefix_of f) v (10 ∷ rest)) in
    ap (λ t. parse_lines d (lines t) s) split
    ∙ ap (λ l. parse_lines d l s)
        (lines-append (prefix_of f ++ v) rest (All-append _ (prefix_of f) v (prefix-IsLine f) h))
    ∙ ap (λ m. m >>= parse_lines d (lines rest)) (parse_line-line d f v s)

-- A store path whose part below the directory is one word.
pub record IsPlain (d : StoreDir) (path : Text) : Type 0 where
  pub first : ℕ
  pub more : Text
  pub below : path ≡ d.path ++ b'/' ∷ first ∷ more
  pub not_slash : first ≢ b'/'
  pub word : IsWord (first ∷ more)

module _ (d : StoreDir) (normal : IsNormal d.path) where
  pub display_plain : (path : Text) (p : IsPlain d path) → display_path d path ≡ p.first ∷ p.more
  display_plain path p =
      ap (display_path d) p.below
      ∙ (expand_display_path-display_path d p.first p.more normal p.not_slash).0

  pub expand_plain :
      (path : Text) → IsPlain d path → expand_display_path d (display_path d path) ≡ path
  expand_plain path p =
      ap (λ t. expand_display_path d (display_path d t)) p.below
      ∙ (expand_display_path-display_path d p.first p.more normal p.not_slash).1
      ∙ sym p.below

  expand-All :
      (refs : List Text)
      → All (IsPlain d) refs
      → map (expand_display_path d) (map (display_path d) refs) ≡ refs
  expand-All [] h = refl
  expand-All (r ∷ refs) h =
      ap₂ (λ x (xs : List Text). x ∷ xs) (expand_plain r h.0) (expand-All refs h.1)

  pub display-IsWords :
      (refs : List Text) → All (IsPlain d) refs → IsWords (map (display_path d) refs)
  display-IsWords [] h = tt
  display-IsWords (r ∷ refs) h =
      let shown = display_plain r h.0 in
      ((λ e. cc, subst IsWord (sym shown) h.0.word), display-IsWords refs h.1)

  blank_no :
      (r rest : Text) → IsPlain d r → text_eq (trim (32 ∷ display_path d r ++ rest)) [] ≡ false
  blank_no r rest p =
      ap (λ t. text_eq (trim (32 ∷ t ++ rest)) []) (display_plain r p)
      ∙ trim_spaced p.first (p.more ++ rest) p.word.0

  read_references :
      (refs : List Text) → All (IsPlain d) refs → parse_references d (reference_list d refs) ≡ refs
  unfolding parse_references
  read_references [] h = rw (trim_blank, parse_references)
  read_references (r ∷ refs) h =
      let words = map (display_path d) (r ∷ refs) in
      ap (λ b. if b then [] else map (expand_display_path d) (split_whitespace (spaced words)))
        (blank_no r (spaced (map (display_path d) refs)) h.0)
      ∙ ap (map (expand_display_path d))
          (split_whitespace-spaced words (display-IsWords (r ∷ refs) h))
      ∙ expand-All (r ∷ refs) h

  pub set_references :
      (refs : List Text) (s : Slots)
      → All (IsPlain d) refs
      → s.references ≡ none
      → set_field d Field.references (reference_list d refs) s
        ≡ ok (record s { references = some refs })
  unfolding set_field
  set_references refs s h empty =
      ap
        (λ v. set_once s.references v (text "References") >>= λ slot.
          ok (record s { references = slot }))
        (read_references refs h)
      ∙ ap
          (λ old.
            set_once old refs (text "References") >>= λ slot. ok (record s { references = slot }))
          empty
