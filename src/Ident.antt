-- ===== src/Ident.antt =====
-- Checked identifiers: `StorageId` of crates/depot-core/src/storage.rs and `ProjectSlug` of
-- crates/depot-core/src/project.rs.
use nix_project_cache.Prelude.{
  ℕ, ◌≡◌, ◌≢◌, ◌<◌, ◌↔◌, refl, sym, ap, subst, ◌∙◌, Bool, true, false, not, ◌&&◌, ◌||◌, [], ◌∷◌,
  Result, ok, ◌>>◌, guard, guard-ok, bind-ok, all, arith, ok_inj, ◌==◌, leb, and-split,
}
use nix_project_cache.Prelude.Text.{Text, text_eq, text_eq_refl, text_eq_iff, bytes, is_whitespace}
use nix_project_cache.Prelude.Text.Ascii.{all-bytes}
use nix_project_cache.Prelude.Text.Search.{trim, IsWord, trim_word}

pub data StorageIdError : Type 0 where
  empty : StorageIdError
  invalid : Text → StorageIdError

pub record StorageId : Type 0 where
  pub value : Text

unfoldable pub is_id_byte : ℕ → Bool
is_id_byte c =
    (leb b'0' c && leb c b'9')
    || (leb b'A' c && leb c b'Z')
    || (leb b'a' c && leb c b'z')
    || c == b'.'
    || c == b'_'
    || c == b'-'

unfoldable pub new : Text → Result StorageIdError StorageId
new value = do
  guard (not (text_eq (trim value) [])) empty
  guard (text_eq (trim value) value) (invalid value)
  guard (all is_id_byte (bytes (trim value))) (invalid value)
  ok (record { value = value })

pub data ProjectSlugError : Type 0 where
  invalid_slug : ProjectSlugError

pub record ProjectSlug : Type 0 where
  pub slug : Text

unfoldable pub is_slug_byte : ℕ → Bool
is_slug_byte c = (leb b'a' c && leb c b'z') || (leb b'0' c && leb c b'9') || c == b'-' || c == b'_'

unfoldable pub parse : Text → Result ProjectSlugError ProjectSlug
parse input = do
  guard (not (text_eq input []) && all is_slug_byte (bytes input)) invalid_slug
  ok (record { slug = input })

id_ascii : (c : ℕ) → is_id_byte c ≡ true → c < 128
unfolding is_id_byte
id_ascii c h = ground arith

slug_ascii : (c : ℕ) → is_slug_byte c ≡ true → c < 128
unfolding is_slug_byte
slug_ascii c h = ground arith

slug_is_id : (c : ℕ) → is_slug_byte c ≡ true → is_id_byte c ≡ true
unfolding is_slug_byte is_id_byte
slug_is_id c h = ground arith

id_not_blank : (c : ℕ) → is_id_byte c ≡ true → is_whitespace c ≡ false
unfolding is_id_byte is_whitespace
id_not_blank c h = ground arith

id-IsWord : (s : Text) → all is_id_byte s ≡ true → IsWord s
id-IsWord [] h = tt
id-IsWord (c ∷ s) h =
    let (first, rest) = and-split (is_id_byte c) (all is_id_byte s) h in
    (id_not_blank c first, id-IsWord s rest)

not_empty : (s : Text) → s ≢ [] → text_eq s [] ≡ false
unfolding text_eq
not_empty [] h = absurd (h refl)
not_empty (c ∷ s) h = refl

empty_text : (s : Text) → text_eq s [] ≡ false → s ≢ []
unfolding text_eq
empty_text [] h e = cc
empty_text (c ∷ s) h e = cc

not-true : (b : Bool) → not b ≡ true → b ≡ false
not-true b h = ground arith

checked :
    (s : Text) {i : StorageId}
    → new s ≡ ok i
    → (text_eq (trim s) [] ≡ false)
      × (text_eq (trim s) s ≡ true)
      × (all is_id_byte (bytes (trim s)) ≡ true)
      × (record { value = s } ≡ i)
unfolding new
checked s {i} e =
    let (u, a, e1) =
      bind-ok (guard (not (text_eq (trim s) [])) StorageIdError.empty)
        (λ x.
          guard (text_eq (trim s) s) (invalid s)
          >> (guard (all is_id_byte (bytes (trim s))) (invalid s) >> ok (record { value = s })))
        e in
    let (v, b, e2) =
      bind-ok (guard (text_eq (trim s) s) (invalid s))
        (λ x. guard (all is_id_byte (bytes (trim s))) (invalid s) >> ok (record { value = s }))
        e1 in
    let (w, c, e3) =
      bind-ok (guard (all is_id_byte (bytes (trim s))) (invalid s)) (λ x. ok (record { value = s }))
        e2 in
    (not-true _ (guard-ok _ _ a), guard-ok _ _ b, guard-ok _ _ c, ok_inj e3)

-- `StorageId::new` accepts exactly the texts that have characters, all of them ASCII letters,
-- digits, ".", "_" or "-", and keeps the text as it is.
new_iff :
    (s : Text) (i : StorageId)
    → (new s ≡ ok i) ↔ ((s ≢ []) × (all is_id_byte s ≡ true) × (record { value = s } ≡ i))
unfolding new
new_iff s i = (
  λ e.
      let (some_char, same, ascii, made) = checked s e in
      let kept : trim s ≡ s = (text_eq_iff (trim s) s).0 same in
      (
        empty_text s (subst (λ t. text_eq t [] ≡ false) kept some_char),
        sym (all-bytes is_id_byte id_ascii s)
            ∙ subst (λ t. all is_id_byte (bytes t) ≡ true) kept ascii,
        made,
      ),
  λ h.
      let word = trim_word s (id-IsWord s h.1) in
      rw (word, not_empty s h.0, text_eq_refl s, all-bytes is_id_byte id_ascii s, h.1) (ap ok h.2),
)

all_slug_id : (s : Text) → all is_slug_byte s ≡ true → all is_id_byte s ≡ true
all_slug_id [] h = refl
all_slug_id (c ∷ s) h =
    let (first, rest) = and-split (is_slug_byte c) (all is_slug_byte s) h in
    rw (slug_is_id c first, all_slug_id s rest)

-- Every text that `ProjectSlug::parse` accepts is also a storage id.
parse-new : (s : Text) {p : ProjectSlug} → parse s ≡ ok p → new s ≡ ok (record { value = s })
unfolding parse
parse-new s {p} e =
    let (u, a, made) =
      bind-ok (guard (not (text_eq s []) && all is_slug_byte (bytes s)) invalid_slug)
        (λ x. ok (record { slug = s })) e in
    let (some_char, slug) =
      and-split (not (text_eq s [])) (all is_slug_byte (bytes s)) (guard-ok _ _ a) in
    (new_iff s (record { value = s })).1 (
      empty_text s (not-true _ some_char),
      all_slug_id s (sym (all-bytes is_slug_byte slug_ascii s) ∙ slug),
      refl,
    )
