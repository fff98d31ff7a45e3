-- ===== src/NarInfo.antt =====
-- crates/depot-core/src/narinfo.rs: reading and writing `.narinfo` files.
pub mod Lines
pub mod RoundTrip
use nix_project_cache.Prelude.{
  ℕ, ◌+◌, ◌≡◌, Bool, true, false, Option, none, some, List, [], ◌∷◌, ◌++◌, map, Result, ok, err,
  ok_or, guard, ◌>>=◌, ◌>>◌, not, if◌then◌else◌, is_some,
}
use nix_project_cache.Prelude.Text.{Text, text, text_eq}
use nix_project_cache.Prelude.Text.Search.{
  strip_prefix, lines, split_whitespace, trim, contains_char, spaced,
}
use nix_project_cache.Prelude.Text.Order.{sort}
use nix_project_cache.Prelude.Text.Decimal.{parse_u64, show_u64}
use nix_project_cache.Nix.StoreDir.{StoreDir, display_path, expand_display_path}
use nix_project_cache.Nix.Hash.{NixHash, NixHashError, NormalizedNarHash, from_nix_hash, to_string}
use nix_project_cache.Nix.ContentAddress.{NixContentAddress, format_for_narinfo}
use mathlib.Core.Option

pub record NarInfo : Type 0 where
  pub store_path : Text
  pub url : Text
  pub compression : Text
  pub nar_hash : NixHash
  pub nar_size : ℕ  -- u64
  pub references : List Text
  pub deriver : Option Text
  pub signatures : List Text
  pub ca : Option NixContentAddress

pub data ParseNarInfoError : Type 0 where
  invalid_line : Text → ParseNarInfoError
  duplicate_field : Text → ParseNarInfoError
  missing_field : Text → ParseNarInfoError
  invalid_nar_size : Text → ParseNarInfoError

-- The local variables of `parse_narinfo`.
pub record Slots : Type 0 where
  pub store_path : Option Text
  pub url : Option Text
  pub compression : Option Text
  pub nar_hash : Option NixHash
  pub nar_size : Option ℕ
  pub references : Option (List Text)
  pub deriver : Option Text
  pub signatures : List Text
  pub ca : Option NixContentAddress

abbrev pub no_slots : Slots
no_slots = record {
  store_path = none;
  url = none;
  compression = none;
  nar_hash = none;
  nar_size = none;
  references = none;
  deriver = none;
  signatures = [];
  ca = none;
}

-- `set_once`: the new contents of the slot.
abbrev pub set_once {ℓ} : {T : Type ℓ} → Option T → T → Text → Result ParseNarInfoError (Option T)
set_once (some old) value field_name = err (duplicate_field field_name)
set_once none value field_name = ok (some value)

-- The fields, in the order in which a line is tried.
pub data Field : Type 0 where
  store_path url compression nar_hash nar_size references deriver sig ca : Field

abbrev pub prefix_of : Field → Text
prefix_of store_path = text "StorePath: "
prefix_of url = text "URL: "
prefix_of compression = text "Compression: "
prefix_of nar_hash = text "NarHash: "
prefix_of nar_size = text "NarSize: "
prefix_of references = text "References:"
prefix_of deriver = text "Deriver: "
prefix_of sig = text "Sig: "
prefix_of ca = text "CA: "

abbrev pub all_fields : List Field
all_fields =
    store_path ∷ url ∷ compression ∷ nar_hash ∷ nar_size ∷ references ∷ deriver ∷ sig ∷ ca ∷ []

-- The `if let Some(value) = raw_line.strip_prefix(…)` ladder: the first field that fits, and the value.
find_field : List Field → Text → Option (Field × Text)
find_field [] line = none
find_field (f ∷ fs) line = elim (strip_prefix (prefix_of f) line) [
  | some value ↦ some (f, value)
  | none ↦ find_field fs line
]

parse_references : StoreDir → Text → List Text
parse_references store_dir value =
    if text_eq (trim value) []
    then []
    else map (expand_display_path store_dir) (split_whitespace value)

-- The body of each branch of the ladder.
pub set_field : StoreDir → Field → Text → Slots → Result ParseNarInfoError Slots
unfolding parse_references
set_field store_dir store_path value s = do
  slot ← set_once s.store_path value (text "StorePath")
  ok (record s { store_path = slot })
set_field store_dir url value s = do
  slot ← set_once s.url value (text "URL")
  ok (record s { url = slot })
set_field store_dir compression value s = do
  slot ← set_once s.compression value (text "Compression")
  ok (record s { compression = slot })
set_field store_dir nar_hash value s = do
  slot ← set_once s.nar_hash (NixHash.raw value) (text "NarHash")
  ok (record s { nar_hash = slot })
set_field store_dir nar_size value s = do
  parsed ← ok_or (parse_u64 value) (invalid_nar_size value)
  slot ← set_once s.nar_size parsed (text "NarSize")
  ok (record s { nar_size = slot })
set_field store_dir references value s = do
  slot ← set_once s.references (parse_references store_dir value) (text "References")
  ok (record s { references = slot })
set_field store_dir deriver value s = do
  slot ← set_once s.deriver (expand_display_path store_dir value) (text "Deriver")
  ok (record s { deriver = slot })
set_field store_dir sig value s = ok (record s { signatures = s.signatures ++ value ∷ [] })
set_field store_dir ca value s = do
  slot ← set_once s.ca (NixContentAddress.raw value) (text "CA")
  ok (record s { ca = slot })

-- One round of the loop over the lines.
unfoldable pub parse_line : StoreDir → Text → Slots → Result ParseNarInfoError Slots
unfolding find_field set_field
parse_line store_dir [] s = ok s
parse_line store_dir (c ∷ line) s = elim (find_field all_fields (c ∷ line)) [
  | some (field, value) ↦ set_field store_dir field value s
  | none ↦ if contains_char b':' (c ∷ line) then ok s else err (invalid_line (c ∷ line))
]

pub parse_lines : StoreDir → List Text → Slots → Result ParseNarInfoError Slots
parse_lines store_dir [] s = ok s
parse_lines store_dir (line ∷ rest) s = do
  s' ← parse_line store_dir line s
  parse_lines store_dir rest s'

abbrev finish : Slots → Result ParseNarInfoError NarInfo
finish s = do
  store_path' ← ok_or s.store_path (missing_field (text "StorePath"))
  url' ← ok_or s.url (missing_field (text "URL"))
  compression' ← ok_or s.compression (missing_field (text "Compression"))
  nar_hash' ← ok_or s.nar_hash (missing_field (text "NarHash"))
  nar_size' ← ok_or s.nar_size (missing_field (text "NarSize"))
  references' ← ok_or s.references (missing_field (text "References"))
  ok (record {
    store_path = store_path';
    url = url';
    compression = compression';
    nar_hash = nar_hash';
    nar_size = nar_size';
    references = references';
    deriver = s.deriver;
    signatures = s.signatures;
    ca = s.ca;
  })

unfoldable pub parse_narinfo : StoreDir → Text → Result ParseNarInfoError NarInfo
unfolding parse_lines
parse_narinfo store_dir input = do s ← parse_lines store_dir (lines input) no_slots; finish s

-- `writeln!` of a field.
abbrev pub line_of : Field → Text → Text
line_of field value = prefix_of field ++ (value ++ 10 ∷ [])

abbrev sorted_references : NarInfo → List Text
sorted_references n = sort n.references

abbrev pub sorted_signatures : NarInfo → List Text
sorted_signatures n = sort n.signatures

-- What follows "References:" on its line.
abbrev pub reference_list : StoreDir → List Text → Text
reference_list store_dir [] = text " "
reference_list store_dir (r ∷ refs) = spaced (map (display_path store_dir) (r ∷ refs))

abbrev pub deriver_line : StoreDir → Option Text → Text
deriver_line store_dir none = []
deriver_line store_dir (some path) = line_of deriver (display_path store_dir path)

abbrev pub sig_lines : List Text → Text
sig_lines [] = []
sig_lines (s ∷ sigs) = line_of sig s ++ sig_lines sigs

abbrev pub ca_line : Option Text → Text
ca_line none = []
ca_line (some value) = line_of ca value

-- `decode` is the base64 crate's decoder.
module _ {ℓ} {D : Type ℓ} (decode : Text → Result D (List ℕ)) where
  abbrev pub normalized_nar_hash : NarInfo → Result (NixHashError D) NormalizedNarHash
  normalized_nar_hash n = from_nix_hash decode n.nar_hash

  abbrev pub ca_narinfo_string : NarInfo → Option Text
  ca_narinfo_string n = Option.map (format_for_narinfo decode) n.ca

  unfoldable pub render_with_signatures :
      StoreDir → NarInfo → List Text → Result (NixHashError D) Text
  render_with_signatures store_dir n signatures = do
    hash ← normalized_nar_hash n
    ok (
        line_of store_path n.store_path
        ++ (line_of url n.url
            ++ (line_of compression n.compression
                ++ (line_of nar_hash (to_string hash)
                    ++ (line_of nar_size (show_u64 n.nar_size)
                        ++ (line_of references (reference_list store_dir (sorted_references n))
                            ++ (deriver_line store_dir n.deriver
                                ++ (sig_lines (sort signatures)
                                    ++ ca_line (ca_narinfo_string n)))))))))

  unfoldable pub render : StoreDir → NarInfo → Result (NixHashError D) Text
  unfolding render_with_signatures
  render store_dir n = render_with_signatures store_dir n n.signatures
