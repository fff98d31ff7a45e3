-- ===== src/Nix/ContentAddress.antt =====
-- Content addresses, and the forms in which `nix path-info` gives hashes and content addresses, of
-- crates/depot-core/src/nix.rs. The JSON reader is serde's; its result is the `…Repr` types.
use nix_project_cache.Prelude.{ℕ, Option, ok, err, Result, List, ◌++◌, if◌then◌else◌}
use nix_project_cache.Prelude.Text.{Text, text, text_eq}
use nix_project_cache.Nix.HashAlgorithm
use nix_project_cache.Nix.Hash.{
  NixHash, NormalizedNarHash, NixHashError, from_nix_hash, to_string, render_text, parse_encoding,
}
use mathlib.Core.Option

pub data ContentAddressMethod : Type 0 where
  text_method flat nar git : ContentAddressMethod
  other : Text → ContentAddressMethod

unfoldable pub parse : Text → ContentAddressMethod
unfolding text_eq
parse value =
    if text_eq value (text "text")
    then text_method
    else if text_eq value (text "flat")
    then flat
    else if text_eq value (text "nar")
    then nar
    else if text_eq value (text "git")
    then git
    else other value

pub data NixContentAddress : Type 0 where
  raw : Text → NixContentAddress
  structured : ContentAddressMethod → NixHash → NixContentAddress

pub data HashRepr : Type 0 where
  raw : Text → HashRepr
  structured : Text → Option Text → Text → HashRepr  -- algorithm, format, hash

unfoldable pub hash_of_repr : HashRepr → NixHash
hash_of_repr (HashRepr.raw t) = NixHash.raw t
hash_of_repr (HashRepr.structured algorithm format hash) =
    NixHash.structured (HashAlgorithm.parse algorithm) (Option.map parse_encoding format) hash

pub data ContentAddressRepr : Type 0 where
  raw : Text → ContentAddressRepr
  structured : Text → HashRepr → ContentAddressRepr  -- method, hash

unfoldable pub content_address_of_repr : ContentAddressRepr → NixContentAddress
unfolding hash_of_repr
content_address_of_repr (ContentAddressRepr.raw t) = NixContentAddress.raw t
content_address_of_repr (ContentAddressRepr.structured method hash) =
    NixContentAddress.structured (parse method) (hash_of_repr hash)

abbrev with_method : ContentAddressMethod → Text → Text
with_method text_method hash = text "text:" ++ hash
with_method flat hash = text "fixed:" ++ hash
with_method nar hash = text "fixed:r:" ++ hash
with_method git hash = text "fixed:git:" ++ hash
with_method (other name) hash = name ++ text ":" ++ hash

abbrev normal_text_or {ℓ} : {D : Type ℓ} → Result (NixHashError D) NormalizedNarHash → Text → Text
normal_text_or (ok h) fallback = to_string h
normal_text_or (err e) fallback = fallback

module _ {ℓ} {D : Type ℓ} (decode : Text → Result D (List ℕ)) where
  unfoldable pub format_for_narinfo : NixContentAddress → Text
  format_for_narinfo (NixContentAddress.raw t) = t
  format_for_narinfo (NixContentAddress.structured method hash) =
      with_method method (normal_text_or (from_nix_hash decode hash) (render_text hash))
