-- ===== src/Tests/Cache.antt =====
-- Runs of the models of depot_path.rs, narinfo.rs and validation.rs of crates/depot-core/src.
use nix_project_cache.Prelude.{◌≡◌, ◌↔◌, refl, none, some, [], ◌∷◌, ok, arith}
use nix_project_cache.Prelude.Text.{Text, text, bytes, is_whitespace}
use nix_project_cache.Nix.Hash
use nix_project_cache.Nix.Hash.{NixHash, nix_base32, to_string, from_nix_hash}
use nix_project_cache.Nix.HashAlgorithm.{sha256}
use nix_project_cache.NarInfo.{NarInfo, normalized_nar_hash, render, parse_narinfo}
use nix_project_cache.NarInfo.Lines.{IsPlain}
use nix_project_cache.NarInfo.RoundTrip.{read_back, IsWritable, parse_narinfo-render, render-Perm}
use nix_project_cache.DepotPath.{zstd, nar, parse_depot_object_path}
use nix_project_cache.DepotPath.Sound.{
  IsRelative, IsNar, nar_path, parse-nar_iff, parse_depot_object_path-IsRelative,
}
use nix_project_cache.Validation.{validate_publish_narinfo}
use nix_project_cache.Validation.Sound.{IsPublishable, validate_publish_narinfo_iff}
use nix_project_cache.Tests.Nix.{
  all_words, nix_store, nix_store-IsNormal, hash_text, hello_path, test_hash, test_digest,
  test_digest-IsBase32, plain_decode, plain_decode-IsBytes,
}
use nix_project_cache.Tests.Patterns.{matcher, matcher-ArePatterns}
use mathlib.Core.List.Perm

abbrev pub nar_url_text : Text
nar_url_text = nar_path test_digest zstd

parse-nar_iff_example :
    (parse_depot_object_path matcher nar_url_text ≡ some (nar test_digest zstd))
    ↔ IsNar nar_url_text test_digest zstd
parse-nar_iff_example = parse-nar_iff matcher matcher-ArePatterns nar_url_text test_digest zstd

pub nar_url-parse : parse_depot_object_path matcher nar_url_text ≡ some (nar test_digest zstd)
unfolding IsNar
nar_url-parse =
    (parse-nar_iff matcher matcher-ArePatterns nar_url_text test_digest zstd).1
      (refl, refl, test_digest-IsBase32)

parse_depot_object_path-IsRelative_example : IsRelative nar_url_text
parse_depot_object_path-IsRelative_example =
    parse_depot_object_path-IsRelative matcher nar_url_text {o = nar test_digest zstd} nar_url-parse

abbrev other_path : Text
other_path = text "/nix/store/00000000000000000000000000000000-glibc"

abbrev pub published : NarInfo
published = record {
  store_path = hello_path;
  url = nar_url_text;
  compression = text "zstd";
  nar_hash = NixHash.structured sha256 (some nix_base32) test_digest;
  nar_size = 1234;
  references = hello_path ∷ other_path ∷ [];
  deriver = some other_path;
  signatures = text "cache-1:abc" ∷ text "another:def" ∷ [];
  ca = none;
}

validate_publish_narinfo_iff_example :
    (validate_publish_narinfo matcher plain_decode nix_store published
      ≡ ok (record { as_str = hash_text }))
    ↔ IsPublishable matcher plain_decode nix_store published (record { as_str = hash_text })
validate_publish_narinfo_iff_example =
    validate_publish_narinfo_iff matcher plain_decode nix_store published
      (record { as_str = hash_text })

published-hash : normalized_nar_hash plain_decode published ≡ ok test_hash
unfolding from_nix_hash Hash.new Hash.validate_nix32_text_digest Hash.is_valid_nix_base32_alphabet
    bytes
published-hash = refl

hello-IsPlain : IsPlain nix_store hello_path
unfolding is_whitespace
hello-IsPlain = record {
  first = b'p';
  more = text "4pclmv1gyja5kzc26npqpia1qqxrf0l-ruby-2.7.3";
  below = refl;
  not_slash = omega arith;
  word = all_words (b'p' ∷ text "4pclmv1gyja5kzc26npqpia1qqxrf0l-ruby-2.7.3") refl;
}

other-IsPlain : IsPlain nix_store other_path
unfolding is_whitespace
other-IsPlain = record {
  first = b'0';
  more = text "0000000000000000000000000000000-glibc";
  below = refl;
  not_slash = omega arith;
  word = all_words (b'0' ∷ text "0000000000000000000000000000000-glibc") refl;
}

published-IsWritable : IsWritable plain_decode nix_store published
published-IsWritable = record {
  store_dir = nix_store-IsNormal;
  store_path = omega arith;
  url = omega arith;
  compression = omega arith;
  nar_size = omega arith;
  references = (hello-IsPlain, (other-IsPlain, tt));
  deriver = other-IsPlain;
  signatures = omega arith;
  ca = tt;
}

parse_narinfo-render_example :
    (t : Text) × (render plain_decode nix_store published ≡ ok t)
    × (parse_narinfo nix_store t ≡ ok (read_back plain_decode published test_hash))
parse_narinfo-render_example =
    parse_narinfo-render plain_decode plain_decode-IsBytes nix_store published test_hash
      published-IsWritable published-hash

render-Perm_example :
    render plain_decode nix_store (record published {
      references = other_path ∷ hello_path ∷ [];
      signatures = text "cache-1:abc" ∷ text "another:def" ∷ [];
    })
    ≡ render plain_decode nix_store published
render-Perm_example =
    render-Perm plain_decode nix_store published (other_path ∷ hello_path ∷ [])
      (text "cache-1:abc" ∷ text "another:def" ∷ []) (Perm.swap hello_path other_path [])
      (Perm.refl (text "cache-1:abc" ∷ text "another:def" ∷ []))
