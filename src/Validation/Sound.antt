-- ===== src/Validation/Sound.antt =====
-- `validate_publish_narinfo` accepts exactly the narinfos that can be published.
use nix_project_cache.Prelude.{
  ℕ, ◌≡◌, refl, sym, ap, ap₂, ◌∙◌, ◌↔◌, Bool, true, not, ◌||◌, Option, none, some, List, [], ◌∷◌,
  Result, ok, ok_or, ok_or-ok, map_err, map_err-ok, guard, guard-ok, bind-ok, ok_inj, ◌>>=◌, ◌>>◌,
  All, arith,
}
use nix_project_cache.Prelude.Text.{Text, text_eq, text_eq_iff, text_eq_refl}
use nix_project_cache.Nix.StoreDir.{StoreDir, contains_path, contains_path_iff, IsInside}
use nix_project_cache.Nix.StorePath.{StorePathHash, parse_from_store_path}
use nix_project_cache.Nix.Hash.{NormalizedNarHash}
use nix_project_cache.DepotPath.{
  NarCompression, from_narinfo_compression, narinfo_compression, nar, Patterns,
  parse_depot_object_path,
}
use nix_project_cache.NarInfo.{NarInfo, normalized_nar_hash}
use nix_project_cache.Validation.{
  PublishNarInfoValidationError, store_path_outside_store_dir, invalid_store_path_hash,
  unsupported_compression, compression_mismatch, invalid_nar_hash, url_does_not_match_nar_hash,
  reference_outside_store_dir, invalid_reference_store_path, deriver_outside_store_dir,
  invalid_deriver_store_path, compression_eq, nar_url, validate_reference, validate_references,
  validate_deriver, parse_nar_url, check_url, check_compression, check_hash,
  validate_publish_narinfo,
}

-- A path of the store: inside the store directory, with a hash.
abbrev pub IsStorePath : StoreDir → Text → Type 0
IsStorePath d path = IsInside d path × ((v : StorePathHash) × (parse_from_store_path path ≡ ok v))

abbrev pub IsDeriver : StoreDir → Option Text → Type 0
IsDeriver d none = Unit {0}
IsDeriver d (some path) = IsStorePath d path

module _ {ℓ} {D : Type ℓ} where
  validate_reference_sound :
      (d : StoreDir) (r : Text) {u : Unit {0}}
      → validate_reference {D = D} d r ≡ ok u
      → IsStorePath d r
  unfolding validate_reference
  validate_reference_sound d r e =
      let (u, inside, rest) =
        bind-ok (guard (contains_path d r) (reference_outside_store_dir d.path r))
          (λ _. map_err (invalid_reference_store_path r) (parse_from_store_path r) >> ok tt) e in
      let (v, parsed, done) =
        bind-ok (map_err (invalid_reference_store_path r) (parse_from_store_path r)) (λ _. ok tt)
          rest in
      ((contains_path_iff d r).0 (guard-ok _ _ inside), (v, map_err-ok _ _ parsed))

  validate_reference_complete :
      (d : StoreDir) (r : Text) → IsStorePath d r → validate_reference {D = D} d r ≡ ok tt
  unfolding validate_reference
  validate_reference_complete d r (inside, (v, parsed)) =
      let inside' = (contains_path_iff d r).1 inside in rw (inside', parsed)

  validate_references_sound :
      (d : StoreDir) (rs : List Text) {u : Unit {0}}
      → validate_references {D = D} d rs ≡ ok u
      → All (IsStorePath d) rs
  unfolding validate_references
  validate_references_sound d [] e = tt
  validate_references_sound d (r ∷ rs) e =
      let (u, first, rest) =
        bind-ok (validate_reference {D = D} d r) (λ _. validate_references d rs) e in
      (validate_reference_sound d r first, validate_references_sound d rs rest)

  validate_references_complete :
      (d : StoreDir) (rs : List Text)
      → All (IsStorePath d) rs
      → validate_references {D = D} d rs ≡ ok tt
  unfolding validate_references
  validate_references_complete d [] h = refl
  validate_references_complete d (r ∷ rs) h =
      ap (λ m. m >> validate_references {D = D} d rs) (validate_reference_complete d r h.0)
      ∙ validate_references_complete d rs h.1

  validate_deriver_sound :
      (d : StoreDir) (o : Option Text) {u : Unit {0}}
      → validate_deriver {D = D} d o ≡ ok u
      → IsDeriver d o
  unfolding validate_deriver
  validate_deriver_sound d none e = tt
  validate_deriver_sound d (some r) e =
      let (u, inside, rest) =
        bind-ok (guard (contains_path d r) (deriver_outside_store_dir d.path r))
          (λ _. map_err (invalid_deriver_store_path r) (parse_from_store_path r) >> ok tt) e in
      let (v, parsed, done) =
        bind-ok (map_err (invalid_deriver_store_path r) (parse_from_store_path r)) (λ _. ok tt)
          rest in
      ((contains_path_iff d r).0 (guard-ok _ _ inside), (v, map_err-ok _ _ parsed))

  validate_deriver_complete :
      (d : StoreDir) (o : Option Text) → IsDeriver d o → validate_deriver {D = D} d o ≡ ok tt
  unfolding validate_deriver
  validate_deriver_complete d none h = refl
  validate_deriver_complete d (some r) (inside, (v, parsed)) =
      let inside' = (contains_path_iff d r).1 inside in rw (inside', parsed)

compression_eq_iff : (a b : NarCompression) → (compression_eq a b ≡ true) ↔ (a ≡ b)
compression_eq_iff a b = ground arith

both_hold : (a b : Bool) → not (not a || not b) ≡ true → (a ≡ true) × (b ≡ true)
both_hold a b e = ground arith

module _ {ℓ} {D : Type ℓ} (re : Patterns) where
  parse_nar_url_iff :
      (url digest : Text) (c : NarCompression)
      → (parse_nar_url {D = D} re url ≡ ok (digest, c))
        ↔ (parse_depot_object_path re url ≡ some (nar digest c))
  unfolding parse_nar_url
  parse_nar_url_iff url digest c = (λ e. ground arith, λ e. rw (e, parse_nar_url))

  module _ (decode : Text → Result D (List ℕ)) where
    -- The URL names the NAR by its hash and the compression that the narinfo gives.
    pub record HasNarUrl (n : NarInfo) : Type ℓ where
      pub hash : NormalizedNarHash
      pub method : NarCompression
      pub normalized : normalized_nar_hash decode n ≡ ok hash
      pub known : from_narinfo_compression n.compression ≡ some method
      pub spelled : n.url ≡ nar_url hash method
      pub is_nar : parse_depot_object_path re n.url ≡ some (nar hash.digest method)

    check_url_sound :
        (n : NarInfo) (digest : Text) (c : NarCompression) {u : Unit {0}}
        → parse_depot_object_path re n.url ≡ some (nar digest c)
        → check_url re decode n digest c ≡ ok u
        → HasNarUrl n
    unfolding check_url check_compression check_hash
    check_url_sound n digest c is_nar e =
        let (method, known, rest) =
          bind-ok
            (ok_or (from_narinfo_compression n.compression) (unsupported_compression n.compression))
            (check_compression re decode n digest c) e in
        let (u, same, rest') =
          bind-ok
            (guard (compression_eq method c)
              (compression_mismatch n.compression (narinfo_compression c)))
            (λ _. check_hash re decode n digest method) rest in
        let (hash, normalized, matched) =
          bind-ok (map_err (invalid_nar_hash n.store_path) (normalized_nar_hash decode n))
            (λ hash.
              guard
                (not
                  (not (text_eq n.url (nar_url hash method)) || not (text_eq digest hash.digest)))
                (url_does_not_match_nar_hash n.url (nar_url hash method)))
            rest' in
        let same_method : method ≡ c = (compression_eq_iff method c).0 (guard-ok _ _ same) in
        let both = both_hold _ _ (guard-ok _ _ matched) in
        let same_digest : digest ≡ hash.digest = (text_eq_iff digest hash.digest).0 both.1 in
        record {
          hash = hash;
          method = method;
          normalized = map_err-ok _ _ normalized;
          known = ok_or-ok _ _ known;
          spelled = (text_eq_iff n.url (nar_url hash method)).0 both.0;
          is_nar = is_nar ∙ ap₂ (λ x y. some (nar x y)) same_digest (sym same_method);
        }

    check_url_complete :
        (n : NarInfo) (h : HasNarUrl n) → check_url re decode n h.hash.digest h.method ≡ ok tt
    unfolding check_url check_compression check_hash
    check_url_complete n h =
        rw
          (
            h.known,
            (compression_eq_iff h.method h.method).1 refl,
            check_compression,
            h.normalized,
            check_hash,
          )
          (rw
            ((text_eq_iff n.url (nar_url h.hash h.method)).1 h.spelled, text_eq_refl h.hash.digest))

    -- What a narinfo satisfies that may be published under the store path hash `v`.
    pub record IsPublishable (d : StoreDir) (n : NarInfo) (v : StorePathHash) : Type ℓ where
      pub inside : IsInside d n.store_path
      pub hashed : parse_from_store_path n.store_path ≡ ok v
      pub named : HasNarUrl n
      pub references : All (IsStorePath d) n.references
      pub deriver : IsDeriver d n.deriver

    rest_of :
        StoreDir
        → NarInfo
        → StorePathHash
        → Text × NarCompression
        → Result (PublishNarInfoValidationError D) StorePathHash
    rest_of d n v url = do
      check_url re decode n url.0 url.1
      validate_references d n.references
      validate_deriver d n.deriver
      ok v

    rest_sound :
        (d : StoreDir) (n : NarInfo) (v w : StorePathHash) (digest : Text) (c : NarCompression)
        → IsInside d n.store_path
        → parse_from_store_path n.store_path ≡ ok v
        → parse_depot_object_path re n.url ≡ some (nar digest c)
        → rest_of d n v (digest, c) ≡ ok w
        → IsPublishable d n w
    unfolding rest_of
    rest_sound d n v w digest c inside hashed is_nar e =
        let (u, checked, e') =
          bind-ok (check_url re decode n digest c)
            (λ _. validate_references d n.references >> (validate_deriver d n.deriver >> ok v)) e in
        let (u', refs, e'') =
          bind-ok (validate_references d n.references) (λ _. validate_deriver d n.deriver >> ok v)
            e' in
        let (u'', der, done) = bind-ok (validate_deriver d n.deriver) (λ _. ok v) e'' in
        record {
          inside = inside;
          hashed = hashed ∙ ap (λ x. ok x) (ok_inj done);
          named = check_url_sound n digest c is_nar checked;
          references = validate_references_sound d n.references refs;
          deriver = validate_deriver_sound d n.deriver der;
        }

    validate_sound :
        (d : StoreDir) (n : NarInfo) (w : StorePathHash)
        → validate_publish_narinfo re decode d n ≡ ok w
        → IsPublishable d n w
    unfolding validate_publish_narinfo rest_of
    validate_sound d n w e =
        let (u, inside, e') =
          bind-ok
            (guard (contains_path d n.store_path)
              (store_path_outside_store_dir d.path n.store_path))
            (λ _.
              map_err (invalid_store_path_hash n.store_path) (parse_from_store_path n.store_path)
              >>= λ v. parse_nar_url re n.url >>= λ url. rest_of d n v url)
            e in
        let (v, hashed, e'') =
          bind-ok
            (map_err (invalid_store_path_hash n.store_path) (parse_from_store_path n.store_path))
            (λ v. parse_nar_url re n.url >>= λ url. rest_of d n v url) e' in
        let (url, is_nar, e''') =
          bind-ok (parse_nar_url {D = D} re n.url) (λ url. rest_of d n v url) e'' in
        rest_sound d n v w url.0 url.1 ((contains_path_iff d n.store_path).0 (guard-ok _ _ inside))
          (map_err-ok _ _ hashed) ((parse_nar_url_iff n.url url.0 url.1).0 is_nar) e'''

    validate_complete :
        (d : StoreDir) (n : NarInfo) (w : StorePathHash)
        → IsPublishable d n w
        → validate_publish_narinfo re decode d n ≡ ok w
    unfolding validate_publish_narinfo
    validate_complete d n w h =
        let inside = (contains_path_iff d n.store_path).1 h.inside in
        let is_nar =
          (parse_nar_url_iff n.url h.named.hash.digest h.named.method).1 h.named.is_nar in
        rw (
          inside,
          h.hashed,
          is_nar,
          check_url_complete n h.named,
          validate_references_complete {D = D} d n.references h.references,
          validate_deriver_complete {D = D} d n.deriver h.deriver,
        )

    -- A narinfo is accepted, with the hash of its store path, exactly if the store path, the
    -- references and the deriver are paths of the store, and the URL is that of the NAR with the
    -- narinfo's own hash and compression.
    pub validate_publish_narinfo_iff :
        (d : StoreDir) (n : NarInfo) (w : StorePathHash)
        → (validate_publish_narinfo re decode d n ≡ ok w) ↔ IsPublishable d n w
    validate_publish_narinfo_iff d n w = (validate_sound d n w, validate_complete d n w)
