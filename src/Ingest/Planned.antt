-- ===== src/Ingest/Planned.antt =====
-- Which uploads the planner asks for.
use nix_project_cache.Prelude.{
  ◌≡◌, ◌↔◌, refl, sym, ap, subst, ◌∙◌, inl, inr, Bool, true, false, not, Option, none, some, List,
  [], ◌∷◌, ◌++◌, Result, ok, ◌>>=◌, bind-ok, ok_inj, map_err, map_err-ok, All, Bool-cases,
  if◌then◌else◌,
}
use nix_project_cache.Prelude.Text.{Text, text}
use nix_project_cache.Nix.StorePath.{StorePathHash, parse_from_store_path}
use nix_project_cache.DepotPath.{Patterns, parse_depot_object_path}
use nix_project_cache.NarInfo.{NarInfo}
use nix_project_cache.Ingest.{
  upstream_failed, invalid_store_path, storage_failed, IngestError, PlannedUpload, is_nar,
  object_exists_upstream, is_missing, plan_one, plan_required_uploads,
}
use mathlib.Core.List.{Memᴰ}
use mathlib.Core.List.Memᴰ

module _ {X V : Type 0} (head_upstream : V → Text → Result X Bool) (path : Text) where
  -- No upstream has the object, and each has said so.
  abbrev pub IsNowhere : List V → Type 0
  IsNowhere upstreams = All (λ v. head_upstream v path ≡ ok false) upstreams

  not_here :
      {v : V} (upstreams : List V)
      → (object_exists_upstream head_upstream upstreams path ≡ ok false → IsNowhere upstreams)
      → (found : Bool) → head_upstream v path ≡ ok found
      → (if found then ok true else object_exists_upstream head_upstream upstreams path) ≡ ok false
      → IsNowhere (v ∷ upstreams)
  not_here upstreams others true e h = cc
  not_here upstreams others false e h = (e, others h)

  exists_false :
      (upstreams : List V)
      → object_exists_upstream head_upstream upstreams path ≡ ok false
      → IsNowhere upstreams
  unfolding object_exists_upstream
  exists_false [] h = tt
  exists_false (v ∷ upstreams) h =
      let (found, e, h1) =
        bind-ok (map_err upstream_failed (head_upstream v path))
          (λ found. if found then ok true else object_exists_upstream head_upstream upstreams path)
          h in
      not_here upstreams (λ k. exists_false upstreams k) found
        (map_err-ok upstream_failed (head_upstream v path) e) h1

  nowhere_false :
      (upstreams : List V)
      → IsNowhere upstreams
      → object_exists_upstream head_upstream upstreams path ≡ ok false
  unfolding object_exists_upstream
  nowhere_false [] h = refl
  nowhere_false (v ∷ upstreams) h = rw (h.0) (nowhere_false upstreams h.1)

module _ {X V M : Type 0} (head_upstream : V → Text → Result X Bool) (re : Patterns)
    (head : Text → Result X (Option M)) (upstreams : List V) where
  -- The object of the narinfo is a NAR that neither the storage nor an upstream has, and the upload is that
  -- of this object for its path.
  abbrev pub IsPlanned : NarInfo → PlannedUpload → Type 0
  IsPlanned n p =
      (parse_from_store_path n.store_path ≡ ok p.store_path_hash)
      × (is_nar (parse_depot_object_path re n.url) ≡ true)
      × (head n.url ≡ ok none)
      × IsNowhere head_upstream n.url upstreams
      × (p.object_path ≡ n.url)
      × (p.content_type ≡ text "application/octet-stream")

  missing_iff :
      (path : Text)
      → (is_missing head_upstream re head upstreams path ≡ ok true)
        ↔ ((head path ≡ ok none) × IsNowhere head_upstream path upstreams)
  unfolding is_missing
  missing_iff path = (
    λ h.
        let (metadata, e, h1) = bind-ok (map_err storage_failed (head path)) _ h in
        go metadata (map_err-ok storage_failed (head path) e) h1,
    λ (e, nowhere). rw (e, nowhere_false head_upstream path upstreams nowhere) refl,
  )
    where
      go :
          (metadata : Option M)
          → head path ≡ ok metadata
          → (elim metadata [
            | some m ↦ ok false
            | none ↦
                object_exists_upstream head_upstream upstreams path >>= λ exists. ok (not exists)
          ])
            ≡ ok true
          → (head path ≡ ok none) × IsNowhere head_upstream path upstreams
      go (some m) e h = cc
      go none e h =
          let (exists, f, h1) =
            bind-ok (object_exists_upstream head_upstream upstreams path)
              (λ exists. ok (not exists)) h in
          (e, exists_false head_upstream path upstreams (f ∙ ap ok (flipped exists (ok_inj h1))))
        where
          flipped : (b : Bool) → not b ≡ true → b ≡ false
          flipped true h = cc
          flipped false h = refl

  abbrev upload : StorePathHash → NarInfo → PlannedUpload
  upload hash n = record {
    store_path_hash = hash;
    object_path = n.url;
    content_type = text "application/octet-stream";
  }

  abbrev missing_nar : NarInfo → Result (IngestError X) Bool
  missing_nar n =
      if is_nar (parse_depot_object_path re n.url)
      then is_missing head_upstream re head upstreams n.url
      else ok false

  missing_nar_iff :
      (n : NarInfo)
      → (missing_nar n ≡ ok true) ↔ (
          (is_nar (parse_depot_object_path re n.url) ≡ true)
          × (head n.url ≡ ok none)
          × IsNowhere head_upstream n.url upstreams)
  missing_nar_iff n = elim (Bool-cases (is_nar (parse_depot_object_path re n.url))) [
    | inl e ↦ (
      (λ h. let (nothing, nowhere) = (missing_iff n.url).0 (rw e at h) in (e, nothing, nowhere)),
      λ (e', nothing, nowhere). rw e ((missing_iff n.url).1 (nothing, nowhere)),
    )
    | inr e ↦
        ((λ h. let wrong = rw e at h in cc), λ (e', nothing, nowhere). let wrong = sym e ∙ e' in cc)
  ]

  planned_of : StorePathHash → NarInfo → Bool → List PlannedUpload
  planned_of hash n missing = if missing then upload hash n ∷ [] else []

  plan_one_iff :
      (n : NarInfo) {l : List PlannedUpload}
      → plan_one head_upstream re head upstreams n ≡ ok l
      → (p : PlannedUpload) → Memᴰ p l ↔ IsPlanned n p
  unfolding plan_one planned_of
  plan_one_iff n {l} h p =
      let (hash, parsed, h1) =
        bind-ok (map_err invalid_store_path (parse_from_store_path n.store_path)) _ h in
      let (missing, e, h2) =
        bind-ok (missing_nar n) (λ missing. ok (planned_of hash n missing)) h1 in
      go hash (map_err-ok invalid_store_path _ parsed) missing e (ok_inj h2)
    where
      go :
          (hash : StorePathHash)
          → parse_from_store_path n.store_path ≡ ok hash
          → (missing : Bool) → missing_nar n ≡ ok missing
          → planned_of hash n missing ≡ l
          → Memᴰ p l ↔ IsPlanned n p
      go hash parsed false e same = (
        (λ m. absurd (Memᴰ.not-nil (subst (Memᴰ p) (sym same) m))),
        λ (parsed', is, nothing, nowhere, path, type).
            clash (sym e ∙ (missing_nar_iff n).1 (is, nothing, nowhere)),
      )
        where
          clash : ◌≡◌ {A = Result (IngestError X) Bool} (ok false) (ok true) → Memᴰ p l
          clash h = cc
      go hash parsed true e same = (
        λ m.
            let here = only m in
            let (is, nothing, nowhere) = (missing_nar_iff n).0 e in
            (
              parsed ∙ ap ok (ap (λ (p : PlannedUpload). p.store_path_hash) (sym here)),
              is,
              nothing,
              nowhere,
              ap (λ (p : PlannedUpload). p.object_path) here,
              ap (λ (p : PlannedUpload). p.content_type) here,
            ),
        λ (parsed', is, nothing, nowhere, path, type).
            subst (Memᴰ p) same (Memᴰ.head (made parsed' path type)),
      )
        where
          only : Memᴰ p l → p ≡ upload hash n
          only m = elim (Memᴰ.cases_cons (subst (Memᴰ p) (sym same) m)) [
            | inl here ↦ here
            | inr later ↦ absurd (Memᴰ.not-nil later)
          ]

          made :
              parse_from_store_path n.store_path ≡ ok p.store_path_hash
              → p.object_path ≡ n.url
              → p.content_type ≡ text "application/octet-stream"
              → p ≡ upload hash n
          made parsed' path type =
              let same_hash : p.store_path_hash ≡ hash = ok_inj (sym parsed' ∙ parsed) in cc

  -- If the planner succeeds, it plans exactly one kind of uploads: those of the narinfos whose URL is a NAR that
  -- the storage does not hold and no upstream has, with the hash of the store path and the URL.
  pub plan_required_uploads_iff :
      (narinfos : List NarInfo) {planned : List PlannedUpload}
      → plan_required_uploads head_upstream re head upstreams narinfos ≡ ok planned
      → (p : PlannedUpload) → Memᴰ p planned ↔ ((n : NarInfo) × Memᴰ n narinfos × IsPlanned n p)
  unfolding plan_required_uploads
  plan_required_uploads_iff [] h p = (
    (λ m. absurd (Memᴰ.not-nil (subst (Memᴰ p) (sym (ok_inj h)) m))),
    λ (n, m, e). absurd (Memᴰ.not-nil m),
  )
  plan_required_uploads_iff (n ∷ narinfos) {planned} h p =
      let (first, one, h1) = bind-ok (plan_one head_upstream re head upstreams n) _ h in
      let (rest, others, h2) =
        bind-ok (plan_required_uploads head_upstream re head upstreams narinfos)
          (λ rest. ok (first ++ rest)) h1 in
      (
        λ m. elim (Memᴰ.append_cases first (subst (Memᴰ p) (sym (ok_inj h2)) m)) [
          | inl m' ↦ (n, Memᴰ.head refl, (plan_one_iff n one p).0 m')
          | inr m' ↦
              let (q, m'', e) = (plan_required_uploads_iff narinfos others p).0 m' in
              (q, Memᴰ.tail m'', e)
        ],
        λ (q, m, e). subst (Memᴰ p) (ok_inj h2) (elim (Memᴰ.cases_cons m) [
          | inl here ↦
              Memᴰ.append_left rest ((plan_one_iff n one p).1 (subst (λ q. IsPlanned q p) here e))
          | inr later ↦
              Memᴰ.append_right first
                ((plan_required_uploads_iff narinfos others p).1 (q, later, e))
        ]),
      )
