-- ===== src/Ingest/Lifecycle.antt =====
-- A build goes from pending to finalized once, and is closed then.
use nix_project_cache.Prelude.{
  ◌≡◌, ◌⊎◌, refl, sym, ap, subst, ◌∙◌, inl, inr, Bool, true, false, not, Option, some, List, [],
  ◌∷◌, map, Result, ok, err, ◌&&◌, bind-ok, guard, guard-ok, ok_inj, ok_or, ok_or-ok, some_inj,
  Bool-cases, Result-cases, Option-cases, any,
}
use nix_project_cache.Prelude.Text.{Text, text, text_eq, text_eq_iff}
use nix_project_cache.Ident.{ProjectSlug, StorageId}
use nix_project_cache.Nix.StorePath.{StorePathHash}
use nix_project_cache.DepotPath.{Patterns}
use nix_project_cache.Db.{invalid_uuid, constraint, DbError, Formats}
use nix_project_cache.Db.Projects.{ProjectLookupRow, parse_slug, project_id_by_slug}
use nix_project_cache.Db.Builds.{
  BuildPathRow, finalized, BuildRow, BuildContextRecord, BuildTables, ProjectRefRow, parse,
  build_of_id, project_of_id, begin_build, attach_build_path, finalize_row, publish_build_to_ref,
  context_record, get_build_context,
}
use nix_project_cache.Db.Objects.{BlobMetadata, ObjectTables}
use nix_project_cache.Db.Paths.{PathTables}
use nix_project_cache.Ingest.{
  IngestError, IngestTables, finalize_inputs, finish_build, finalize_build, validate_upload_target,
  build_not_pending,
}
use nix_project_cache.Ingest.Finalized.{finalize_build_iff}

-- The row of a build that is finalized; the rest of the row and of its project can be read.
pub record IsClosed {U T : Type 0} (formats : Formats U T) (build_id : Text) (t : BuildTables)
    : Type 0 where
  pub row : BuildRow
  pub at : build_of_id t.builds build_id ≡ some row
  pub status : row.status ≡ text "finalized"
  pub project : ProjectLookupRow
  pub of : project_of_id t.projects row.project_id ≡ some project
  pub id : U
  pub reads_id : formats.parse_uuid row.id ≡ some id
  pub project_id : U
  pub reads_project_id : formats.parse_uuid project.id ≡ some project_id
  pub slug : ProjectSlug
  pub reads_slug : parse_slug project.slug ≡ ok slug

finalize_row-id : (now id : Text) (b : BuildRow) → (finalize_row now id b).id ≡ b.id
unfolding finalize_row
finalize_row-id now id b = elim (Bool-cases (text_eq b.id id)) [
  | inl e ↦ rw (finalize_row, e) refl
  | inr e ↦ rw (finalize_row, e) refl
]

finalize_row-project :
    (now id : Text) (b : BuildRow) → (finalize_row now id b).project_id ≡ b.project_id
unfolding finalize_row
finalize_row-project now id b = elim (Bool-cases (text_eq b.id id)) [
  | inl e ↦ rw (finalize_row, e) refl
  | inr e ↦ rw (finalize_row, e) refl
]

finalize_row-kept :
    (now id : Text) (b : BuildRow)
    → b.status ≡ text "finalized"
    → (finalize_row now id b).status ≡ text "finalized"
unfolding finalize_row
finalize_row-kept now id b h = elim (Bool-cases (text_eq b.id id)) [
  | inl e ↦ rw (finalize_row, e) refl
  | inr e ↦ rw (finalize_row, e) h
]

finalize_row-own :
    (now id : Text) (b : BuildRow) → b.id ≡ id → (finalize_row now id b).status ≡ text "finalized"
unfolding finalize_row
finalize_row-own now id b h =
    let own : text_eq b.id id ≡ true = (text_eq_iff b.id id).1 h in rw (finalize_row, own) refl

build_of_id-map :
    (now other id : Text) (builds : List BuildRow) {b : BuildRow}
    → build_of_id builds id ≡ some b
    → build_of_id (map (finalize_row now other) builds) id ≡ some (finalize_row now other b)
unfolding build_of_id
build_of_id-map now other id [] h = cc
build_of_id-map now other id (r ∷ builds) {b} h =
    let same = ap (λ i. text_eq i id) (finalize_row-id now other r) in
    elim (Bool-cases (text_eq r.id id)) [
      | inl e ↦
          let own : text_eq (finalize_row now other r).id id ≡ true = same ∙ e in
          rw own (ap (λ r. some (finalize_row now other r)) (some_inj (rw e at h)))
      | inr e ↦
          let other_id : text_eq (finalize_row now other r).id id ≡ false = same ∙ e in
          rw other_id (build_of_id-map now other id builds (rw e at h))
    ]

build_of_id-id :
    (id : Text) (builds : List BuildRow) {b : BuildRow} → build_of_id builds id ≡ some b → b.id ≡ id
unfolding build_of_id
build_of_id-id id [] h = cc
build_of_id-id id (r ∷ builds) {b} h = elim (Bool-cases (text_eq r.id id)) [
  | inl e ↦ ap (λ (r : BuildRow). r.id) (sym (some_inj (rw e at h))) ∙ (text_eq_iff r.id id).0 e
  | inr e ↦ build_of_id-id id builds (rw e at h)
]

build_of_id-any :
    (id : Text) (builds : List BuildRow) {b : BuildRow}
    → build_of_id builds id ≡ some b
    → any (λ (r : BuildRow). text_eq r.id id) builds ≡ true
unfolding build_of_id
build_of_id-any id [] h = cc
build_of_id-any id (r ∷ builds) h = elim (Bool-cases (text_eq r.id id)) [
  | inl e ↦ rw e refl
  | inr e ↦ rw e (build_of_id-any id builds (rw e at h))
]

finalized_text : parse (text "finalized") ≡ ok finalized
unfolding parse text_eq
finalized_text = refl

module _ {U T : Type 0} (formats : Formats U T) where
  map-IsClosed :
      (now other id : Text) (t : BuildTables) (refs : List ProjectRefRow)
      → IsClosed formats id t
      → IsClosed formats id
          (record t { builds = map (finalize_row now other) t.builds; refs = refs })
  map-IsClosed now other id t refs c = record {
    row = finalize_row now other c.row;
    at = build_of_id-map now other id t.builds c.at;
    status = finalize_row-kept now other c.row c.status;
    project = c.project;
    of = rw (finalize_row-project now other c.row) c.of;
    id = c.id;
    reads_id = rw (finalize_row-id now other c.row) c.reads_id;
    project_id = c.project_id;
    reads_project_id = c.reads_project_id;
    slug = c.slug;
    reads_slug = c.reads_slug;
  }

  begin-IsClosed :
      (new_id created_at ref_name : Text) (project : ProjectSlug) (revision : Option Text)
      (id : Text) (t : BuildTables) {after : BuildTables}
      → begin_build new_id created_at project ref_name revision t ≡ ok after
      → IsClosed formats id t
      → IsClosed formats id after
  unfolding begin_build build_of_id
  begin-IsClosed new_id created_at ref_name project revision id t {after} h c =
      let (project_id, known, h1) = bind-ok (project_id_by_slug t.projects project) _ h in
      let (u, fresh, h2) =
        bind-ok (guard (not (any (λ (b : BuildRow). text_eq b.id new_id) t.builds)) constraint) _
          h1 in
      subst (IsClosed formats id) (ok_inj h2) (record {
        row = c.row;
        at = skip _ t.builds c.at (elim (Bool-cases (text_eq new_id id)) [
          | inl e ↦ absurd (
              clash
                (subst (λ i. any (λ (b : BuildRow). text_eq b.id i) t.builds ≡ true)
                  (sym ((text_eq_iff new_id id).0 e)) (build_of_id-any id t.builds c.at))
                (guard-ok _ constraint fresh))
          | inr e ↦ e
        ]);
        status = c.status;
        project = c.project;
        of = c.of;
        id = c.id;
        reads_id = c.reads_id;
        project_id = c.project_id;
        reads_project_id = c.reads_project_id;
        slug = c.slug;
        reads_slug = c.reads_slug;
      })
    where
      clash : {b : Bool} → b ≡ true → not b ≡ true → ⊥
      clash {b} e f = let wrong : not true ≡ true = subst (λ b. not b ≡ true) e f in cc

      skip :
          (r : BuildRow) (builds : List BuildRow)
          → build_of_id builds id ≡ some c.row
          → text_eq r.id id ≡ false
          → build_of_id (r ∷ builds) id ≡ some c.row
      skip r builds at other = rw other at

  -- A closed build is read as one that is finalized.
  closed-context :
      (id : Text) (t : BuildTables) (c : IsClosed formats id t)
      → get_build_context formats id t
        ≡ ok (
            some (record {
              build_id = c.id;
              project_id = c.project_id;
              project_slug = c.slug;
              ref_name = c.row.ref_name;
              revision = c.row.revision;
              status = finalized;
            }))
  unfolding get_build_context context_record
  closed-context id t c =
      let read : parse c.row.status ≡ ok finalized = ap parse c.status ∙ finalized_text in
      rw
        (
          get_build_context, c.at, c.of, context_record, c.reads_id, c.reads_project_id,
          c.reads_slug, read,
        )
        refl

module _ {U T X V B : Type 0} (formats : Formats U T) (re : Patterns)
    (storage : StorageId → Option B) (head : B → Text → Result X (Option (BlobMetadata T)))
    (upstreams : ProjectSlug → Result DbError (List V))
    (head_upstream : V → Text → Result X Bool) where
  -- A change of the tables by one of the operations, whatever its answer is. What registering and uploading
  -- write to the tables of objects and of path infos is left open.
  pub data IngestStep : IngestTables → IngestTables → Type 0 where
    begun :
        (build_id created_at ref_name : Text) (project : ProjectSlug) (revision : Option Text)
        {t : IngestTables} {after : BuildTables}
        → begin_build build_id created_at project ref_name revision t.builds ≡ ok after
        → IngestStep t (record t { builds = after })
    attached :
        (build_id : Text) (hash : StorePathHash) {t : IngestTables}
        → IngestStep t (record t { builds = attach_build_path build_id hash t.builds })
    stored :
        (objects : ObjectTables) (paths : PathTables) {t : IngestTables}
        → IngestStep t (record t { objects = objects; paths = paths })
    finalizing :
        (finalized_at updated_at build_id : Text) {t : IngestTables}
        → IngestStep t
            (finalize_build formats re storage head upstreams head_upstream finalized_at updated_at
              build_id t).1

  pub data IngestSteps : IngestTables → IngestTables → Type 0 where
    done : {t : IngestTables} → IngestSteps t t
    next : {t u v : IngestTables} → IngestStep t u → IngestSteps u v → IngestSteps t v

  -- What finalizing does to the builds: nothing, or the row is finalized and a ref is set.
  FinalizesAs : Text → Text → BuildTables → BuildTables → Type 0
  FinalizesAs now build_id t u =
      (u ≡ t)
      ⊎ ((refs : List ProjectRefRow) × (u
            ≡ record t { builds = map (finalize_row now build_id) t.builds; refs = refs }))

  finish-builds :
      (now updated_at build_id : Text) (context : BuildContextRecord U)
      (checked : Result (IngestError X) (Unit {0}) × ObjectTables) (t : IngestTables)
      → FinalizesAs now build_id t.builds
          (finish_build formats re storage head upstreams head_upstream now updated_at build_id
            context checked t).1.builds
  unfolding finish_build FinalizesAs publish_build_to_ref
  finish-builds now updated_at build_id context (err e, objects) t = inl refl
  finish-builds now updated_at build_id context (ok u, objects) t =
      elim (Result-cases (project_id_by_slug t.builds.projects context.project_slug)) [
        | inl (project_id, known) ↦ rw (finish_build, publish_build_to_ref, known) (inr (_, refl))
        | inr (bad, unknown) ↦ rw (finish_build, publish_build_to_ref, unknown) (inl refl)
      ]

  finalize-builds :
      (now updated_at build_id : Text) (t : IngestTables)
      → FinalizesAs now build_id t.builds
          (finalize_build formats re storage head upstreams head_upstream now updated_at build_id
            t).1.builds
  unfolding finalize_build FinalizesAs
  finalize-builds now updated_at build_id t =
      elim (Result-cases
        (finalize_inputs formats re storage head upstreams head_upstream build_id t)) [
          | inr (bad, e) ↦ rw (finalize_build, e) (inl refl)
          | inl ((context, paths, vs, id, backend), e) ↦
              rw (finalize_build, e) (finish-builds now updated_at build_id context _ t)
        ]

  attach-IsClosed :
      (id build_id : Text) (hash : StorePathHash) (t : BuildTables)
      → IsClosed formats id t
      → IsClosed formats id (attach_build_path build_id hash t)
  unfolding attach_build_path
  attach-IsClosed id build_id hash t c =
      elim (Bool-cases (
        any
          (λ (r : BuildPathRow).
            text_eq r.build_id build_id && text_eq r.store_path_hash hash.as_str)
          t.build_paths)) [
            | inl e ↦ rw (attach_build_path, e) c
            | inr e ↦
                rw (attach_build_path, e)
                  (record {
                    row = c.row;
                    at = c.at;
                    status = c.status;
                    project = c.project;
                    of = c.of;
                    id = c.id;
                    reads_id = c.reads_id;
                    project_id = c.project_id;
                    reads_project_id = c.reads_project_id;
                    slug = c.slug;
                    reads_slug = c.reads_slug;
                  })
          ]

  step-IsClosed :
      (id : Text) {t u : IngestTables}
      → IngestStep t u
      → IsClosed formats id t.builds
      → IsClosed formats id u.builds
  unfolding FinalizesAs
  step-IsClosed id (begun build_id created_at ref_name project revision {t} e) c =
      begin-IsClosed formats build_id created_at ref_name project revision id t.builds e c
  step-IsClosed id (attached build_id hash {t}) c = attach-IsClosed id build_id hash t.builds c
  step-IsClosed id (stored objects paths) c = c
  step-IsClosed id (finalizing now updated_at build_id {t}) c =
      elim (finalize-builds now updated_at build_id t) [
        | inl same ↦ subst (IsClosed formats id) (sym same) c
        | inr (refs, same) ↦
            subst (IsClosed formats id) (sym same)
              (map-IsClosed formats now build_id id t.builds refs c)
      ]

  steps-IsClosed :
      (id : Text) {t u : IngestTables}
      → IngestSteps t u
      → IsClosed formats id t.builds
      → IsClosed formats id u.builds
  steps-IsClosed id done c = c
  steps-IsClosed id (next s rest) c = steps-IsClosed id rest (step-IsClosed id s c)

  finish-closes :
      (now updated_at build_id : Text) (context : BuildContextRecord U)
      (checked : Result (IngestError X) (Unit {0}) × ObjectTables) (t : IngestTables)
      → (finish_build formats re storage head upstreams head_upstream now updated_at build_id
          context checked t).0
        ≡ ok tt
      → (refs : List ProjectRefRow) × ((finish_build formats re storage head upstreams head_upstream
            now updated_at build_id context checked t).1.builds
          ≡ record (t.builds) {
            builds = map (finalize_row now build_id) t.builds.builds;
            refs = refs;
          })
  unfolding finish_build publish_build_to_ref
  finish-closes now updated_at build_id context (err e, objects) t h = cc
  finish-closes now updated_at build_id context (ok u, objects) t h =
      elim (Result-cases (project_id_by_slug t.builds.projects context.project_slug)) [
        | inl (project_id, known) ↦ rw (finish_build, publish_build_to_ref, known) (_, refl)
        | inr (bad, unknown) ↦
            let wrong = rw (finish_build, publish_build_to_ref, unknown) at h in cc
      ]

  finalize-closes :
      (now updated_at build_id : Text) (t : IngestTables)
      → (finalize_build formats re storage head upstreams head_upstream now updated_at build_id t).0
        ≡ ok tt
      → (refs : List ProjectRefRow) × ((finalize_build formats re storage head upstreams
            head_upstream now updated_at build_id t).1.builds
          ≡ record (t.builds) {
            builds = map (finalize_row now build_id) t.builds.builds;
            refs = refs;
          })
  unfolding finalize_build
  finalize-closes now updated_at build_id t h =
      elim (Result-cases
        (finalize_inputs formats re storage head upstreams head_upstream build_id t)) [
          | inr (bad, e) ↦ let wrong = rw (e, finalize_build) at h in cc
          | inl ((context, paths, vs, id, backend), e) ↦
              rw (finalize_build, e)
                (finish-closes now updated_at build_id context _ t (rw (e, finalize_build) at h))
        ]

  finalized-IsClosed :
      (now id : Text) (t : BuildTables) (refs : List ProjectRefRow) {context : BuildContextRecord U}
      → get_build_context formats id t ≡ ok (some context)
      → IsClosed formats id (record t { builds = map (finalize_row now id) t.builds; refs = refs })
  unfolding get_build_context context_record
  finalized-IsClosed now id t refs h = elim (Option-cases (build_of_id t.builds id)) [
    | inl e ↦ let wrong = rw (e, get_build_context) at h in cc
    | inr (b, e) ↦ elim (Option-cases (project_of_id t.projects b.project_id)) [
      | inl f ↦ let wrong = rw (e, f, get_build_context) at h in cc
      | inr (p, f) ↦
          let (context, read, h1) =
            bind-ok (context_record formats b p) (λ c. ok (some c))
              (rw (e, f, get_build_context) at h) in
          let (build_id, one, h2) =
            bind-ok (ok_or (formats.parse_uuid b.id) (invalid_uuid b.id)) _ read in
          let (project_id, two, h3) =
            bind-ok (ok_or (formats.parse_uuid p.id) (invalid_uuid p.id)) _ h2 in
          let (slug, three, h4) = bind-ok (parse_slug p.slug) _ h3 in
          record {
            row = finalize_row now id b;
            at = build_of_id-map now id id t.builds e;
            status = finalize_row-own now id b (build_of_id-id id t.builds e);
            project = p;
            of = rw (finalize_row-project now id b) f;
            id = build_id;
            reads_id = rw (finalize_row-id now id b) (ok_or-ok (formats.parse_uuid b.id) _ one);
            project_id = project_id;
            reads_project_id = ok_or-ok (formats.parse_uuid p.id) _ two;
            slug = slug;
            reads_slug = three;
          }
    ]
  ]

  -- Once `finalize_build` has succeeded for a build, then after any further operations of the service every
  -- upload to the build and every further attempt to finalize it are refused, as the build is not pending.
  pub finalize_build-closed :
      (finalized_at updated_at build_id : Text) (before : IngestTables) {after : IngestTables}
      → (finalize_build formats re storage head upstreams head_upstream finalized_at updated_at
          build_id before).0
        ≡ ok tt
      → IngestSteps
          (finalize_build formats re storage head upstreams head_upstream finalized_at updated_at
            build_id before).1
          after
      → (hash : StorePathHash) (object_path now later : Text)
      → (validate_upload_target formats re storage head upstreams head_upstream build_id hash
            object_path after
          ≡ err build_not_pending)
        × ((finalize_build formats re storage head upstreams head_upstream now later build_id
              after).0
            ≡ err build_not_pending)
  unfolding validate_upload_target finalize_build finalize_inputs
  finalize_build-closed finalized_at updated_at build_id before {after} h steps hash object_path now
        later =
      let ready =
        (finalize_build_iff formats re storage head upstreams head_upstream finalized_at updated_at
            build_id before).0
          h in
      let (refs, same) = finalize-closes finalized_at updated_at build_id before h in
      let closed = steps-IsClosed build_id steps (
        subst (IsClosed formats build_id) (sym same)
          (finalized-IsClosed finalized_at build_id before.builds refs ready.found)) in
      let found = closed-context formats build_id after.builds closed in
      (rw (validate_upload_target, found) refl, rw (finalize_build, finalize_inputs, found) refl)
