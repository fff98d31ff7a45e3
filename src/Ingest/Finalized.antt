-- ===== src/Ingest/Finalized.antt =====
-- When a build can be finalized, and what that leaves.
use nix_project_cache.Prelude.{
  ◌≡◌, ◌↔◌, ◌⊎◌, refl, sym, ap, subst, ◌∙◌, inl, inr, Bool, true, Option, none, some, List, [], ◌∷◌,
  Result, ok, err, bind-ok, guard, guard-ok, ok_inj, ok_or, ok_or-ok, map_err, map_err-ok, All,
  Bool-cases, Result-cases,
}
use nix_project_cache.Prelude.Text.{Text}
use nix_project_cache.Ident.{ProjectSlug, StorageId}
use nix_project_cache.Nix.StorePath.{StorePathHash}
use nix_project_cache.DepotPath.{Patterns}
use nix_project_cache.Db.{project_not_found, DbError, Formats}
use nix_project_cache.Db.Projects.{row_of_slug, project_id_by_slug, get_project_storage_id}
use nix_project_cache.Db.Builds.{
  list_build_path_nar_objects, get_build_context, BuildContextRecord, publish_build_to_ref,
}
use nix_project_cache.Db.Objects.{
  BlobMetadata, ObjectTables, fits_i64, formatted_time, upsert_storage_object,
}
use nix_project_cache.Ingest.{
  storage_not_configured, no_registered_paths, url_rows, build_not_pending, build_not_found,
  is_pending, database, not_available, IngestError, IngestTables, object_exists_upstream,
  pending_context, project_storage, persist, check_object, check_objects, finalize_inputs,
  finish_build, finalize_build, has_paths,
}

module _ {U T X V B : Type 0} (formats : Formats U T) (re : Patterns)
    (storage : StorageId → Option B) (head : B → Text → Result X (Option (BlobMetadata T)))
    (upstreams : ProjectSlug → Result DbError (List V))
    (head_upstream : V → Text → Result X Bool) where
  -- The database can hold the metadata.
  abbrev pub IsStorable : BlobMetadata T → Type 0
  IsStorable m =
      (fits_i64 m.content_length ≡ true)
      × (t : Option Text) × (formatted_time formats m.last_modified ≡ ok t)

  -- The storage has the object, or it has not and an upstream does, found before any failure.
  abbrev pub IsAvailable : B → List V → StorePathHash × Text → Type 0
  IsAvailable backend vs object =
      ((m : BlobMetadata T) × (head backend object.1 ≡ ok (some m)) × IsStorable m)
      ⊎ ((head backend object.1 ≡ ok none)
          × (object_exists_upstream {X = X} head_upstream vs object.1 ≡ ok true))

  persist_iff :
      (id : StorageId) (hash : StorePathHash) (path : Text) (m : BlobMetadata T)
      (objects : ObjectTables)
      → ((persist formats re storage head upstreams head_upstream id hash path m objects).0 ≡ ok tt)
        ↔ IsStorable m
  unfolding persist upsert_storage_object
  persist_iff id hash path m objects = elim (Bool-cases (fits_i64 m.content_length)) [
    | inl e ↦ elim (Result-cases (formatted_time formats m.last_modified)) [
      | inl (t, f) ↦ ((λ h. (e, t, f)), λ h. rw (persist, upsert_storage_object, e, f) refl)
      | inr (bad, f) ↦ (
        (λ h. let wrong = rw (persist, upsert_storage_object, e, f) at h in cc),
        λ (e', t, g). let wrong = sym f ∙ g in cc,
      )
    ]
    | inr e ↦ (
      (λ h. let wrong = rw (persist, upsert_storage_object, e) at h in cc),
      λ (e', t, g). let wrong = sym e ∙ e' in cc,
    )
  ]

  -- The check of one object, given what the storage says.
  abbrev IsHeld : B → List V → StorePathHash → Text → Option (BlobMetadata T) → Type 0
  IsHeld backend vs hash path (some m) = IsStorable m
  IsHeld backend vs hash path none = object_exists_upstream {X = X} head_upstream vs path ≡ ok true

  check_object_iff :
      (id : StorageId) (backend : B) (vs : List V) (hash : StorePathHash) (path : Text)
      (found : Option (BlobMetadata T)) (objects : ObjectTables)
      → ((check_object formats re storage head upstreams head_upstream id vs hash path found
            objects).0
          ≡ ok tt)
        ↔ IsHeld backend vs hash path found
  unfolding check_object
  check_object_iff id backend vs hash path (some m) objects = persist_iff id hash path m objects
  check_object_iff id backend vs hash path none objects = (
    λ h.
        let (b, e, h1) =
          bind-ok (object_exists_upstream head_upstream vs path)
            (λ b. guard b (not_available hash path)) h in
        e ∙ ap ok (guard-ok b (not_available hash path) h1),
    λ e. rw e refl,
  )

  held-IsAvailable :
      (backend : B) (vs : List V) (hash : StorePathHash) (path : Text)
      (found : Option (BlobMetadata T))
      → head backend path ≡ ok found
      → IsHeld backend vs hash path found
      → IsAvailable backend vs (hash, path)
  held-IsAvailable backend vs hash path (some m) e h = inl (m, e, h)
  held-IsAvailable backend vs hash path none e h = inr (e, h)

  available-IsHeld :
      (backend : B) (vs : List V) (hash : StorePathHash) (path : Text)
      → IsAvailable backend vs (hash, path)
      → (found : Option (BlobMetadata T)) × (head backend path ≡ ok found)
        × IsHeld backend vs hash path found
  available-IsHeld backend vs hash path (inl (m, e, h)) = (some m, e, h)
  available-IsHeld backend vs hash path (inr (e, h)) = (none, e, h)

  check_objects_sound :
      (id : StorageId) (backend : B) (vs : List V) (paths : List (StorePathHash × Text))
      (objects : ObjectTables)
      → (check_objects formats re storage head upstreams head_upstream id backend vs paths
          objects).0
        ≡ ok tt
      → All (IsAvailable backend vs) paths
  unfolding check_objects
  check_objects_sound id backend vs [] objects h = tt
  check_objects_sound id backend vs ((hash, path) ∷ rest) objects h =
      elim (Result-cases (head backend path)) [
        | inr (bad, e) ↦ let wrong = rw (e, check_objects) at h in cc
        | inl (found, e) ↦
            let step =
              check_object formats re storage head upstreams head_upstream id vs hash path found
                objects in
            elim (Result-cases step.0) [
              | inr (bad, f) ↦ let wrong = rw (e, f, check_objects) at h in cc
              | inl (u, f) ↦ (
                held-IsAvailable backend vs hash path found e
                    ((check_object_iff id backend vs hash path found objects).0 f),
                check_objects_sound id backend vs rest step.1 (rw (e, f, check_objects) at h),
              )
            ]
      ]

  check_objects_complete :
      (id : StorageId) (backend : B) (vs : List V) (paths : List (StorePathHash × Text))
      (objects : ObjectTables)
      → All (IsAvailable backend vs) paths
      → (check_objects formats re storage head upstreams head_upstream id backend vs paths
          objects).0
        ≡ ok tt
  unfolding check_objects
  check_objects_complete id backend vs [] objects h = refl
  check_objects_complete id backend vs ((hash, path) ∷ rest) objects h =
      let (found, e, held) = available-IsHeld backend vs hash path h.0 in
      let f = (check_object_iff id backend vs hash path found objects).1 held in
      rw (check_objects, e, f)
        (check_objects_complete id backend vs rest
          (check_object formats re storage head upstreams head_upstream id vs hash path found
            objects).1
          h.1)

  -- The project of the build's context is there, since its storage was found.
  project-known :
      (project : ProjectSlug) (tables : IngestTables) {place : StorageId × B}
      → project_storage formats re storage head upstreams head_upstream project tables ≡ ok place
      → (project_id : Text) × (project_id_by_slug tables.builds.projects project ≡ ok project_id)
  unfolding get_project_storage_id project_id_by_slug
  project-known project tables h =
      let (id, found, h1) =
        bind-ok (map_err database (get_project_storage_id tables.builds.projects project)) _ h in
      let (p, row, h2) =
        bind-ok
          (ok_or (row_of_slug tables.builds.projects project.slug) (project_not_found project.slug))
          _ (map_err-ok database (get_project_storage_id tables.builds.projects project) found) in
      (p.id, rw row refl)

  -- What it takes to finalize a build: it is pending, has paths, its project's storage is configured, and each
  -- of its objects is available.
  pub record IsReady (build_id : Text) (tables : IngestTables) : Type 0 where
    pub context : BuildContextRecord U
    pub found : get_build_context formats build_id tables.builds ≡ ok (some context)
    pub waiting : is_pending context.status ≡ true
    pub paths : List (StorePathHash × Text)
    pub listed :
        list_build_path_nar_objects build_id (url_rows tables.paths.path_infos) tables.builds
        ≡ ok paths
    pub registered : has_paths paths ≡ true
    pub vs : List V
    pub asked : upstreams context.project_slug ≡ ok vs
    pub id : StorageId
    pub placed : get_project_storage_id tables.builds.projects context.project_slug ≡ ok id
    pub backend : B
    pub configured : storage id ≡ some backend
    pub available : All (IsAvailable backend vs) paths

  inputs-IsReady :
      (build_id : Text) (tables : IngestTables) (context : BuildContextRecord U)
      (paths : List (StorePathHash × Text)) (vs : List V) (id : StorageId) (backend : B)
      → finalize_inputs formats re storage head upstreams head_upstream build_id tables
        ≡ ok (context, paths, vs, id, backend)
      → All (IsAvailable backend vs) paths
      → IsReady build_id tables
  unfolding finalize_inputs
  inputs-IsReady build_id tables context paths vs id backend h available =
      let (c, waiting, h1) =
        bind-ok (pending_context formats re storage head upstreams head_upstream build_id tables) _
          h in
      let (o, looked, w1) =
        bind-ok (map_err database (get_build_context formats build_id tables.builds)) _ waiting in
      let (c', there, w2) = bind-ok (ok_or o build_not_found) _ w1 in
      let (u, is_waiting, w3) = bind-ok (guard (is_pending c'.status) build_not_pending) _ w2 in
      let (l, listed, h2) =
        bind-ok
          (map_err database
            (list_build_path_nar_objects build_id (url_rows tables.paths.path_infos) tables.builds))
          _ h1 in
      let (v, filled, h3) = bind-ok (guard (has_paths l) no_registered_paths) _ h2 in
      let (vs', asked, h4) = bind-ok (map_err database (upstreams c.project_slug)) _ h3 in
      let (place, placed, h5) =
        bind-ok
          (project_storage formats re storage head upstreams head_upstream c.project_slug tables) _
          h4 in
      let (i, named, p1) =
        bind-ok (map_err database (get_project_storage_id tables.builds.projects c.project_slug)) _
          placed in
      let (b, got, p2) = bind-ok (ok_or (storage i) (storage_not_configured i)) _ p1 in
      let same = ok_inj h5 in
      let same_place = ok_inj p2 in
      record {
        context = c;
        found =
            map_err-ok database _ looked
            ∙ ap ok (ok_or-ok o build_not_found there ∙ ap some (ok_inj w3));
        waiting =
            subst (λ (c : BuildContextRecord U). is_pending c.status ≡ true) (ok_inj w3)
              (guard-ok (is_pending c'.status) build_not_pending is_waiting);
        paths = l;
        listed = map_err-ok database _ listed;
        registered = guard-ok (has_paths l) no_registered_paths filled;
        vs = vs';
        asked = map_err-ok database _ asked;
        id = i;
        placed = map_err-ok database _ named;
        backend = b;
        configured = ok_or-ok (storage i) _ got;
        available =
            subst (λ l. All (IsAvailable b vs') l) (sym (ap (λ t. t.1) same))
              (subst (λ w. All (IsAvailable b w) paths) (sym (ap (λ t. t.2) same))
                (subst (λ c. All (IsAvailable c vs) paths)
                  (sym (ap (λ (p : StorageId × B). p.1) same_place ∙ ap (λ t. t.4) same))
                  available));
      }

  IsReady-inputs :
      (build_id : Text) (tables : IngestTables) (r : IsReady build_id tables)
      → finalize_inputs formats re storage head upstreams head_upstream build_id tables
        ≡ ok (r.context, r.paths, r.vs, r.id, r.backend)
  unfolding finalize_inputs
  IsReady-inputs build_id tables r =
      rw (r.found, r.waiting, r.listed, r.registered, r.asked, r.placed, r.configured) refl

  finish-ok :
      (finalized_at updated_at build_id : Text) (context : BuildContextRecord U)
      (checked : Result (IngestError X) (Unit {0}) × ObjectTables) (tables : IngestTables)
      → (finish_build formats re storage head upstreams head_upstream finalized_at updated_at
          build_id context checked tables).0
        ≡ ok tt
      → checked.0 ≡ ok tt
  unfolding finish_build
  finish-ok finalized_at updated_at build_id context (err e, objects) tables h = cc
  finish-ok finalized_at updated_at build_id context (ok u, objects) tables h = refl

  ok-finish :
      (finalized_at updated_at build_id : Text) (context : BuildContextRecord U)
      (checked : Result (IngestError X) (Unit {0}) × ObjectTables) (tables : IngestTables)
      {project_id : Text}
      → project_id_by_slug tables.builds.projects context.project_slug ≡ ok project_id
      → checked.0 ≡ ok tt
      → (finish_build formats re storage head upstreams head_upstream finalized_at updated_at
          build_id context checked tables).0
        ≡ ok tt
  unfolding finish_build publish_build_to_ref
  ok-finish finalized_at updated_at build_id context (err e, objects) tables known h = cc
  ok-finish finalized_at updated_at build_id context (ok u, objects) tables known h =
      rw (finish_build, publish_build_to_ref, known) refl

  -- `finalize_build` succeeds exactly if the build is pending and has paths, the storage of its project is
  -- configured, and each of its objects is available: the storage holds it with metadata that the database
  -- can hold, or it does not and an upstream cache does, found before any failure.
  pub finalize_build_iff :
      (finalized_at updated_at build_id : Text) (tables : IngestTables)
      → ((finalize_build formats re storage head upstreams head_upstream finalized_at updated_at
            build_id tables).0
          ≡ ok tt)
        ↔ IsReady build_id tables
  unfolding finalize_build
  finalize_build_iff finalized_at updated_at build_id tables = (
    λ h.
        elim (Result-cases
          (finalize_inputs formats re storage head upstreams head_upstream build_id tables)) [
            | inr (bad, e) ↦ let wrong = rw (e, finalize_build) at h in cc
            | inl ((context, paths, vs, id, backend), e) ↦
                inputs-IsReady build_id tables context paths vs id backend e (
                  check_objects_sound id backend vs paths tables.objects (
                    finish-ok finalized_at updated_at build_id context _ tables
                      (rw (e, finalize_build) at h)))
          ],
    λ r.
        let (project_id, known) =
          project-known r.context.project_slug tables {place = (r.id, r.backend)}
            (rw (r.placed, r.configured) refl) in
        rw (finalize_build, IsReady-inputs build_id tables r)
          (ok-finish finalized_at updated_at build_id r.context _ tables known
            (check_objects_complete r.id r.backend r.vs r.paths tables.objects r.available)),
  )
