-- ===== src/Gc/Roots.antt =====
-- Which paths the garbage collector starts from, and what that means for the builds that are kept.
use nix_project_cache.Prelude.{
  ◌≡◌, ◌↔◌, ◌⊎◌, sym, ap, ◌∙◌, inl, inr, Bool, true, ◌&&◌, ◌||◌, List, [], ◌∷◌, ◌++◌, map, Result,
  ok, subst, map_err, map_err-ok, bind-ok, ok_inj, any-append, and-split, or-split, or-left,
  or-right, Result-cases, ap₂,
}
use nix_project_cache.Prelude.Text.{Text, text, text_eq, text_eq_iff}
use nix_project_cache.Prelude.Text.Order.{sort, any-sort}
use nix_project_cache.Prelude.Rows.{
  select, is_in, dedup, any-dedup, any-row, row-any, select-row, row-select,
}
use nix_project_cache.Nix.StorePath.{from_hash, from_hash_sound}
use nix_project_cache.Db.{DbError}
use nix_project_cache.Gc.{
  Build, BuildPath, Database, paths_of_build, retained_rows, is_pending, pending_rows, check_hashes,
  list_root_store_path_hashes, retention_failed, GcError,
}
use mathlib.Core.List.{Memᴰ}
use mathlib.Core.List.Memᴰ

check_hashes-same :
    {E : Type 0} (hashes : List Text) {roots : List Text}
    → check_hashes {E = E} hashes ≡ ok roots
    → roots ≡ hashes
unfolding check_hashes
check_hashes-same [] h = sym (ok_inj h)
check_hashes-same {E} (x ∷ hashes) {roots} h = elim (Result-cases (from_hash x)) [
  | inl (parsed, e) ↦
      let (rest, others, made) =
        bind-ok (check_hashes {E = E} hashes) (λ rest. ok (parsed.as_str ∷ rest))
          (rw (e, check_hashes) at h) in
      sym (ok_inj made)
      ∙ ap₂ (λ y l. y ∷ l) (from_hash_sound x e).0 (check_hashes-same hashes others)
  | inr (bad, e) ↦ let wrong = (rw (e, check_hashes) at h) in cc wrong
]

rows_of :
    (wanted : BuildPath → Bool) (rows : List BuildPath) (hash : Text)
    → (is_in hash (map (λ (r : BuildPath). r.store_path_hash) (select wanted rows)) ≡ true)
      ↔ ((r : BuildPath) × Memᴰ r rows × (wanted r ≡ true) × (r.store_path_hash ≡ hash))
rows_of wanted rows hash = (
  λ h.
      let (x, m, e) = any-row (text_eq hash) _ h in
      let (r, m', same) =
        Memᴰ.of_map (λ (r : BuildPath). r.store_path_hash) (select wanted rows) m in
      let (row, passes) = select-row wanted rows m' in
      (r, row, passes, same ∙ sym ((text_eq_iff hash x).0 e)),
  λ (r, m, e, same).
      row-any (text_eq hash)
        (Memᴰ.map (λ (r : BuildPath). r.store_path_hash) (row-select wanted m e))
        ((text_eq_iff hash r.store_path_hash).1 (sym same)),
)

retained_rows_iff :
    (rows : List BuildPath) (ids : List Text) (hash : Text)
    → (is_in hash (retained_rows rows ids) ≡ true)
      ↔ ((r : BuildPath) × Memᴰ r rows × (is_in r.build_id ids ≡ true) × (r.store_path_hash ≡ hash))
unfolding retained_rows paths_of_build
retained_rows_iff rows [] hash = ((λ h. cc), λ (r, m, e, same). cc)
retained_rows_iff rows (id ∷ ids) hash =
    let own = λ (r : BuildPath). text_eq r.build_id id in
    let parts =
      any-append (text_eq hash) (map (λ (r : BuildPath). r.store_path_hash) (select own rows))
        (retained_rows rows ids) in
    (
      λ h. elim (or-split _ _ (sym parts ∙ h)) [
        | inl e ↦
            let (r, m, e', same) = (rows_of own rows hash).0 e in
            (r, m, or-left (text_eq r.build_id id) (is_in r.build_id ids) e', same)
        | inr e ↦
            let (r, m, e', same) = (retained_rows_iff rows ids hash).0 e in
            (r, m, or-right (text_eq r.build_id id) (is_in r.build_id ids) e', same)
      ],
      λ (r, m, e, same). parts ∙ elim (or-split (text_eq r.build_id id) (is_in r.build_id ids) e) [
        | inl e' ↦ or-left _ _ ((rows_of own rows hash).1 (r, m, e', same))
        | inr e' ↦ or-right _ _ ((retained_rows_iff rows ids hash).1 (r, m, e', same))
      ],
    )

-- A build of the id is pending.
abbrev pub IsPending : List Build → Text → Type 0
IsPending builds id = (b : Build) × Memᴰ b builds × (b.id ≡ id) × (b.status ≡ text "pending")

is_pending_iff :
    (builds : List Build) (id : Text) → (is_pending builds id ≡ true) ↔ IsPending builds id
unfolding is_pending
is_pending_iff builds id = (
  λ h.
      let (b, m, e) =
        any-row (λ (b : Build). text_eq b.id id && text_eq b.status (text "pending")) builds h in
      let (own, waits) = and-split (text_eq b.id id) (text_eq b.status (text "pending")) e in
      (b, m, (text_eq_iff b.id id).0 own, (text_eq_iff b.status (text "pending")).0 waits),
  λ (b, m, own, waits).
      row-any (λ (b : Build). text_eq b.id id && text_eq b.status (text "pending")) m
        (ap₂ ◌&&◌ ((text_eq_iff b.id id).1 own) ((text_eq_iff b.status (text "pending")).1 waits)),
)

-- Why a path is a root: a retained or a pending build has it, or it is pinned.
abbrev pub IsRooted : Result DbError (List Text) → Database → Text → Type 0
IsRooted retained db hash =
    ((build_ids : List Text) × (r : BuildPath) × (retained ≡ ok build_ids)
      × Memᴰ r db.build_paths
      × (is_in r.build_id build_ids ≡ true)
      × (r.store_path_hash ≡ hash))
    ⊎ (((r : BuildPath) × Memᴰ r db.build_paths
          × IsPending db.builds r.build_id
          × (r.store_path_hash ≡ hash))
        ⊎ (is_in hash db.pins ≡ true))

-- When the roots can be listed, a path is a root exactly if it is a path of a retained build, a path of a
-- pending build, or pinned.
pub list_root_store_path_hashes_iff :
    {E : Type 0} (retained : Result DbError (List Text)) (db : Database) {roots : List Text}
    → list_root_store_path_hashes {E = E} retained db ≡ ok roots
    → (hash : Text) → (is_in hash roots ≡ true) ↔ IsRooted retained db hash
unfolding list_root_store_path_hashes pending_rows
list_root_store_path_hashes_iff {E} retained db {roots} h hash =
    let (ids, asked, h1) = bind-ok (map_err {F = GcError E} retention_failed retained) _ h in
    let given = map_err-ok retention_failed retained asked in
    let pending = λ (r : BuildPath). is_pending db.builds r.build_id in
    let kept_rows = retained_rows db.build_paths ids in
    let waiting = map (λ (r : BuildPath). r.store_path_hash) (select pending db.build_paths) in
    let (hashes, checked, made) =
      bind-ok (check_hashes {E = E} (kept_rows ++ (waiting ++ db.pins)))
        (λ hashes. ok (dedup (sort hashes))) h1 in
    let same : is_in hash roots
        ≡ (is_in hash kept_rows || (is_in hash waiting || is_in hash db.pins)) =
      ap (is_in hash) (sym (ok_inj made))
      ∙ any-dedup (text_eq hash) (sort hashes)
      ∙ any-sort (text_eq hash) hashes
      ∙ ap (is_in hash) (check_hashes-same _ checked)
      ∙ any-append (text_eq hash) kept_rows (waiting ++ db.pins)
      ∙ ap (λ b. is_in hash kept_rows || b) (any-append (text_eq hash) waiting db.pins) in
    (
      λ m. elim (or-split _ _ (sym same ∙ m)) [
        | inl e ↦
            let (r, m', e', at) = (retained_rows_iff db.build_paths ids hash).0 e in
            inl (ids, r, given, m', e', at)
        | inr e ↦ inr (elim (or-split _ _ e) [
          | inl e' ↦
              let (r, m', wait, at) = (rows_of pending db.build_paths hash).0 e' in
              inl (r, m', (is_pending_iff db.builds r.build_id).0 wait, at)
          | inr e' ↦ inr e'
        ])
      ],
      λ why. same ∙ elim why [
        | inl (ids', r, given', m', e', at) ↦
            or-left (is_in hash kept_rows) (is_in hash waiting || is_in hash db.pins) (
              (retained_rows_iff db.build_paths ids hash).1 (
                r,
                m',
                subst (λ l. is_in r.build_id l ≡ true) (ok_inj (sym given' ∙ given)) e',
                at,
              ))
        | inr other ↦
            or-right (is_in hash kept_rows) (is_in hash waiting || is_in hash db.pins) (elim other [
              | inl (r, m', wait, at) ↦ or-left (is_in hash waiting) (is_in hash db.pins) (
                  (rows_of pending db.build_paths hash).1
                    (r, m', (is_pending_iff db.builds r.build_id).1 wait, at))
              | inr pinned ↦ or-right (is_in hash waiting) (is_in hash db.pins) pinned
            ])
      ],
    )
