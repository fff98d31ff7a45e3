-- ===== src/Gc/Live.antt =====
-- The recursive query of crates/depot-db/src/gc.rs finds exactly the paths that the roots reach.
use nix_project_cache.Prelude.{
  List-cases, ℕ, zero, suc, ◌≤◌, ◌≡◌, ap, sym, subst, ◌↔◌, inl, inr, Bool, true, false, not, ◌&&◌,
  List, [], ◌∷◌, ◌++◌, length, any, Bool-cases, and-split, arith,
}
use nix_project_cache.Prelude.Text.{Text, text_eq, text_eq_iff}
use nix_project_cache.Gc.{PathInfo, PathReference, Database, is_root, is_reached, grow, live_paths}
use nix_project_cache.Prelude.Rows.{select, any-row, row-any, select-row, row-select, length-select}
use mathlib.Core.List.{Memᴰ}
use mathlib.Core.List.Memᴰ

-- A path is reachable if it is a root's, or if a reachable path refers to it.
pub data IsReachable (db : Database) (roots : List Text) : PathInfo → Type 0 where
  at_root : {p : PathInfo} → Memᴰ p db.path_infos → is_root roots p ≡ true → IsReachable db roots p
  by_reference :
      {p q : PathInfo} {r : PathReference}
      → IsReachable db roots p
      → Memᴰ r db.path_references
      → r.store_path_hash ≡ p.store_path_hash
      → Memᴰ q db.path_infos
      → q.store_path ≡ r.reference_store_path
      → IsReachable db roots q

too_many : (n : ℕ) → suc n ≤ 0 → ⊥
too_many n h = omega (arith, h)

select-no-row :
    {A : Type 0} (p : A → Bool) (l : List A) {x : A}
    → select p l ≡ []
    → Memᴰ x l
    → p x ≡ true
    → {B : Type 0} → B
select-no-row p l {x} e m h = absurd (Memᴰ.not-nil (subst (Memᴰ x) e (row-select p m h)))

module _ (db : Database) where
  grow-live :
      (k : ℕ) (live rest : List PathInfo) {q : PathInfo}
      → Memᴰ q live
      → Memᴰ q (grow db.path_references k live rest)
  unfolding grow
  grow-live zero live rest m = m
  grow-live (suc k) live rest {q} m =
      elim (select (is_reached db.path_references live) rest)
        as (λ new. Memᴰ q (elim new [
          | [] ↦ live
          | n ∷ more ↦
              grow db.path_references k ((n ∷ more) ++ live)
                (select (λ q. not (is_reached db.path_references live q)) rest)
        ])) [
          | [] ↦ m
          | n ∷ more ↦
              grow-live k ((n ∷ more) ++ live)
                (select (λ q. not (is_reached db.path_references live q)) rest)
                (Memᴰ.append_right (n ∷ more) m)
        ]

  -- What makes a path a reference of a live path.
  abbrev IsReferenced : List PathInfo → PathInfo → Type 0
  IsReferenced live q =
      (r : PathReference) × Memᴰ r db.path_references
      × (q.store_path ≡ r.reference_store_path)
      × ((p : PathInfo) × Memᴰ p live × (r.store_path_hash ≡ p.store_path_hash))

  is_reached-Referenced :
      (live : List PathInfo) (q : PathInfo)
      → is_reached db.path_references live q ≡ true
      → IsReferenced live q
  is_reached-Referenced live q h =
      let (r, in_refs, both) =
        any-row
          (λ (r : PathReference).
            text_eq q.store_path r.reference_store_path
            && any (λ (p : PathInfo). text_eq r.store_path_hash p.store_path_hash) live)
          db.path_references h in
      let (named, referred) =
        and-split (text_eq q.store_path r.reference_store_path)
          (any (λ (p : PathInfo). text_eq r.store_path_hash p.store_path_hash) live) both in
      let (p, is_live, same) =
        any-row (λ (p : PathInfo). text_eq r.store_path_hash p.store_path_hash) live referred in
      (
        r,
        in_refs,
        (text_eq_iff q.store_path r.reference_store_path).0 named,
        (p, is_live, (text_eq_iff r.store_path_hash p.store_path_hash).0 same),
      )

  Referenced-is_reached :
      (live : List PathInfo) (q : PathInfo)
      → IsReferenced live q
      → is_reached db.path_references live q ≡ true
  Referenced-is_reached live q (r, in_refs, named, (p, is_live, same)) =
      row-any
        (λ (r : PathReference).
          text_eq q.store_path r.reference_store_path
          && any (λ (p : PathInfo). text_eq r.store_path_hash p.store_path_hash) live)
        in_refs
        (rw ((text_eq_iff q.store_path r.reference_store_path).1 named) (
          row-any (λ (p : PathInfo). text_eq r.store_path_hash p.store_path_hash) is_live
            ((text_eq_iff r.store_path_hash p.store_path_hash).1 same)))

  -- The rows that are not live yet and not reached either.
  abbrev left_over : List PathInfo → List PathInfo → List PathInfo
  left_over live rest = select (λ q. not (is_reached db.path_references live q)) rest

  grow-stop :
      (k : ℕ) (live rest : List PathInfo)
      → select (is_reached db.path_references live) rest ≡ []
      → grow db.path_references (suc k) live rest ≡ live
  unfolding grow
  grow-stop k live rest e = rw (e, grow)

  grow-go :
      (k : ℕ) (live rest : List PathInfo) (n : PathInfo) (more : List PathInfo)
      → select (is_reached db.path_references live) rest ≡ n ∷ more
      → grow db.path_references (suc k) live rest
        ≡ grow db.path_references k ((n ∷ more) ++ live) (left_over live rest)
  unfolding grow
  grow-go k live rest n more e = rw (e, grow)

  -- With fuel for the rows that are left, the result is closed under references.
  grow-closed :
      (k : ℕ) (live rest : List PathInfo) {q : PathInfo}
      → length rest ≤ k
      → Memᴰ q rest
      → is_reached db.path_references (grow db.path_references k live rest) q ≡ true
      → Memᴰ q (grow db.path_references k live rest)
  grow-closed zero live [] le m h = absurd (Memᴰ.not-nil m)
  grow-closed zero live (x ∷ rest) le m h = absurd (too_many (length rest) le)
  grow-closed (suc k) live rest {q} le m h =
      elim (List-cases (select (is_reached db.path_references live) rest)) [
        | inl none_new ↦ select-no-row (is_reached db.path_references live) rest none_new m (
            subst (λ l. is_reached db.path_references l q ≡ true) (grow-stop k live rest none_new)
              h)
        | inr (n, more, new) ↦
            let next = grow-go k live rest n more new in
            let total = ap length new in
            let shorter : length (left_over live rest) ≤ k =
              omega (arith, le, total, length-select (is_reached db.path_references live) rest) in
            subst (Memᴰ q) (sym next) (elim (Bool-cases (is_reached db.path_references live q)) [
              | inl now ↦ grow-live k ((n ∷ more) ++ live) (left_over live rest) (
                  Memᴰ.append_left live
                    (subst (Memᴰ q) new (row-select (is_reached db.path_references live) m now)))
              | inr later ↦
                  grow-closed k ((n ∷ more) ++ live) (left_over live rest) shorter
                    (row-select (λ q. not (is_reached db.path_references live q)) m (ap not later))
                    (subst (λ l. is_reached db.path_references l q ≡ true) next h)
            ])
      ]

  grow-IsReachable :
      (roots : List Text) (k : ℕ) (live rest : List PathInfo)
      → ((p : PathInfo) → Memᴰ p live → IsReachable db roots p)
      → ((p : PathInfo) → Memᴰ p rest → Memᴰ p db.path_infos)
      → {q : PathInfo} → Memᴰ q (grow db.path_references k live rest)
      → IsReachable db roots q
  unfolding grow
  grow-IsReachable roots zero live rest sound rows {q} m = sound q m
  grow-IsReachable roots (suc k) live rest sound rows {q} m =
      elim (List-cases (select (is_reached db.path_references live) rest)) [
        | inl none_new ↦ sound q (subst (Memᴰ q) (grow-stop k live rest none_new) m)
        | inr (n, more, new) ↦
            grow-IsReachable roots k ((n ∷ more) ++ live) (left_over live rest)
              (λ p m'. elim (Memᴰ.append_cases (n ∷ more) m') [
                | inl fresh ↦
                    let (row, reached) =
                      select-row (is_reached db.path_references live) rest
                        (subst (Memᴰ p) (sym new) fresh) in
                    let (r, in_refs, named, (p', is_live, same)) =
                      is_reached-Referenced live p reached in
                    by_reference (sound p' is_live) in_refs same (rows p row) named
                | inr old ↦ sound p old
              ])
              (λ p m'.
                rows p (select-row (λ q. not (is_reached db.path_references live q)) rest m').0)
              (subst (Memᴰ q) (grow-go k live rest n more new) m)
      ]

  module _ (roots : List Text) where
    live_paths-IsReachable : {q : PathInfo} → Memᴰ q (live_paths db roots) → IsReachable db roots q
    unfolding live_paths
    live_paths-IsReachable m =
        grow-IsReachable roots (length (select (λ p. not (is_root roots p)) db.path_infos))
          (select (is_root roots) db.path_infos) (select (λ p. not (is_root roots p)) db.path_infos)
          (λ p m'.
            let (row, root) = select-row (is_root roots) db.path_infos m' in at_root row root)
          (λ p m'. (select-row (λ p. not (is_root roots p)) db.path_infos m').0) m

    root-live :
        {q : PathInfo}
        → Memᴰ q db.path_infos
        → is_root roots q ≡ true
        → Memᴰ q (live_paths db roots)
    unfolding live_paths
    root-live m h =
        grow-live (length (select (λ p. not (is_root roots p)) db.path_infos))
          (select (is_root roots) db.path_infos) (select (λ p. not (is_root roots p)) db.path_infos)
          (row-select (is_root roots) m h)

    reached-live :
        {q : PathInfo}
        → Memᴰ q db.path_infos
        → is_root roots q ≡ false
        → is_reached db.path_references (live_paths db roots) q ≡ true
        → Memᴰ q (live_paths db roots)
    unfolding live_paths
    reached-live m other h =
        grow-closed (length (select (λ p. not (is_root roots p)) db.path_infos))
          (select (is_root roots) db.path_infos) (select (λ p. not (is_root roots p)) db.path_infos)
          (omega arith) (row-select (λ p. not (is_root roots p)) m (ap not other)) h

    IsReachable-live : {q : PathInfo} → IsReachable db roots q → Memᴰ q (live_paths db roots)
    IsReachable-live (at_root m h) = root-live m h
    IsReachable-live (by_reference {p} {q} {r} live in_refs same m named) =
        let before = IsReachable-live live in
        elim (Bool-cases (is_root roots q)) [
          | inl root ↦ root-live m root
          | inr other ↦
              reached-live m other (
                Referenced-is_reached (live_paths db roots) q
                  (r, in_refs, named, (p, before, same)))
        ]

    -- A row is in the result of the recursive query exactly if the roots reach it by references.
    pub live_paths_iff : (q : PathInfo) → Memᴰ q (live_paths db roots) ↔ IsReachable db roots q
    live_paths_iff q = (live_paths-IsReachable, IsReachable-live)
