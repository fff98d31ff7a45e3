-- ===== src/Db/Retained/Newest.antt =====
-- The builds kept of a ref are its newest finalized ones.
use nix_project_cache.Prelude.{
  ℕ, zero, suc, ◌≡◌, ◌≤◌, ◌⊎◌, refl, sym, ap, subst, inl, inr, Bool, true, false, Option, none,
  some, List, [], ◌∷◌, All-at, length, arith,
}
use nix_project_cache.Prelude.Text.{Text}
use nix_project_cache.Prelude.Text.Order.{text_leb_total, text_leb_trans}
use nix_project_cache.Prelude.Rows.{select, select-row, row-select}
use nix_project_cache.Prelude.Sort.{sort_by, sort_by-row, row-sort_by, IsSorted, sort_by-IsSorted}
use nix_project_cache.Db.Builds.{BuildRow}
use nix_project_cache.Db.Retained.{take, optional_leb, is_newer, is_finalized_for, newest_builds}
use mathlib.Core.List.{Memᴰ}
use mathlib.Core.List.Memᴰ

optional_total : (a b : Option Text) → optional_leb a b ≡ false → optional_leb b a ≡ true
optional_total none b h = cc
optional_total (some s) none h = refl
optional_total (some s) (some t) h = text_leb_total s t h

optional_trans :
    (a b c : Option Text)
    → optional_leb a b ≡ true
    → optional_leb b c ≡ true
    → optional_leb a c ≡ true
optional_trans none b c h k = refl
optional_trans (some s) none c h k = cc
optional_trans (some s) (some t) none h k = cc
optional_trans (some s) (some t) (some u) h k = text_leb_trans s t u h k

newer_total : (a b : BuildRow) → is_newer a b ≡ false → is_newer b a ≡ true
newer_total a b h = ground (
  arith,
  optional_total a.finalized_at b.finalized_at,
  optional_total b.finalized_at a.finalized_at,
  text_leb_total b.created_at a.created_at,
)

newer_trans : (a b c : BuildRow) → is_newer a b ≡ true → is_newer b c ≡ true → is_newer a c ≡ true
newer_trans a b c h k = ground (
  arith,
  optional_trans c.finalized_at b.finalized_at a.finalized_at,
  optional_trans a.finalized_at c.finalized_at b.finalized_at,
  optional_trans b.finalized_at a.finalized_at c.finalized_at,
  text_leb_trans c.created_at b.created_at a.created_at,
)

module _ (le : BuildRow → BuildRow → Bool) where
  length-take : (n : ℕ) (l : List BuildRow) → length (take n l) ≤ n
  unfolding take
  length-take zero l = omega arith
  length-take (suc n) [] = omega arith
  length-take (suc n) (x ∷ l) = omega (arith, length-take n l)

  take-row : (n : ℕ) (l : List BuildRow) {b : BuildRow} → Memᴰ b (take n l) → Memᴰ b l
  unfolding take
  take-row zero l m = absurd (Memᴰ.not-nil m)
  take-row (suc n) [] m = m
  take-row (suc n) (x ∷ l) m = elim (Memᴰ.cases_cons m) [
    | inl here ↦ Memᴰ.head here
    | inr later ↦ Memᴰ.tail (take-row n l later)
  ]

  -- A row of a sorted list is taken, or the rows taken are as many as asked for, all before it.
  take-sorted :
      (n : ℕ) (l : List BuildRow)
      → IsSorted le l
      → {b : BuildRow} → Memᴰ b l
      → Memᴰ b (take n l)
        ⊎ ((length (take n l) ≡ n) × ((k : BuildRow) → Memᴰ k (take n l) → le k b ≡ true))
  unfolding take
  take-sorted zero l h m = inr (refl, λ k m'. absurd (Memᴰ.not-nil m'))
  take-sorted (suc n) [] h m = inl m
  take-sorted (suc n) (x ∷ l) h {b} m = elim (Memᴰ.cases_cons m) [
    | inl here ↦ inl (Memᴰ.head here)
    | inr later ↦ elim (take-sorted n l h.1 later) [
      | inl taken ↦ inl (Memᴰ.tail taken)
      | inr (full, before) ↦ inr (
        ap suc full,
        λ k m'. elim (Memᴰ.cases_cons m') [
          | inl first ↦
              subst (λ k. le k b ≡ true) (sym first) (All-at (λ y. le x y ≡ true) h.0 later)
          | inr rest ↦ before k rest
        ],
      )
    ]
  ]

-- What is kept of a ref: at most so many of its finalized builds; one that is left out is no newer than any
-- that is kept, and then as many are kept as asked for.
abbrev pub IsNewest : List BuildRow → Text → Text → ℕ → List BuildRow → Type 0
IsNewest builds project_id ref_name limit kept =
    (length kept ≤ limit)
    × ((b : BuildRow)
        → Memᴰ b kept
        → Memᴰ b builds × (is_finalized_for project_id ref_name b ≡ true))
    × ((b : BuildRow)
        → Memᴰ b builds
        → is_finalized_for project_id ref_name b ≡ true
        → Memᴰ b kept
          ⊎ ((length kept ≡ limit) × ((k : BuildRow) → Memᴰ k kept → is_newer k b ≡ true)))

-- `newest_builds` keeps at most `limit` builds, each a finalized build of the ref; a finalized build of the
-- ref that it leaves out is no newer than any that it keeps, and it keeps `limit` builds then.
pub newest_builds-IsNewest :
    (builds : List BuildRow) (project_id ref_name : Text) (limit : ℕ)
    → IsNewest builds project_id ref_name limit (newest_builds builds project_id ref_name limit)
unfolding newest_builds
newest_builds-IsNewest builds project_id ref_name limit =
    let own = is_finalized_for project_id ref_name in
    let rows = select own builds in
    (
      length-take is_newer limit (sort_by is_newer rows),
      λ b m.
          select-row own builds
            (sort_by-row is_newer rows (take-row is_newer limit (sort_by is_newer rows) m)),
      λ b m e.
          take-sorted is_newer limit (sort_by is_newer rows)
            (sort_by-IsSorted is_newer newer_total newer_trans rows)
            (row-sort_by is_newer rows (row-select own m e)),
    )
