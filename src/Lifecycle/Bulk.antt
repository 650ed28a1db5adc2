-- ===== src/Lifecycle/Bulk.antt =====
-- The bulk actions of app/payroll.py (`_bulk_apply`) against the single ones.
use mathlib.Core.Option
use pmvp.Prelude.{
  ℕ, ◌+◌, ◌≡◌, refl, ◌∙◌, Bool, false, not, Option, ◌&&◌, List, [], ◌∷◌, arith, length,
  if◌then◌else◌, Bool-cases, inl, inr,
}
use pmvp.Status.{Run}
use pmvp.Lifecycle.{find_run, update_run, contains, ordered_ids, passes, bulk_from, bulk_apply}
use pmvp.Lifecycle.Single.{KeepsId, find_run-update_run}

-- No id occurs twice.
abbrev pub AreDistinct : List ℕ → Type 0
AreDistinct [] = Unit
AreDistinct (id ∷ ids) = (contains id ids ≡ false) × AreDistinct ids

contains-ordered_ids :
    (id : ℕ) (seen ids : List ℕ)
    → contains id (ordered_ids seen ids) ≡ (not (contains id seen) && contains id ids)
unfolding contains ordered_ids
contains-ordered_ids id seen [] = ground arith
contains-ordered_ids id seen (x ∷ ids) =
    ground (arith, contains-ordered_ids id seen ids, contains-ordered_ids id (x ∷ seen) ids)

ordered_ids-AreDistinct : (seen ids : List ℕ) → AreDistinct (ordered_ids seen ids)
unfolding contains ordered_ids
ordered_ids-AreDistinct seen [] = tt
ordered_ids-AreDistinct seen (x ∷ ids) = ground (
  arith,
  contains-ordered_ids x (x ∷ seen) ids,
  ordered_ids-AreDistinct seen ids,
  ordered_ids-AreDistinct (x ∷ seen) ids,
)

module _ (eligible : Run → Bool) (action : Run → Run) (keeps : KeepsId action) where
  -- What a bulk action over `ids` makes of the run `j`.
  abbrev pub after_bulk : ℕ → List ℕ → List Run → Option Run
  after_bulk j ids runs =
      if contains j ids && passes eligible (find_run j runs)
      then Option.map action (find_run j runs)
      else find_run j runs

  bulk_from-find_run :
      (j : ℕ) (ids : List ℕ) (runs : List Run)
      → AreDistinct ids
      → find_run j (bulk_from eligible action ids runs).2 ≡ after_bulk j ids runs
  unfolding bulk_from contains
  bulk_from-find_run j [] runs d = refl
  bulk_from-find_run j (id ∷ ids) runs d = elim (Bool-cases (passes eligible (find_run id runs))) [
    | inl e ↦ rw e (
        ground (
          arith,
          bulk_from-find_run j ids (update_run id action runs) d.1,
          find_run-update_run id j action runs keeps,
        ))
    | inr e ↦ rw e (ground (arith, bulk_from-find_run j ids runs d.1))
  ]

  same_selection :
      (j : ℕ) (run_ids : List ℕ) (runs : List Run)
      → after_bulk j (ordered_ids [] run_ids) runs ≡ after_bulk j run_ids runs
  unfolding contains
  same_selection j run_ids runs = rw (contains-ordered_ids j [] run_ids) refl

  bulk_from-counts :
      (ids : List ℕ) (runs : List Run)
      → length (bulk_from eligible action ids runs).0
          + length (bulk_from eligible action ids runs).1
        ≡ length ids
  unfolding bulk_from
  bulk_from-counts [] runs = omega arith
  bulk_from-counts (id ∷ ids) runs = elim (Bool-cases (passes eligible (find_run id runs))) [
    | inl e ↦ rw e (omega (arith, bulk_from-counts ids (update_run id action runs)))
    | inr e ↦ rw e (omega (arith, bulk_from-counts ids runs))
  ]

  -- After a bulk action whose ids may repeat or be unknown, a run that was selected and eligible has
  -- been acted on exactly once, every other run is as it was, and each selected id is counted once,
  -- as done or as skipped.
  pub bulk_apply_lem :
      (j : ℕ) (run_ids : List ℕ) (runs : List Run)
      → let (ok, skipped, after) = bulk_apply eligible action run_ids runs in
        (find_run j after ≡ after_bulk j run_ids runs)
        × (length ok + length skipped ≡ length (ordered_ids [] run_ids))
        × AreDistinct (ordered_ids [] run_ids)
  unfolding bulk_apply
  bulk_apply_lem j run_ids runs = (
    bulk_from-find_run j (ordered_ids [] run_ids) runs (ordered_ids-AreDistinct [] run_ids)
        ∙ same_selection j run_ids runs,
    bulk_from-counts (ordered_ids [] run_ids) runs,
    ordered_ids-AreDistinct [] run_ids,
  )
