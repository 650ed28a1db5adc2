-- ===== src/Yearly/Cap.antt =====
-- A year of closed runs, each costed after what app/payroll_calculations/__init__.py finds of the
-- earlier ones.
use pmvp.Prelude.{
  ℕ, suc, ◌≡◌, ◌≤◌, ap, refl, ◌∙◌, sym, Option, none, some, List, [], ◌∷◌, arith, length, ==-refl,
}
use pmvp.Prelude.Int.{ℤ, pos, ◌+ℤ◌, ◌-ℤ◌, int_laws}
use pmvp.Statutory.{StatutoryRate, split_bonus}
use pmvp.Statutory.Bonus.{concession_used, IsWithinCap, concession_used-IsWithinCap}
use pmvp.Status.{RunStatus}
use pmvp.Yearly.{PaidRun, closed_items, bonus_concession_used_ytd}
use pmvp.Yearly.Use.{use_of, bonus_concession_used_ytd_bulk_lem}

-- The closed run that pays one employee a bonus, costed after the runs before it.
abbrev pub bonus_run : StatutoryRate → ℕ → ℕ → ℕ → ℤ → List PaidRun → PaidRun
bonus_run rate year e basic bonus runs = record {
  id = suc (length runs);
  year = year;
  status = RunStatus.approved;
  items =
      record {
        employee_id = some e;
        productivity_bonus = bonus;
        end_of_year_bonus = pos 0;
        bonus_excess =
            pos
              (split_bonus rate bonus (pos basic)
                (bonus_concession_used_ytd runs (some e) year (some (suc (length runs))))).1;
      }
      ∷ [];
}

-- The closed runs of a year that paid an employee some bonuses, the last bonus first.
abbrev pub year_of_bonuses : StatutoryRate → ℕ → ℕ → ℕ → List ℤ → List PaidRun
year_of_bonuses rate year e basic [] = []
year_of_bonuses rate year e basic (bonus ∷ earlier) =
    let runs = year_of_bonuses rate year e basic earlier in
    bonus_run rate year e basic bonus runs ∷ runs

-- No run has an id above the bound.
abbrev IdsUpTo : ℕ → List PaidRun → Type 0
IdsUpTo n [] = Unit
IdsUpTo n (run ∷ runs) = (run.id ≤ n) × IdsUpTo n runs

IdsUpTo-suc : (n : ℕ) (runs : List PaidRun) → IdsUpTo n runs → IdsUpTo (suc n) runs
IdsUpTo-suc n [] h = tt
IdsUpTo-suc n (run ∷ runs) (h, hs) = (omega arith, IdsUpTo-suc n runs hs)

year_of_bonuses-ids :
    (rate : StatutoryRate) (year e basic : ℕ) (bonuses : List ℤ)
    → let runs = year_of_bonuses rate year e basic bonuses in IdsUpTo (length runs) runs
year_of_bonuses-ids rate year e basic [] = tt
year_of_bonuses-ids rate year e basic (bonus ∷ earlier) =
    (omega arith, IdsUpTo-suc _ _ (year_of_bonuses-ids rate year e basic earlier))

-- The run that is being costed is none of the closed ones.
closed_items-new :
    (runs : List PaidRun) (year n : ℕ)
    → IdsUpTo n runs
    → closed_items runs year (some (suc n)) ≡ closed_items runs year none
unfolding closed_items
closed_items-new [] year n h = refl
closed_items-new (run ∷ runs) year n (h, hs) = ground (arith, closed_items-new runs year n hs)

used_is_sum :
    (runs : List PaidRun) (e year : ℕ) (exclude : Option ℕ)
    → bonus_concession_used_ytd runs (some e) year exclude
      ≡ use_of e (closed_items runs year exclude)
used_is_sum runs e year exclude =
    (bonus_concession_used_ytd_bulk_lem runs (e ∷ []) year exclude e (ground arith)).1

front :
    (rate : StatutoryRate) (year e basic : ℕ) (bonus : ℤ) (runs : List PaidRun)
    → let used = bonus_concession_used_ytd runs (some e) year (some (suc (length runs))) in
      use_of e (closed_items (bonus_run rate year e basic bonus runs ∷ runs) year none)
      ≡ bonus
        +ℤ pos 0
        -ℤ pos (split_bonus rate bonus (pos basic) used).1
        +ℤ use_of e (closed_items runs year none)
unfolding closed_items
front rate year e basic bonus runs = rw (closed_items, ==-refl year, ==-refl e) refl

reorder : (b x u : ℤ) → b +ℤ pos 0 -ℤ x +ℤ u ≡ u +ℤ (b -ℤ x)
reorder b x u = omega int_laws

-- The new run adds what it used to the year.
new_use :
    (rate : StatutoryRate) (year e basic : ℕ) (bonus : ℤ) (runs : List PaidRun)
    → IdsUpTo (length runs) runs
    → let used = bonus_concession_used_ytd runs (some e) year none in
      bonus_concession_used_ytd (bonus_run rate year e basic bonus runs ∷ runs) (some e) year none
      ≡ used +ℤ concession_used rate bonus (pos basic) used
new_use rate year e basic bonus runs ids =
    let run = bonus_run rate year e basic bonus runs in
    let same : bonus_concession_used_ytd runs (some e) year (some (suc (length runs)))
        ≡ bonus_concession_used_ytd runs (some e) year none =
      used_is_sum runs e year (some (suc (length runs)))
      ∙ ap (use_of e) (closed_items-new runs year (length runs) ids)
      ∙ sym (used_is_sum runs e year none) in
    let total = use_of e (closed_items runs year none) in
    used_is_sum (run ∷ runs) e year none
    ∙ front rate year e basic bonus runs
    ∙ rw same (
        rw (used_is_sum runs e year none)
          (reorder bonus (pos (split_bonus rate bonus (pos basic) total).1) total))

-- However many bonuses an employee with one basic salary is paid in the closed runs of a year, each
-- costed after what the earlier runs used, the concession that they use together is within the
-- yearly cap, to half a pesewa.
pub year_of_bonuses-IsWithinCap :
    (rate : StatutoryRate) (year e basic : ℕ) (bonuses : List ℤ)
    → IsWithinCap rate basic
        (bonus_concession_used_ytd (year_of_bonuses rate year e basic bonuses) (some e) year none)
year_of_bonuses-IsWithinCap rate year e basic [] =
    rw (used_is_sum [] e year none) (unfold closed_items in omega arith)
year_of_bonuses-IsWithinCap rate year e basic (bonus ∷ earlier) =
    let runs = year_of_bonuses rate year e basic earlier in
    rw (new_use rate year e basic bonus runs (year_of_bonuses-ids rate year e basic earlier)) (
      concession_used-IsWithinCap rate basic bonus
        (bonus_concession_used_ytd runs (some e) year none)
        (year_of_bonuses-IsWithinCap rate year e basic earlier))
