-- ===== src/Limits/Hits.antt =====
-- The times of one name (app/distribution/request_limit.py): which are of the last minute.
use pmvp.Prelude.{
  ℕ, ◌+◌, ◌≡◌, ◌≤◌, refl, true, false, List, [], ◌∷◌, ◌++◌, length, Bool-cases, inl, inr, arith,
  if◌then◌else◌,
}
use pmvp.Limits.{is_old, is_stale, drop_old}

-- How many of the times are of the last minute.
abbrev pub live : ℕ → List ℕ → ℕ
live now [] = 0
live now (t ∷ hits) = if is_old now t then live now hits else live now hits + 1

abbrev pub AllAfter : ℕ → List ℕ → Type 0
AllAfter s [] = Unit
AllAfter s (t ∷ hits) = (s ≤ t) × AllAfter s hits

abbrev pub AllUpTo : ℕ → List ℕ → Type 0
AllUpTo s [] = Unit
AllUpTo s (t ∷ hits) = (t ≤ s) × AllUpTo s hits

abbrev pub IsOldestFirst : List ℕ → Type 0
IsOldestFirst [] = Unit
IsOldestFirst (t ∷ hits) = AllAfter t hits × IsOldestFirst hits

pub AllUpTo-le : {s t : ℕ} (hits : List ℕ) → s ≤ t → AllUpTo s hits → AllUpTo t hits
AllUpTo-le [] h all = tt
AllUpTo-le (x ∷ hits) h (a, all) = (omega arith, AllUpTo-le hits h all)

live-AllAfter :
    (now s : ℕ) (hits : List ℕ)
    → is_old now s ≡ false
    → AllAfter s hits
    → live now hits ≡ length hits
live-AllAfter now s [] young after = refl
live-AllAfter now s (t ∷ hits) young (a, after) =
    ground (arith, live-AllAfter now s hits young after)

-- Where the oldest come first, those left are those of the last minute.
pub length-drop_old :
    (now : ℕ) (hits : List ℕ) → IsOldestFirst hits → length (drop_old now hits) ≡ live now hits
unfolding drop_old
length-drop_old now [] sorted = refl
length-drop_old now (t ∷ hits) (after, sorted) =
    ground (arith, length-drop_old now hits sorted, live-AllAfter now t hits)

pub live-drop_old :
    (now later : ℕ) (hits : List ℕ) → now ≤ later → live later (drop_old now hits) ≡ live later hits
unfolding drop_old
live-drop_old now later [] h = refl
live-drop_old now later (t ∷ hits) h = ground (arith, live-drop_old now later hits h)

pub drop_old-IsOldestFirst :
    (now : ℕ) (hits : List ℕ) → IsOldestFirst hits → IsOldestFirst (drop_old now hits)
unfolding drop_old
drop_old-IsOldestFirst now [] sorted = tt
drop_old-IsOldestFirst now (t ∷ hits) (after, sorted) = elim (Bool-cases (is_old now t)) [
  | inl old ↦ rw (drop_old, old) (drop_old-IsOldestFirst now hits sorted)
  | inr young ↦ rw (drop_old, young) (after, sorted)
]

pub drop_old-AllUpTo : (now s : ℕ) (hits : List ℕ) → AllUpTo s hits → AllUpTo s (drop_old now hits)
unfolding drop_old
drop_old-AllUpTo now s [] all = tt
drop_old-AllUpTo now s (t ∷ hits) (a, all) = elim (Bool-cases (is_old now t)) [
  | inl old ↦ rw (drop_old, old) (drop_old-AllUpTo now s hits all)
  | inr young ↦ rw (drop_old, young) (a, all)
]

pub live-append :
    (now t : ℕ) (hits : List ℕ) → live now (hits ++ (t ∷ [])) ≡ live now hits + live now (t ∷ [])
live-append now t [] = omega arith
live-append now t (x ∷ hits) = ground (arith, live-append now t hits)

AllAfter-append :
    (s t : ℕ) (hits : List ℕ) → AllAfter s hits → s ≤ t → AllAfter s (hits ++ (t ∷ []))
AllAfter-append s t [] after h = (h, tt)
AllAfter-append s t (x ∷ hits) (a, after) h = (a, AllAfter-append s t hits after h)

pub IsOldestFirst-append :
    (t : ℕ) (hits : List ℕ) → IsOldestFirst hits → AllUpTo t hits → IsOldestFirst (hits ++ (t ∷ []))
IsOldestFirst-append t [] sorted all = (tt, tt)
IsOldestFirst-append t (x ∷ hits) (after, sorted) (a, all) =
    (AllAfter-append x t hits after a, IsOldestFirst-append t hits sorted all)

pub AllUpTo-append : (t : ℕ) (hits : List ℕ) → AllUpTo t hits → AllUpTo t (hits ++ (t ∷ []))
AllUpTo-append t [] all = (omega arith, tt)
AllUpTo-append t (x ∷ hits) (a, all) = (a, AllUpTo-append t hits all)

-- All times of a stale name are old from then on.
pub live-stale :
    (now later : ℕ) (hits : List ℕ)
    → now ≤ later
    → IsOldestFirst hits
    → is_stale now hits ≡ true
    → live later hits ≡ 0
live-stale now later [] h sorted stale = refl
live-stale now later (t ∷ []) h sorted stale = ground arith
live-stale now later (t ∷ u ∷ hits) h ((a, after), sorted) stale =
    let rest = live-stale now later (u ∷ hits) h sorted stale in ground arith
