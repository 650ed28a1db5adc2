-- ===== src/Limits/Table.antt =====
-- The table of app/distribution/request_limit.py: lookups after a write and after the pruning.
use pmvp.Prelude.{
  ℕ, ◌≡◌, ◌≤◌, ◌∙◌, refl, Bool, true, false, ◌||◌, List, [], ◌∷◌, Bool-cases, inl, inr, arith,
  if◌then◌else◌,
}
use pmvp.Text.{text_eq_refl, eq_of_text_eq, text_eq_sym}
use pmvp.Limits.{Name, same_name, Entry, is_stale, prune, get_hits, put_hits}
use pmvp.Limits.Hits.{live, AllUpTo, IsOldestFirst, AllUpTo-le, live-stale}

pub same_name_refl : (n : Name) → same_name n n ≡ true
same_name_refl (b, k) = ground (arith, text_eq_refl b, text_eq_refl k)

pub eq_of_same_name : (m n : Name) → same_name m n ≡ true → m ≡ n
eq_of_same_name (b, k) (c, l) h =
    let e : b ≡ c = eq_of_text_eq b c (ground arith) in
    let f : k ≡ l = eq_of_text_eq k l (ground arith) in cc

same_name_sym : (m n : Name) → same_name n m ≡ same_name m n
same_name_sym (b, k) (c, l) = let p = text_eq_sym c b in let q = text_eq_sym l k in ground arith

abbrev pub has_name : Name → List Entry → Bool
has_name n [] = false
has_name n (e ∷ table) = same_name e.name n || has_name n table

-- Names once, times in order, none in the future.
abbrev pub IsWellFormed : ℕ → List Entry → Type 0
IsWellFormed now [] = Unit
IsWellFormed now (e ∷ table) =
    (has_name e.name table ≡ false)
    × IsOldestFirst e.hits
    × AllUpTo now e.hits
    × IsWellFormed now table

pub get_hits-put_hits_self :
    (n : Name) (hits : List ℕ) (table : List Entry) → get_hits n (put_hits n hits table) ≡ hits
unfolding get_hits put_hits
get_hits-put_hits_self n hits [] = rw (same_name_refl n) refl
get_hits-put_hits_self n hits (e ∷ table) = ground (arith, get_hits-put_hits_self n hits table)

pub get_hits-put_hits_other :
    (m n : Name) (hits : List ℕ) (table : List Entry)
    → same_name m n ≡ false
    → get_hits n (put_hits m hits table) ≡ get_hits n table
unfolding get_hits put_hits
get_hits-put_hits_other m n hits [] other = rw other refl
get_hits-put_hits_other m n hits (e ∷ table) other = elim (Bool-cases (same_name e.name m)) [
  | inl same ↦ rw (put_hits, same, get_hits) (rw (eq_of_same_name e.name m same, other) refl)
  | inr apart ↦ rw (put_hits, apart) (ground (arith, get_hits-put_hits_other m n hits table other))
]

has_name-put_hits :
    (m n : Name) (hits : List ℕ) (table : List Entry)
    → same_name m n ≡ false
    → has_name n (put_hits m hits table) ≡ has_name n table
unfolding put_hits
has_name-put_hits m n hits [] other = rw other refl
has_name-put_hits m n hits (e ∷ table) other =
    ground (arith, has_name-put_hits m n hits table other)

has_name-prune :
    (n : Name) (now : ℕ) (table : List Entry)
    → has_name n table ≡ false
    → has_name n (prune now table) ≡ false
unfolding prune
has_name-prune n now [] h = refl
has_name-prune n now (e ∷ table) h = ground (arith, has_name-prune n now table)

pub put_hits-IsWellFormed :
    (now : ℕ) (n : Name) (hits : List ℕ) (table : List Entry)
    → IsOldestFirst hits
    → AllUpTo now hits
    → IsWellFormed now table
    → IsWellFormed now (put_hits n hits table)
unfolding put_hits
put_hits-IsWellFormed now n hits [] sorted all well = (refl, sorted, all, tt)
put_hits-IsWellFormed now n hits (e ∷ table) sorted all (once, s, a, well) =
    elim (Bool-cases (same_name e.name n)) [
      | inl same ↦ rw (put_hits, same) (once, sorted, all, well)
      | inr apart ↦
          rw (put_hits, apart)
            (
              has_name-put_hits n e.name hits table (same_name_sym e.name n ∙ apart) ∙ once,
              s,
              a,
              put_hits-IsWellFormed now n hits table sorted all well,
            )
    ]

pub IsWellFormed-le :
    {now later : ℕ} (table : List Entry)
    → now ≤ later
    → IsWellFormed now table
    → IsWellFormed later table
IsWellFormed-le [] h well = tt
IsWellFormed-le (e ∷ table) h (once, s, a, well) =
    (once, s, AllUpTo-le e.hits h a, IsWellFormed-le table h well)

pub prune-IsWellFormed :
    (s now : ℕ) (table : List Entry) → IsWellFormed s table → IsWellFormed s (prune now table)
unfolding prune
prune-IsWellFormed s now [] well = tt
prune-IsWellFormed s now (e ∷ table) (once, o, a, well) = elim (Bool-cases (is_stale now e.hits)) [
  | inl stale ↦ rw (prune, stale) (prune-IsWellFormed s now table well)
  | inr fresh ↦
      rw (prune, fresh)
        (has_name-prune e.name now table once, o, a, prune-IsWellFormed s now table well)
]

get_hits-none : (n : Name) (table : List Entry) → has_name n table ≡ false → get_hits n table ≡ []
unfolding get_hits
get_hits-none n [] h = refl
get_hits-none n (e ∷ table) h = ground (arith, get_hits-none n table)

unless_same :
    (n : Name) (later : ℕ) (e : Entry) (table : List Entry)
    → has_name e.name table ≡ false
    → live later e.hits ≡ 0
    → live later (get_hits n table)
      ≡ live later (if same_name e.name n then e.hits else get_hits n table)
unless_same n later e table once none = elim (Bool-cases (same_name e.name n)) [
  | inl same ↦
      rw (same, get_hits-none n table (rw (← eq_of_same_name e.name n same) once), none) refl
  | inr apart ↦ rw apart refl
]

-- Pruning loses no time of the last minute.
pub live-prune :
    (n : Name) (s now later : ℕ) (table : List Entry)
    → now ≤ later
    → IsWellFormed s table
    → live later (get_hits n (prune now table)) ≡ live later (get_hits n table)
unfolding prune get_hits
live-prune n s now later [] h well = refl
live-prune n s now later (e ∷ table) h (once, o, a, well) =
    let rest = live-prune n s now later table h well in
    elim (Bool-cases (is_stale now e.hits)) [
      | inl stale ↦
          rw (prune, stale)
            (rest ∙ unless_same n later e table once (live-stale now later e.hits h o stale))
      | inr fresh ↦ rw (prune, fresh) (ground (arith, rest))
    ]
