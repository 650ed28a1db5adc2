-- ===== src/Limits/Refines.antt =====
-- `allow` of app/distribution/request_limit.py beside the log of counted requests that it stands
-- for.
use pmvp.Prelude.{
  ℕ, ◌≡◌, ◌≤◌, ◌∙◌, refl, Bool, false, ◌==◌, leb, List, [], ◌∷◌, ◌++◌, length, Bool-cases, inl, inr,
  arith,
}
use pmvp.Limits.{
  Name, same_name, Entry, Request, Counted, drop_old, get_hits, put_hits, bounded, max_tracked_keys,
  allow, allow_all, recent, promised, promised_all,
}
use pmvp.Limits.Hits.{
  live, AllUpTo, IsOldestFirst, length-drop_old, live-drop_old, drop_old-IsOldestFirst,
  drop_old-AllUpTo, live-append, IsOldestFirst-append, AllUpTo-append,
}
use pmvp.Limits.Table.{
  IsWellFormed, same_name_refl, eq_of_same_name, get_hits-put_hits_self, get_hits-put_hits_other,
  put_hits-IsWellFormed, IsWellFormed-le, prune-IsWellFormed, live-prune,
}

-- From a time on, the table tells of every name what the log does.
abbrev Tells : ℕ → List Entry → List Counted → Type 0
Tells now table log =
    (n : Name) (later : ℕ) → now ≤ later → live later (get_hits n table) ≡ recent n later log

abbrev Simulates : ℕ → List Entry → List Counted → Type 0
Simulates now table log = IsWellFormed now table × Tells now table log

get_hits-ordered :
    (now : ℕ) (n : Name) (table : List Entry)
    → IsWellFormed now table
    → IsOldestFirst (get_hits n table) × AllUpTo now (get_hits n table)
unfolding get_hits
get_hits-ordered now n [] well = (tt, tt)
get_hits-ordered now n (e ∷ table) (once, o, a, well) = elim (Bool-cases (same_name e.name n)) [
  | inl same ↦ rw (get_hits, same) (o, a)
  | inr apart ↦ rw (get_hits, apart) (get_hits-ordered now n table well)
]

-- The bound on the size of the table loses nothing.
bounded-Simulates :
    (now : ℕ) (table : List Entry) (log : List Counted)
    → Simulates now table log
    → Simulates now (bounded now table) log
bounded-Simulates now table log (well, tells) =
    elim (Bool-cases (leb max_tracked_keys (length table))) [
      | inl full ↦ rw full (
        prune-IsWellFormed now now table well,
        λ n later h. live-prune n now now later table h well ∙ tells n later h,
      )
      | inr room ↦ rw room (well, tells)
    ]

-- A write of times that tell what a new log does of one name, and of the others what the old did.
put_hits-Simulates :
    (now : ℕ) (m : Name) (hits : List ℕ) (table : List Entry) (log more : List Counted)
    → Simulates now table log
    → IsOldestFirst hits
    → AllUpTo now hits
    → ((later : ℕ) → now ≤ later → live later hits ≡ recent m later more)
    → ((n : Name) (later : ℕ) → same_name m n ≡ false → recent n later more ≡ recent n later log)
    → Simulates now (put_hits m hits table) more
put_hits-Simulates now m hits table log more (well, tells) o a mine others = (
  put_hits-IsWellFormed now m hits table o a well,
  λ n later h. elim (Bool-cases (same_name m n)) [
    | inl same ↦
        let e = eq_of_same_name m n same in
        rw (← e, get_hits-put_hits_self m hits table) (mine later h)
    | inr apart ↦
        rw (get_hits-put_hits_other m n hits table apart, others n later apart) (tells n later h)
  ],
)

Simulates-le :
    {now later : ℕ} (table : List Entry) (log : List Counted)
    → now ≤ later
    → Simulates now table log
    → Simulates later table log
Simulates-le table log h (well, tells) =
    (IsWellFormed-le table h well, λ n after g. tells n after (omega arith))

-- The request that is counted is one more on both sides.
one_more :
    (r : Request) (later : ℕ) (hits : List ℕ) (log : List Counted)
    → live later hits ≡ recent r.name later log
    → live later (hits ++ (r.current ∷ []))
      ≡ recent r.name later (record { name = r.name; current = r.current } ∷ log)
one_more r later hits log same =
    rw (live-append later r.current hits, same_name_refl r.name, same) (ground arith)

-- The same answer, and states that go on telling the same.
abbrev Agree : ℕ → Bool × List Entry → Bool × List Counted → Type 0
Agree now done said = (done.0 ≡ said.0) × Simulates now done.1 said.1

allow-Agree :
    (r : Request) (table : List Entry) (log : List Counted)
    → Simulates r.current table log
    → Agree r.current (allow r table) (promised r log)
unfolding allow promised
allow-Agree r table log simulates =
    let now = r.current in
    let kept = bounded now table in
    let (well, tells) = bounded-Simulates now table log simulates in
    let before = get_hits r.name kept in
    let hits = drop_old now before in
    let (o, a) = get_hits-ordered now r.name kept well in
    let o' = drop_old-IsOldestFirst now before o in
    let a' = drop_old-AllUpTo now now before a in
    let count : length hits ≡ recent r.name now log =
      length-drop_old now before o ∙ tells r.name now (omega arith) in
    let same_times : (later : ℕ) → now ≤ later → live later hits ≡ recent r.name later log =
      λ later h. live-drop_old now later before h ∙ tells r.name later h in
    elim (Bool-cases (r.per_minute == 0)) [
      | inl unlimited ↦ rw unlimited (refl, simulates)
      | inr limited ↦
          rw (limited, count)
            (elim (Bool-cases (leb r.per_minute (recent r.name now log))) [
              | inl full ↦ rw full (
                refl,
                put_hits-Simulates now r.name hits kept log log (well, tells) o' a' same_times
                    (λ n later apart. refl),
              )
              | inr room ↦ rw room (
                refl,
                put_hits-Simulates now r.name (hits ++ (now ∷ [])) kept log
                    (record { name = r.name; current = r.current } ∷ log) (well, tells)
                    (IsOldestFirst-append now hits o' a') (AllUpTo-append now hits a')
                    (λ later h. one_more r later hits log (same_times later h))
                    (λ n later apart. rw apart refl),
              )
            ])
    ]

-- The requests come in the order of the clock.
abbrev pub IsInOrder : ℕ → List Request → Type 0
IsInOrder now [] = Unit
IsInOrder now (r ∷ requests) = (now ≤ r.current) × IsInOrder r.current requests

allow_all-promised_all :
    (now : ℕ) (requests : List Request) (table : List Entry) (log : List Counted)
    → IsInOrder now requests
    → Simulates now table log
    → allow_all requests table ≡ promised_all requests log
unfolding allow_all promised_all
allow_all-promised_all now [] table log order simulates = refl
allow_all-promised_all now (r ∷ requests) table log (h, order) simulates =
    let (same, after) = allow-Agree r table log (Simulates-le table log h simulates) in
    rw
      (
        same,
        allow_all-promised_all r.current requests (allow r table).1 (promised r log).1 order after,
      )
      refl

-- On requests that come in the order of the clock, the limiter answers as it promises: a request is
-- refused exactly if its name has already made its limit of counted requests in the last minute (a
-- limit of 0 is none), whatever the limiter has dropped from its table in between.
pub allow_all-refines :
    (requests : List Request)
    → IsInOrder 0 requests
    → allow_all requests [] ≡ promised_all requests []
allow_all-refines requests order =
    allow_all-promised_all 0 requests [] [] order (tt, λ n later h. unfold get_hits in refl)
