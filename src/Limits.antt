-- ===== src/Limits.antt =====
-- app/distribution/request_limit.py: a sliding one-minute window per (bucket, key), and the
-- promise that it implements. Times are milliseconds of the monotonic clock.
pub mod Hits
pub mod Table
pub mod Refines
mod Tests
use pmvp.Prelude.{
  ℕ, ◌+◌, Bool, true, false, not, ◌&&◌, ◌||◌, ◌==◌, leb, List, [], ◌∷◌, ◌++◌, length, if◌then◌else◌,
}
use pmvp.Text.{Text, text_eq}

-- (bucket, key)
abbrev pub Name : Type 0
Name = Text × Text

abbrev pub same_name : Name → Name → Bool
same_name (b, k) (c, l) = text_eq b c && text_eq k l

-- An entry of `_hits`: the times of the requests that were counted, oldest first.
pub record Entry : Type 0 where
  pub name : Name
  pub hits : List ℕ

-- _WINDOW_SECONDS
abbrev pub window : ℕ
window = 60000

-- _MAX_TRACKED_KEYS
abbrev pub max_tracked_keys : ℕ
max_tracked_keys = 10000

-- `t <= window_start`
abbrev pub is_old : ℕ → ℕ → Bool
is_old now t = leb (t + window) now

-- `not hits or hits[-1] <= window_start`
abbrev pub is_stale : ℕ → List ℕ → Bool
is_stale now [] = true
is_stale now (t ∷ []) = is_old now t
is_stale now (t ∷ u ∷ hits) = is_stale now (u ∷ hits)

-- `_prune`
unfoldable pub prune : ℕ → List Entry → List Entry
prune now [] = []
prune now (e ∷ table) = if is_stale now e.hits then prune now table else e ∷ prune now table

-- `while hits and hits[0] <= window_start: hits.popleft()`
unfoldable pub drop_old : ℕ → List ℕ → List ℕ
drop_old now [] = []
drop_old now (t ∷ hits) = if is_old now t then drop_old now hits else t ∷ hits

-- The deque of a name, empty for a new one, and the table with the deque as it is left.
unfoldable pub get_hits : Name → List Entry → List ℕ
get_hits name [] = []
get_hits name (e ∷ table) = if same_name e.name name then e.hits else get_hits name table

unfoldable pub put_hits : Name → List ℕ → List Entry → List Entry
put_hits name hits [] = record { name = name; hits = hits } ∷ []
put_hits name hits (e ∷ table) =
    if same_name e.name name then record e { hits = hits } ∷ table else e ∷ put_hits name hits table

-- The table after the bound on its size.
abbrev pub bounded : ℕ → List Entry → List Entry
bounded now table = if leb max_tracked_keys (length table) then prune now table else table

-- A request: its name, the limit it is held to, and when it is made.
pub record Request : Type 0 where
  pub name : Name
  pub per_minute : ℕ
  pub current : ℕ

-- `allow`
unfoldable pub allow : Request → List Entry → Bool × List Entry
unfolding prune drop_old get_hits put_hits
allow r table =
    let kept = bounded r.current table in
    let hits = drop_old r.current (get_hits r.name kept) in
    if r.per_minute == 0
    then (true, table)
    else (if leb r.per_minute (length hits)
        then (false, put_hits r.name hits kept)
        else (true, put_hits r.name (hits ++ (r.current ∷ [])) kept))

unfoldable pub allow_all : List Request → List Entry → List Bool
unfolding allow
allow_all [] table = []
allow_all (r ∷ requests) table =
    let (answer, after) = allow r table in answer ∷ allow_all requests after

-- The promise: the log of the requests that were counted, and how many of a name are of the last
-- minute.
pub record Counted : Type 0 where
  pub name : Name
  pub current : ℕ

abbrev pub recent : Name → ℕ → List Counted → ℕ
recent name now [] = 0
recent name now (c ∷ log) =
    if same_name c.name name && not (is_old now c.current)
    then recent name now log + 1
    else recent name now log

-- A request is refused if its name has already made that many counted requests in the last minute.
unfoldable pub promised : Request → List Counted → Bool × List Counted
promised r log =
    if r.per_minute == 0
    then (true, log)
    else (if leb r.per_minute (recent r.name r.current log)
        then (false, log)
        else (true, record { name = r.name; current = r.current } ∷ log))

unfoldable pub promised_all : List Request → List Counted → List Bool
unfolding promised
promised_all [] log = []
promised_all (r ∷ requests) log =
    let (answer, after) = promised r log in answer ∷ promised_all requests after
