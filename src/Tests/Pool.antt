-- ===== src/Tests/Pool.antt =====
-- Runs of the pool of backends.
use sql_ai_tools.Text.Decimal.{itoa}
use sql_ai_tools.Prelude.{
  ℕ, zero, suc, ◌<◌, ◌≡◌, ◌≢◌, ◌↔◌, refl, Bool, true, false, List, [], ◌∷◌, ◌++◌, none, some, arith,
  codes, inl,
}
use sql_ai_tools.Text.{bytes_eq}
use sql_ai_tools.Prelude.Int.{ℤ, pos}
use sql_ai_tools.Route.Quarter.{Quarter, backend_name}
use sql_ai_tools.Route.Discover.{Host, find_backend}
use sql_ai_tools.Pool.{in_entry, taken, touch, close_from, shut_all}
use sql_ai_tools.Pool.System.{
  waiting, calling, closing, finished, answered, missing_backend, refused_closed, drained, dispatch,
  sweep, shut_down, Event, step, run, start, checking,
}
use sql_ai_tools.Pool.Safety.{last, mapped_iff_alive, calls_exclusive, closes_once}
use sql_ai_tools.Pool.Progress.{distance, step-distance}
use sql_ai_tools.Pool.Frees.{Environment, drive}
use sql_ai_tools.Pool.Liveness.{AtRest, rests}
use sql_ai_tools.Pool.Leak.{race, client_lost}

abbrev autumn : Quarter
autumn = record { year = pos 25; q = pos 4 }

abbrev winter : Quarter
winter = record { year = pos 26; q = pos 1 }

-- A machine with the one backend of 25.4.
abbrev host : Host
host = record {
  self_dir = some (codes "/b");
  self_path = some (codes "/b/crdb-sql");
  path_list = [];
  read_dir = λ dir. some [];
  join = λ dir name. dir ++ b'/' ∷ name;
  abs = λ path. some path;
  base = λ path. path;
  exec_suffix = [];
  is_executable = λ path. bytes_eq path (codes "/b/crdb-sql-v254");
}

-- Thread `i` goes next; a free one begins a dispatch to 25.4.
abbrev go : ℕ → Bool → Event
go i ok = record { thread = i; task = dispatch autumn; now = 100; host = host; succeeds = ok }

abbrev goes : ℕ → ℕ → List Event
goes i zero = []
goes i (suc n) = go i true ∷ goes i n

abbrev window : ℤ
window = pos 300

-- Two dispatches: the first is in its call, the second waits for the mutex.
abbrev contended : List Event
contended = goes 0 5 ++ goes 1 2

-- The janitor begins a sweep at time 500.
abbrev janitor : Event
janitor = record { thread = 9; task = sweep; now = 500; host = host; succeeds = true }

abbrev shutter : Event
shutter = record { thread = 8; task = shut_down; now = 500; host = host; succeeds = true }

contended_pcs :
    ((run contended (start window)).pc 0 ≡ calling autumn 0 0)
    × ((run contended (start window)).pc 1 ≡ waiting autumn 0 0)
unfolding run find_backend bytes_eq backend_name itoa
contended_pcs = (refl, refl)

-- The second dispatch uses the client of the first.
reused_run :
    let s = run (contended ++ goes 0 2 ++ goes 1 5) (start window) in
    (s.pc 1 ≡ finished answered) × (s.pool.clients ≡ 1)
unfolding run find_backend bytes_eq backend_name itoa touch
reused_run = (refl, refl)

-- A sweep closes the idle client, and a dispatch begun later starts another.
swept_run :
    let s = run (goes 0 7 ++ janitor ∷ janitor ∷ janitor ∷ janitor ∷ []) (start window) in
    (s.pc 9 ≡ finished drained) × (s.pool.entries autumn ≡ none)
unfolding run find_backend bytes_eq backend_name itoa touch
swept_run = (refl, refl)

closed_run :
    let s = run (goes 0 7 ++ shutter ∷ shutter ∷ shutter ∷ shutter ∷ goes 1 2) (start window) in
    (s.pc 8 ≡ finished drained) × (s.pc 1 ≡ finished refused_closed)
unfolding run close_from find_backend bytes_eq backend_name itoa touch shut_all
closed_run = (refl, refl)

missing_run :
    let ev = record (go 0 true) { task = dispatch winter } in
    (run (ev ∷ ev ∷ []) (start window)).pc 0 ≡ finished missing_backend
unfolding run find_backend bytes_eq backend_name itoa
missing_run = refl

mapped_iff_alive_example : ((last window contended).pool.entries autumn ≡ some 0) ↔ (
    (0 < (last window contended).pool.next)
    × (((last window contended).pool.heap 0).quarter ≡ autumn)
    × (((last window contended).pool.heap 0).dead ≡ false))
mapped_iff_alive_example = mapped_iff_alive window contended autumn 0

calls_exclusive_example : ((last window contended).pool.place 0 ≡ in_entry 0) × ◌≡◌ {A = ℕ} 0 0
unfolding run find_backend bytes_eq backend_name itoa
calls_exclusive_example =
    calls_exclusive window contended 0 0 autumn autumn 0 0 0 0 refl refl (inl refl)

-- The first call breaks and its thread evicts the entry.
abbrev broken : List Event
broken = contended ++ go 0 false ∷ go 0 true ∷ []

closes_once_example :
    ((last window broken).pool.place 0 ≡ taken 0)
    × ((e : ℕ) → ((last window broken).pool.heap e).client ≢ some 0)
    × ◌≡◌ {A = ℕ} 0 0
unfolding run find_backend bytes_eq backend_name itoa
closes_once_example = closes_once window broken 0 0 0 refl refl

step-distance_example :
    (distance ((step (go 0 true) (run contended (start window))).pc 0)
      < distance ((run contended (start window)).pc 0))
    × ((w : Quarter) → distance (checking w 0) ≡ 59)
unfolding run find_backend bytes_eq backend_name itoa
step-distance_example = step-distance window contended (go 0 true) (omega arith) tt

client_lost_example :
    let s = run contended (start window) in
    let t = run (race (go 0 true) 0 1) s in
    (t.pc 0 ≡ closing 0)
    × (t.pc 1 ≡ finished answered)
    × ((t.pool.heap 0).client ≡ some s.pool.clients)
    × (t.pool.place s.pool.clients ≡ in_entry 0)
    × ((t.pool.heap 0).dead ≡ true)
    × (t.pool.entries autumn ≢ some 0)
unfolding run find_backend bytes_eq backend_name itoa
client_lost_example =
    client_lost (go 0 true) 0 1 autumn 0 0 0 (run contended (start window)) (omega arith) refl refl
      refl

-- The environment of the runs above: each thread dispatches to 25.4, and each call succeeds.
abbrev dispatches : Environment
dispatches s = go 0 true

-- The second dispatch comes to rest, though the first one holds the mutex.
rests_example :
    (picks : List ℕ) × AtRest ((drive dispatches picks (run contended (start window))).pc 1)
rests_example = rests window contended dispatches 1
