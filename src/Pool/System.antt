-- ===== src/Pool/System.antt =====
-- Threads over one pool: `Dispatch`, the janitor's sweep and `Close`, interleaved in any order. A step
-- ends where a mutex is taken or released or the environment answers.
use sql_ai_tools.Prelude.{
  ℕ, suc, Bool, true, false, List, [], ◌∷◌, Option, none, some, ltb, if◌then◌else◌,
}
use sql_ai_tools.Prelude.Int.{ℤ}
use sql_ai_tools.Route.Quarter.{Quarter, zero_quarter}
use sql_ai_tools.Route.Discover.{Host}
use sql_ai_tools.Pool.{
  unborn, Pool, update, Checkout, pool_closed, not_installed, checked_out, checkout, mark_used,
  evict, sweep_idle, close, acquire, release, attach, take_client, close_client,
}

pub data Outcome : Type 0 where
  answered : Outcome
  missing_backend : Outcome
  refused_closed : Outcome
  churn : ℕ → Outcome
  spawn_failed : Outcome
  call_failed : Outcome
  drained : Outcome

-- Where a thread stands, with what its local variables hold.
pub data Pc : Type 0 where
  idle : Pc
  -- at the head of `Dispatch`'s loop
  checking : Quarter → ℕ → Pc
  -- before `entry.Lock()`
  waiting : Quarter → ℕ → ℕ → Pc
  -- before `if entry.dead`
  locked : Quarter → ℕ → ℕ → Pc
  -- in `dispatchLocked`
  serving : Quarter → ℕ → Pc
  calling : Quarter → ℕ → ℕ → Pc
  -- before `markUsed`
  marking : ℕ → Pc
  -- before `evict`, with the client to close
  evicting : Quarter → ℕ → Option ℕ → Pc
  closing : ℕ → Pc
  -- the victims of a sweep or of `Close` that are left, and the client in hand
  draining : List ℕ → Pc
  draining_client : ℕ → List ℕ → Pc
  finished : Outcome → Pc

pub data Task : Type 0 where
  dispatch : Quarter → Task
  sweep : Task
  shut_down : Task

-- What the environment decides for a step: the thread, what a free thread begins, the clock, the
-- machine, and whether a spawn or a call succeeds.
pub record Event : Type 0 where
  pub thread : ℕ
  pub task : Task
  pub now : ℕ
  pub host : Host
  pub succeeds : Bool

unfoldable pub begin : Task → ℕ → Pool → Pool × Pc
unfolding sweep_idle close
begin (dispatch want) now p = (p, checking want 0)
begin sweep now p = let (q, all) = sweep_idle now p in (q, draining all)
begin shut_down now p = let (q, all) = close p in (q, draining all)

unfoldable pub after_checkout : Quarter → ℕ → Checkout → Pc
after_checkout want attempt pool_closed = finished refused_closed
after_checkout want attempt not_installed = finished missing_backend
after_checkout want attempt (checked_out e) = waiting want attempt e

-- `attempt > 16`.
unfoldable pub retry : Quarter → ℕ → Pc
retry want attempt =
    if ltb 16 attempt then finished (churn attempt) else checking want (suc attempt)

unfoldable pub serve : Quarter → ℕ → Bool → Pool → Option ℕ → Pool × Pc
unfolding release attach
serve want e succeeds p none =
    if succeeds then (attach e p, calling want e p.clients) else (release e p, evicting want e none)
serve want e succeeds p (some c) = (p, calling want e c)

unfoldable pub after_evict : Option ℕ → Pc
after_evict none = finished spawn_failed
after_evict (some c) = closing c

unfoldable pub drain : ℕ → ℕ → List ℕ → Pool → Option ℕ → Pool × Pc
unfolding take_client
drain i e es p none = (p, draining es)
drain i e es p (some c) = (take_client i e c p, draining_client c es)

unfoldable pub is_free : Option ℕ → Bool
is_free none = true
is_free (some i) = false

-- The next step of thread `i`; a thread whose mutex is not free stays where it is.
unfoldable pub act : Event → ℕ → Pc → Pool → Pool × Pc
unfolding begin checkout after_checkout is_free acquire release retry serve take_client mark_used
    evict after_evict close_client drain
act ev i idle p = begin ev.task ev.now p
act ev i (finished o) p = begin ev.task ev.now p
act ev i (checking want attempt) p =
    let (q, r) = checkout ev.host ev.now want p in (q, after_checkout want attempt r)
act ev i (waiting want attempt e) p =
    if is_free (p.heap e).holder
    then (acquire i e p, locked want attempt e)
    else (p, waiting want attempt e)
act ev i (locked want attempt e) p =
    if (p.heap e).dead then (release e p, retry want attempt) else (p, serving want e)
act ev i (serving want e) p = serve want e ev.succeeds p (p.heap e).client
act ev i (calling want e c) p =
    if ev.succeeds
    then (release e p, marking e)
    else (release e (take_client i e c p), evicting want e (some c))
act ev i (marking e) p = (mark_used ev.now e p, finished answered)
act ev i (evicting want e o) p = (evict want e p, after_evict o)
act ev i (closing c) p = (close_client c p, finished call_failed)
act ev i (draining []) p = (p, finished drained)
act ev i (draining (e ∷ es)) p =
    if is_free (p.heap e).holder then drain i e es p (p.heap e).client else (p, draining (e ∷ es))
act ev i (draining_client c es) p = (close_client c p, draining es)

pub record System : Type 0 where
  pub pool : Pool
  pub pc : ℕ → Pc

unfoldable pub step : Event → System → System
unfolding act
step ev s =
    let (q, k) = act ev ev.thread (s.pc ev.thread) s.pool in
    record { pool = q; pc = update s.pc ev.thread k }

-- A run of the events, the first one first.
unfoldable pub run : List Event → System → System
unfolding step
run [] s = s
run (ev ∷ evs) s = run evs (step ev s)

-- `NewPoolRouter`: nothing in the map, and every thread idle.
abbrev pub start : ℤ → System
start timeout = record {
  pool = record {
    idle_timeout = timeout;
    entries = λ w. none;
    closed = false;
    heap = λ e. record {
      quarter = zero_quarter;
      path = [];
      client = none;
      last_used = 0;
      dead = true;
      holder = none;
    };
    next = 0;
    place = λ c. unborn;
    clients = 0;
  };
  pc = λ i. idle;
}
