-- ===== src/Pool/Progress.antt =====
-- A dispatch ends: each step of its own that is not held up by a mutex brings it nearer.
use sql_ai_tools.Prelude.{
  ℕ, suc, ◌+◌, ◌-◌, ◌*◌, ◌<◌, ◌≤◌, ◌≡◌, refl, Bool, true, false, List, [], ◌∷◌, Option, none, some,
  arith, length, ltb, if◌then◌else◌, Bool-cases, inl, inr, ==_iff,
}
use sql_ai_tools.Route.Quarter.{Quarter}
use sql_ai_tools.Pool.{Pool, Checkout, pool_closed, not_installed, checked_out, checkout}
use sql_ai_tools.Pool.System.{
  Pc, idle, checking, waiting, locked, serving, calling, marking, evicting, closing, draining,
  draining_client, finished, Event, after_checkout, retry, serve, drain, is_free, act, step, run,
  start,
}
use sql_ai_tools.Pool.Threads.{Local}
use sql_ai_tools.Pool.Safety.{reached}
use sql_ai_tools.Prelude.Int.{ℤ}

-- How far a thread is from its end.
abbrev pub distance : Pc → ℕ
distance idle = 0
distance (checking w a) = 3 * (17 - a) + 8
distance (waiting w a e) = 3 * (17 - a) + 7
distance (locked w a e) = 3 * (17 - a) + 6
distance (serving w e) = 5
distance (calling w e c) = 4
distance (evicting w e o) = 3
distance (closing c) = 2
distance (marking e) = 1
distance (draining es) = 2 * length es + 1
distance (draining_client c es) = 2 * length es + 2
distance (finished o) = 0

-- The mutex that the thread waits for, if it waits for one, is free.
abbrev pub Unblocked : Pc → Pool → Type 0
Unblocked (waiting w a e) p = is_free (p.heap e).holder ≡ true
Unblocked (draining (e ∷ es)) p = is_free (p.heap e).holder ≡ true
Unblocked _ p = Unit

after_checkout-distance :
    (w : Quarter) (a : ℕ) (r : Checkout) → distance (after_checkout w a r) < 3 * (17 - a) + 8
unfolding after_checkout
after_checkout-distance w a pool_closed = omega arith
after_checkout-distance w a not_installed = omega arith
after_checkout-distance w a (checked_out e) = omega arith

if-distance :
    (b : Bool) (r s : Pool × Pc) (n : ℕ)
    → distance r.1 < n
    → distance s.1 < n
    → distance (if b then r else s).1 < n
if-distance true r s n h k = h
if-distance false r s n h k = k

retry-distance : (w : Quarter) (a : ℕ) → a ≤ 17 → distance (retry w a) < 3 * (17 - a) + 6
unfolding retry
retry-distance w a h = elim (Bool-cases (ltb 16 a)) [
  | inl b ↦ rw b (omega arith)
  | inr b ↦ rw b (ground (arith, b))
]

serve-distance :
    (w : Quarter) (e : ℕ) (b : Bool) (p : Pool) (o : Option ℕ) → distance (serve w e b p o).1 < 5
unfolding serve
serve-distance w e true p none = omega arith
serve-distance w e false p none = omega arith
serve-distance w e _ p (some c) = omega arith

drain-distance :
    (i e : ℕ) (es : List ℕ) (p : Pool) (o : Option ℕ)
    → distance (drain i e es p o).1 < 2 * suc (length es) + 1
unfolding drain
drain-distance i e es p none = omega arith
drain-distance i e es p (some c) = omega arith

pub act-distance :
    (ev : Event) (i : ℕ) (k : Pc) (p : Pool)
    → 0 < distance k
    → Local i k p
    → Unblocked k p
    → distance (act ev i k p).1 < distance k
unfolding act
act-distance ev i idle p h l u = absurd (omega arith)
act-distance ev i (finished o) p h l u = absurd (omega arith)
act-distance ev i (checking w a) p h l u =
    after_checkout-distance w a (checkout ev.host ev.now w p).1
act-distance ev i (waiting w a e) p h l u = rw u (omega arith)
act-distance ev i (locked w a e) p h l u =
    if-distance (p.heap e).dead _ _ _ (retry-distance w a l.0) (omega arith)
act-distance ev i (serving w e) p h l u = serve-distance w e ev.succeeds p (p.heap e).client
act-distance ev i (calling w e c) p h l u =
    if-distance ev.succeeds _ _ _ (omega arith) (omega arith)
act-distance ev i (marking e) p h l u = omega arith
act-distance ev i (evicting w e none) p h l u = omega arith
act-distance ev i (evicting w e (some c)) p h l u = omega arith
act-distance ev i (closing c) p h l u = omega arith
act-distance ev i (draining []) p h l u = omega arith
act-distance ev i (draining (e ∷ es)) p h l u = rw u (drain-distance i e es p (p.heap e).client)
act-distance ev i (draining_client c es) p h l u = omega arith

-- In every state that the threads can reach, a thread in the middle of a dispatch, a sweep or `Close`
-- whose mutex is free comes nearer to its end by its next step, and a dispatch that begins is 59 steps
-- away at most: the retries on evicted entries are bounded.
pub step-distance :
    (timeout : ℤ) (evs : List Event) (ev : Event)
    → 0 < distance ((run evs (start timeout)).pc ev.thread)
    → Unblocked ((run evs (start timeout)).pc ev.thread) (run evs (start timeout)).pool
    → (distance ((step ev (run evs (start timeout))).pc ev.thread)
        < distance ((run evs (start timeout)).pc ev.thread))
      × ((w : Quarter) → distance (checking w 0) ≡ 59)
unfolding step
step-distance timeout evs ev h u = (
  rw ((==_iff ev.thread ev.thread).1 refl)
      (act-distance ev ev.thread _ _ h ((reached timeout evs).local ev.thread) u),
  λ w. refl,
)
