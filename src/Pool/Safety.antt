-- ===== src/Pool/Safety.antt =====
-- What holds in every state that the threads can reach, whatever the order of their steps.
use sql_ai_tools.Prelude.{
  ℕ, ◌<◌, ◌≡◌, ◌≢◌, ◌↔◌, ◌⊎◌, refl, Bool, true, false, List, [], ◌∷◌, some, arith, ◌==◌,
  if◌then◌else◌, ==_iff,
}
use sql_ai_tools.Prelude.Int.{ℤ}
use sql_ai_tools.Route.Quarter.{Quarter}
use sql_ai_tools.Pool.{Pool, in_entry, taken}
use sql_ai_tools.Pool.Invariant.{PoolInv}
use sql_ai_tools.Pool.System.{
  Pc, calling, closing, draining_client, evicting, Event, act, System, step, run, start,
}
use sql_ai_tools.Pool.Threads.{Local, Local-Stable, Good, act-Good}

pub record SystemInv (s : System) : Type 0 where
  pub pool_inv : PoolInv s.pool
  pub local : (i : ℕ) → Local i (s.pc i) s.pool

pub step-SystemInv : (ev : Event) (s : System) → SystemInv s → SystemInv (step ev s)
unfolding step
step-SystemInv ev s v = record { pool_inv = good.inv; local = λ i. each i (ev.thread == i) refl }
  where
    good : Good ev.thread s.pool (act ev ev.thread (s.pc ev.thread) s.pool)
    good = act-Good ev ev.thread (s.pc ev.thread) s.pool v.pool_inv (v.local ev.thread)

    each :
        (i : ℕ) (b : Bool)
        → (ev.thread == i) ≡ b
        → Local i
            (if b then (act ev ev.thread (s.pc ev.thread) s.pool).1 else s.pc i)
            (act ev ev.thread (s.pc ev.thread) s.pool).0
    each i true e = rw (← (==_iff ev.thread i).0 e) good.own
    each i false e =
        Local-Stable i (s.pc i) s.pool _ (good.others i (λ h. ground (arith, e, h))) (v.local i)

run-SystemInv : (evs : List Event) (s : System) → SystemInv s → SystemInv (run evs s)
unfolding run
run-SystemInv [] s v = v
run-SystemInv (ev ∷ evs) s v = run-SystemInv evs (step ev s) (step-SystemInv ev s v)

start-SystemInv : (timeout : ℤ) → SystemInv (start timeout)
start-SystemInv timeout = record {
  pool_inv = record {
    mapped = λ w e h. ground arith;
    alive = λ e h d. absurd (omega (arith, h));
    sealed = λ h w. refl;
    placed = λ e c h. ground arith;
    fresh = λ c h. refl;
  };
  local = λ i. tt;
}

pub reached : (timeout : ℤ) (evs : List Event) → SystemInv (run evs (start timeout))
reached timeout evs = run-SystemInv evs (start timeout) (start-SystemInv timeout)

-- A thread that stands here closes the client.
abbrev pub InHand : Pc → ℕ → Type 0
InHand (closing c) d = c ≡ d
InHand (draining_client c es) d = c ≡ d
InHand (evicting w e (some c)) d = c ≡ d
InHand _ d = ⊥

InHand-taken : (i : ℕ) (k : Pc) (d : ℕ) (p : Pool) → InHand k d → Local i k p → p.place d ≡ taken i
InHand-taken i (closing c) d p h l = rw (← h) l
InHand-taken i (draining_client c es) d p h l = rw (← h) l
InHand-taken i (evicting w e (some c)) d p h l = rw (← h) l.1
InHand-taken i _ d p h l = absurd h

module _ (timeout : ℤ) (evs : List Event) where
  abbrev pub last : System
  last = run evs (start timeout)

  -- In every state that the threads reach, the map gives an entry for a quarter exactly when that entry
  -- was made, is of that quarter, and is not dead.
  pub mapped_iff_alive :
      (w : Quarter) (e : ℕ)
      → (last.pool.entries w ≡ some e) ↔ (
          (e < last.pool.next)
          × ((last.pool.heap e).quarter ≡ w)
          × ((last.pool.heap e).dead ≡ false))
  mapped_iff_alive w e =
      let v = (reached timeout evs).pool_inv in
      (v.mapped w e, λ (lt, q, d). rw (← q) (v.alive e lt d))

  Local-last : (i : ℕ) (k : Pc) → last.pc i ≡ k → Local i k last.pool
  Local-last i k e = rw (← e) ((reached timeout evs).local i)

  -- No client is used after it is closed, nor by two threads at once: the client of a call in progress
  -- is in its entry, and two calls on one entry or on one client are the same thread's.
  pub calls_exclusive :
      (i j : ℕ) (w w' : Quarter) (e e' c c' : ℕ)
      → last.pc i ≡ calling w e c
      → last.pc j ≡ calling w' e' c'
      → (e' ≡ e) ⊎ (c' ≡ c)
      → (last.pool.place c ≡ in_entry e) × (i ≡ j)
  calls_exclusive i j w w' e e' c c' at at' same =
      let v = (reached timeout evs).pool_inv in
      let l = Local-last i (calling w e c) at in
      let l' = Local-last j (calling w' e' c') at' in
      ground (arith, l, l', v.placed e c, v.placed e' c')

  -- A client that a thread has in hand to close, behind a broken call, from an entry that it evicts or
  -- from one that the janitor or Close dropped, is recorded as that thread's: it stands in no entry, and
  -- no other thread has it in hand.
  pub closes_once :
      (i j c : ℕ)
      → InHand (last.pc i) c
      → InHand (last.pc j) c
      → (last.pool.place c ≡ taken i) × ((e : ℕ) → (last.pool.heap e).client ≢ some c) × (i ≡ j)
  closes_once i j c at at' =
      let v = (reached timeout evs).pool_inv in
      let l = InHand-taken i (last.pc i) c last.pool at ((reached timeout evs).local i) in
      let l' = InHand-taken j (last.pc j) c last.pool at' ((reached timeout evs).local j) in
      (l, λ e h. ground (arith, l, v.placed e c h), ground (arith, l, l'))
