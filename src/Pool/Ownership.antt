-- ===== src/Pool/Ownership.antt =====
-- Whoever holds the mutex of an entry is at work on that entry: no mutex is left locked.
use sql_ai_tools.Prelude.{
  ℕ, zero, suc, ◌≡◌, ◌≢◌, refl, sym, ap, ◌∙◌, Bool, true, false, List, [], ◌∷◌, Option, none, some,
  Bytes, arith, ◌==◌, ==_iff, if◌then◌else◌, Bool-cases, inl, inr,
}
use sql_ai_tools.Prelude.Int.{ℤ, pos, negsuc}
use sql_ai_tools.Route.Quarter.{Quarter}
use sql_ai_tools.Route.Discover.{Host, find_backend}
use sql_ai_tools.Pool.{
  Entry, Pool, update, touch, pool_closed, create, reuse, checkout, mark_used, evict, drop_entries,
  sweep_idle, sweep_from, is_idle, all_entries, shut_all, close, close_from, acquire, release,
  attach, take_client, close_client,
}
use sql_ai_tools.Pool.System.{
  Pc, idle, checking, waiting, locked, serving, calling, marking, evicting, closing, draining,
  draining_client, finished, Task, dispatch, sweep, shut_down, Event, begin, retry, serve, drain,
  is_free, act, System, step, run, start,
}

-- The thread is between `entry.Lock()` and `entry.Unlock()`.
abbrev pub Holds : ℕ → Pc → Type 0
Holds e (locked w a x) = x ≡ e
Holds e (serving w x) = x ≡ e
Holds e (calling w x c) = x ≡ e
Holds e _ = ⊥

-- No mutex has a holder that it did not have.
abbrev Keeps : Pool → Pool → Type 0
Keeps p q = (e j : ℕ) → (q.heap e).holder ≡ some j → (p.heap e).holder ≡ some j

-- A step of thread `i` at `k` gives the mutexes to no other thread, and it stands by those it holds.
record Owns (i : ℕ) (k : Pc) (p : Pool) (r : Pool × Pc) : Type 0 where
  others : (e j : ℕ) → j ≢ i → (r.0.heap e).holder ≡ some j → (p.heap e).holder ≡ some j
  own :
      ((e : ℕ) → (p.heap e).holder ≡ some i → Holds e k)
      → (e : ℕ) → (r.0.heap e).holder ≡ some i
      → Holds e r.1

-- A step that locks no mutex, of a thread that goes on holding what it held.
kept :
    (i : ℕ) (k l : Pc) (p q : Pool)
    → Keeps p q
    → ((e : ℕ) → Holds e k → Holds e l)
    → Owns i k p (q, l)
kept i k l p q same still = record {
  others = λ e j ne h. same e j h;
  own = λ mine e h. still e (mine e (same e i h));
}

if-Keeps :
    {A : Type 0} (p : Pool) (b : Bool) (x y : Pool × A)
    → Keeps p x.0
    → Keeps p y.0
    → Keeps p (if b then x else y).0
if-Keeps p true x y hx hy = hx
if-Keeps p false x y hx hy = hy

create-Keeps :
    (now : ℕ) (want : Quarter) (p : Pool) (o : Option Bytes) → Keeps p (create now want p o).0
unfolding create
create-Keeps now want p none e j h = h
create-Keeps now want p (some path) e j h = ground (arith, h)

touched-Keeps :
    (now : ℕ) (p : Pool) (x : ℕ)
    → Keeps p (record p { heap = update p.heap x (record (p.heap x) { last_used = now }) })
touched-Keeps now p x e j h = ground (arith, h)

reuse-Keeps :
    (host : Host) (now : ℕ) (want : Quarter) (p : Pool) (o : Option ℕ)
    → Keeps p (reuse host now want p o).0
unfolding reuse
reuse-Keeps host now want p none = create-Keeps now want p (find_backend host want)
reuse-Keeps host now want p (some x) =
    if-Keeps p (p.heap x).dead (create now want p (find_backend host want)) _
      (create-Keeps now want p (find_backend host want)) (touched-Keeps now p x)

checkout-Keeps :
    (host : Host) (now : ℕ) (want : Quarter) (p : Pool) → Keeps p (checkout host now want p).0
unfolding checkout
checkout-Keeps host now want p =
    if-Keeps p p.closed (p, pool_closed) (reuse host now want p (p.entries want)) (λ e j h. h)
      (reuse-Keeps host now want p (p.entries want))

drop_entries-Keeps : (drop : Entry → Bool) (p : Pool) → Keeps p (drop_entries drop p).0
unfolding drop_entries
drop_entries-Keeps drop p e j h = ground (arith, h)

sweep_from-Keeps : (timeout : ℤ) (now : ℕ) (p : Pool) → Keeps p (sweep_from timeout now p).0
unfolding sweep_from
sweep_from-Keeps (pos zero) now p e j h = h
sweep_from-Keeps (pos (suc n)) now p e j h = drop_entries-Keeps (is_idle (suc n) now) p e j h
sweep_from-Keeps (negsuc n) now p e j h = h

close_from-Keeps : (b : Bool) (p : Pool) → Keeps p (close_from b p).0
unfolding close_from shut_all
close_from-Keeps true p e j h = h
close_from-Keeps false p e j h = drop_entries-Keeps all_entries p e j h

module _ (i : ℕ) (p : Pool) where
  begin-Owns :
      (k : Pc) (t : Task) (now : ℕ) → ((e : ℕ) → Holds e k → ⊥) → Owns i k p (begin t now p)
  unfolding begin sweep_idle close
  begin-Owns k (dispatch want) now idle_held =
      kept i k _ p p (λ e j h. h) (λ e h. absurd (idle_held e h))
  begin-Owns k sweep now idle_held =
      kept i k _ p _ (sweep_from-Keeps p.idle_timeout now p) (λ e h. absurd (idle_held e h))
  begin-Owns k shut_down now idle_held =
      kept i k _ p _ (close_from-Keeps p.closed p) (λ e h. absurd (idle_held e h))

  -- The mutex is locked, or the thread goes on waiting for it.
  waiting-Owns :
      (want : Quarter) (a e : ℕ) (b : Bool)
      → Owns i
          (waiting want a e)
          p
          (if b then (acquire i e p, locked want a e) else (p, waiting want a e))
  unfolding acquire
  waiting-Owns want a e true = record {
    others = λ x j ne h. ground (arith, ne, h);
    own = λ mine x h. ground (arith, mine x, h);
  }
  waiting-Owns want a e false = kept i _ _ p p (λ x j h. h) (λ x h. h)

  -- The thread unlocks the one mutex that it holds.
  release-Owns :
      (k l : Pc) (e : ℕ) (q : Pool)
      → Keeps p q
      → ((x : ℕ) → Holds x k → e ≡ x)
      → Owns i k p (release e q, l)
  unfolding release
  release-Owns k l e q same only = record {
    others = λ x j ne h. same x j (ground (arith, h));
    own = λ mine x h.
        let was : (q.heap x).holder ≡ some i = ground (arith, h) in
        let here : e ≡ x = only x (mine x (same x i was)) in absurd (ground (arith, h, here));
  }

  if-Owns :
      (k : Pc) (b : Bool) (x y : Pool × Pc)
      → Owns i k p x
      → Owns i k p y
      → Owns i k p (if b then x else y)
  if-Owns k true x y hx hy = hx
  if-Owns k false x y hx hy = hy

  same_pool : Keeps p p
  same_pool e j h = h

  serve-Owns :
      (want : Quarter) (e : ℕ) (b : Bool) (o : Option ℕ)
      → Owns i (serving want e) p (serve want e b p o)
  unfolding serve attach
  serve-Owns want e true none = kept i _ _ p _ (λ x j h. ground (arith, h)) (λ x h. h)
  serve-Owns want e false none = release-Owns (serving want e) _ e p same_pool (λ x h. h)
  serve-Owns want e _ (some c) = kept i _ _ p p same_pool (λ x h. h)

  drain-Owns :
      (e : ℕ) (es : List ℕ) (o : Option ℕ) → Owns i (draining (e ∷ es)) p (drain i e es p o)
  unfolding drain take_client
  drain-Owns e es none = kept i _ _ p p same_pool (λ x h. h)
  drain-Owns e es (some c) = kept i _ _ p _ (λ x j h. ground (arith, h)) (λ x h. h)

  taken-Keeps : (e c : ℕ) → Keeps p (take_client i e c p)
  unfolding take_client
  taken-Keeps e c x j h = ground (arith, h)

  mark_used-Keeps : (now e : ℕ) → Keeps p (mark_used now e p)
  unfolding mark_used touch
  mark_used-Keeps now e = unless (p.heap e).dead
    where
      unless : (b : Bool) → Keeps p (if b then p else touch now e p)
      unless true x j h = h
      unless false x j h = touched-Keeps now p e x j h

  evict-Keeps : (want : Quarter) (e : ℕ) → Keeps p (evict want e p)
  unfolding evict
  evict-Keeps want e x j h = ground (arith, h)

act-Owns : (ev : Event) (i : ℕ) (k : Pc) (p : Pool) → Owns i k p (act ev i k p)
unfolding act
act-Owns ev i idle p = begin-Owns i p idle ev.task ev.now (λ e h. h)
act-Owns ev i (finished o) p = begin-Owns i p (finished o) ev.task ev.now (λ e h. h)
act-Owns ev i (checking want a) p =
    kept i _ _ p _ (checkout-Keeps ev.host ev.now want p) (λ e h. absurd h)
act-Owns ev i (waiting want a e) p = waiting-Owns i p want a e (is_free (p.heap e).holder)
act-Owns ev i (locked want a e) p =
    if-Owns i p (locked want a e) (p.heap e).dead (release e p, retry want a) (p, serving want e)
      (release-Owns i p _ _ e p (same_pool i p) (λ x h. h))
      (kept i _ _ p p (same_pool i p) (λ x h. h))
act-Owns ev i (serving want e) p = serve-Owns i p want e ev.succeeds (p.heap e).client
act-Owns ev i (calling want e c) p =
    if-Owns i p (calling want e c) ev.succeeds (release e p, marking e) _
      (release-Owns i p _ _ e p (same_pool i p) (λ x h. h))
      (release-Owns i p _ _ e (take_client i e c p) (taken-Keeps i p e c) (λ x h. h))
act-Owns ev i (marking e) p = kept i _ _ p _ (mark_used-Keeps i p ev.now e) (λ x h. absurd h)
act-Owns ev i (evicting want e o) p = kept i _ _ p _ (evict-Keeps i p want e) (λ x h. absurd h)
act-Owns ev i (closing c) p = unfold close_client in kept i _ _ p _ (λ e j h. h) (λ x h. absurd h)
act-Owns ev i (draining []) p = kept i _ _ p p (same_pool i p) (λ x h. absurd h)
act-Owns ev i (draining (e ∷ es)) p =
    if-Owns i p (draining (e ∷ es)) (is_free (p.heap e).holder) (drain i e es p (p.heap e).client) _
      (drain-Owns i p e es (p.heap e).client) (kept i _ _ p p (same_pool i p) (λ x h. h))
act-Owns ev i (draining_client c es) p =
    unfold close_client in kept i _ _ p _ (λ e j h. h) (λ x h. absurd h)

-- Every mutex that is locked is held by a thread at work on its entry.
abbrev pub Owned : System → Type 0
Owned s = (e j : ℕ) → (s.pool.heap e).holder ≡ some j → Holds e (s.pc j)

own-Owned :
    (ev : Event) (s : System)
    → Owned s
    → (e : ℕ) → ((step ev s).pool.heap e).holder ≡ some ev.thread
    → Holds e ((step ev s).pc ev.thread)
unfolding step
own-Owned ev s own e h =
    rw ((==_iff ev.thread ev.thread).1 refl)
      ((act-Owns ev ev.thread (s.pc ev.thread) s.pool).own (λ x. own x ev.thread) e h)

other-Owned :
    (ev : Event) (s : System)
    → Owned s
    → (e j : ℕ) → j ≢ ev.thread
    → ((step ev s).pool.heap e).holder ≡ some j
    → Holds e ((step ev s).pc j)
unfolding step
other-Owned ev s own e j ne h =
    let off : (ev.thread == j) ≡ false = ground (arith, ne) in
    rw off (own e j ((act-Owns ev ev.thread (s.pc ev.thread) s.pool).others e j ne h))

pub step-Owned : (ev : Event) (s : System) → Owned s → Owned (step ev s)
step-Owned ev s own e j h = elim (Bool-cases (ev.thread == j)) [
  | inl b ↦
      let same : ev.thread ≡ j = (==_iff ev.thread j).0 b in
      rw (← same) (own-Owned ev s own e (h ∙ ap some (sym same)))
  | inr b ↦ other-Owned ev s own e j (λ k. ground (arith, b, k)) h
]

pub start-Owned : (timeout : ℤ) → Owned (start timeout)
start-Owned timeout e j h = absurd cc

pub run-Owned : (evs : List Event) (s : System) → Owned s → Owned (run evs s)
unfolding run
run-Owned [] s own = own
run-Owned (ev ∷ evs) s own = run-Owned evs (step ev s) (step-Owned ev s own)
