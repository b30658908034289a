-- ===== src/Pool/Frees.antt =====
-- The thread that holds a mutex frees it by its own steps.
use sql_ai_tools.Prelude.{
  ℕ, ◌≡◌, ◌≢◌, ◌⊎◌, refl, sym, ◌∙◌, Bool, true, false, List, [], ◌∷◌, ◌++◌, Option, none, some,
  arith, if◌then◌else◌, inl, inr,
}
use sql_ai_tools.Route.Quarter.{Quarter}
use sql_ai_tools.Pool.{Pool, release, take_client}
use sql_ai_tools.Pool.System.{
  Pc, idle, checking, waiting, locked, serving, calling, marking, evicting, closing, draining,
  draining_client, finished, Event, retry, serve, act, System, step,
}
use sql_ai_tools.Pool.Steps.{step-at, step-other}
use sql_ai_tools.Pool.Safety.{SystemInv, step-SystemInv}
use sql_ai_tools.Pool.Ownership.{Holds, Owned, step-Owned}

-- What the environment answers in each state: the clock, the machine, what succeeds and what a free
-- thread begins.
abbrev pub Environment : Type 0
Environment = System → Event

abbrev pub answer : Environment → ℕ → System → Event
answer env i s = record (env s) { thread = i }

-- The threads go in the order of the list.
unfoldable pub drive : Environment → List ℕ → System → System
drive env [] s = s
drive env (i ∷ picks) s = drive env picks (step (answer env i s) s)

pub drive-append :
    (env : Environment) (xs ys : List ℕ) (s : System)
    → drive env (xs ++ ys) s ≡ drive env ys (drive env xs s)
unfolding drive
drive-append env [] ys s = refl
drive-append env (x ∷ xs) ys s = drive-append env xs ys (step (answer env x s) s)

pub record Sound (s : System) : Type 0 where
  pub inv : SystemInv s
  pub owned : Owned s

step-Sound : (ev : Event) (s : System) → Sound s → Sound (step ev s)
step-Sound ev s v = record { inv = step-SystemInv ev s v.inv; owned = step-Owned ev s v.owned }

pub drive-Sound :
    (env : Environment) (picks : List ℕ) (s : System) → Sound s → Sound (drive env picks s)
unfolding drive
drive-Sound env [] s v = v
drive-Sound env (i ∷ picks) s v =
    drive-Sound env picks (step (answer env i s) s) (step-Sound (answer env i s) s v)

module _ (env : Environment) (j e : ℕ) where
  -- Some steps of thread `j` free the mutex of the entry, and move no other thread.
  pub record Frees (s : System) : Type 0 where
    pub picks : List ℕ
    pub free : ((drive env picks s).pool.heap e).holder ≡ none
    pub still : (i : ℕ) → i ≢ j → (drive env picks s).pc i ≡ s.pc i

  Frees-step : (s : System) → Frees (step (answer env j s) s) → Frees s
  unfolding drive
  Frees-step s f = record {
    picks = j ∷ f.picks;
    free = f.free;
    still = λ i ne. f.still i ne ∙ step-other (answer env j s) s i (λ h. ne (sym h));
  }

  Frees-now : (s : System) → ((s.pool.heap e).holder ≡ none) → Frees s
  unfolding drive
  Frees-now s h = record { picks = []; free = h; still = λ i ne. refl }

  -- After a step of thread `j` the mutex is free, or the thread stands where `After` says.
  Onward : (After : Pc → Type 0) → Pool × Pc → Type 0
  Onward After r = ((r.0.heap e).holder ≡ none) ⊎ After r.1

  go :
      (s : System) (k : Pc) (After : Pc → Type 0)
      → s.pc j ≡ k
      → Onward After (act (answer env j s) j k s.pool)
      → ((t : System) → After (t.pc j) → Frees t)
      → Frees s
  unfolding Onward
  go s k After at on next =
      let ev = answer env j s in
      let moved = step-at ev s k s.pool (act ev j k s.pool).0 (act ev j k s.pool).1 at refl refl in
      elim on [
        | inl h ↦ Frees-step s (Frees-now (step ev s) (rw (moved.0) h))
        | inr h ↦ Frees-step s (next (step ev s) (rw (moved.1) h))
      ]

  release-Onward :
      (b : Bool) (p q : Pool) (k l : Pc)
      → let r : Pool × Pc = if b then (release e p, k) else (release e q, l) in
        (r.0.heap e).holder ≡ none
  unfolding release
  release-Onward true p q k l = ground arith
  release-Onward false p q k l = ground arith

  calling-Frees : (s : System) (w : Quarter) (c : ℕ) → s.pc j ≡ calling w e c → Frees s
  unfolding act Onward
  calling-Frees s w c at =
      let freed =
        release-Onward (env s).succeeds s.pool (take_client j e c s.pool) (marking e)
          (evicting w e (some c)) in
      go s (calling w e c) (λ k. ⊥) at (inl freed) (λ t h. absurd h)

  serve-Onward :
      (w : Quarter) (b : Bool) (p : Pool) (o : Option ℕ)
      → Onward (λ k. (c : ℕ) × (k ≡ calling w e c)) (serve w e b p o)
  unfolding serve release Onward
  serve-Onward w true p none = inr (p.clients, refl)
  serve-Onward w false p none = inl (ground arith)
  serve-Onward w _ p (some c) = inr (c, refl)

  serving-Frees : (s : System) (w : Quarter) → s.pc j ≡ serving w e → Frees s
  unfolding act
  serving-Frees s w at =
      go s (serving w e) _ at (serve-Onward w (env s).succeeds s.pool (s.pool.heap e).client)
        (λ t (c, h). calling-Frees t w c h)

  dead-Onward :
      (w : Quarter) (a : ℕ) (b : Bool) (p : Pool)
      → Onward (λ k. k ≡ serving w e) (if b then (release e p, retry w a) else (p, serving w e))
  unfolding release Onward
  dead-Onward w a true p = inl (ground arith)
  dead-Onward w a false p = inr refl

  locked-Frees : (s : System) (w : Quarter) (a : ℕ) → s.pc j ≡ locked w a e → Frees s
  unfolding act
  locked-Frees s w a at =
      go s (locked w a e) _ at (dead-Onward w a (s.pool.heap e).dead s.pool)
        (λ t h. serving-Frees t w h)

  -- Whoever holds the mutex frees it by its own steps.
  pub holder-Frees : (s : System) (k : Pc) → s.pc j ≡ k → Holds e k → Frees s
  holder-Frees s (locked w a x) at h = locked-Frees s w a (rw (← h) at)
  holder-Frees s (serving w x) at h = serving-Frees s w (rw (← h) at)
  holder-Frees s (calling w x c) at h = calling-Frees s w c (rw (← h) at)
  holder-Frees s idle at h = absurd h
  holder-Frees s (checking w a) at h = absurd h
  holder-Frees s (waiting w a x) at h = absurd h
  holder-Frees s (marking x) at h = absurd h
  holder-Frees s (evicting w x o) at h = absurd h
  holder-Frees s (closing c) at h = absurd h
  holder-Frees s (draining es) at h = absurd h
  holder-Frees s (draining_client c es) at h = absurd h
  holder-Frees s (finished o) at h = absurd h
