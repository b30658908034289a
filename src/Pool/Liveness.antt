-- ===== src/Pool/Liveness.antt =====
-- No thread waits for ever: whatever the environment answers, it can be brought to rest.
use sql_ai_tools.Prelude.{
  ℕ, zero, suc, ◌<◌, ◌≤◌, ◌≡◌, ◌⊎◌, refl, true, List, [], ◌∷◌, ◌++◌, Option, none, some, arith, inl,
  inr,
}
use sql_ai_tools.Prelude.Int.{ℤ}
use sql_ai_tools.Pool.{Pool}
use sql_ai_tools.Pool.System.{
  Pc, idle, checking, waiting, locked, serving, calling, marking, evicting, closing, draining,
  draining_client, finished, Event, is_free, act, System, run, start,
}
use sql_ai_tools.Pool.Steps.{step-at}
use sql_ai_tools.Pool.Frees.{
  Environment, answer, drive, drive-append, Sound, drive-Sound, holder-Frees,
}
use sql_ai_tools.Pool.Safety.{reached}
use sql_ai_tools.Pool.Ownership.{Holds, start-Owned, run-Owned}
use sql_ai_tools.Pool.Progress.{distance, Unblocked, act-distance}

-- A thread that a mutex holds up, with the holder.
abbrev Blocked : Pc → Pool → Type 0
Blocked k p =
    (e : ℕ) × (j : ℕ) × ((p.heap e).holder ≡ some j)
    × (Holds e k → ⊥)
    × ((q : Pool) → (q.heap e).holder ≡ none → Unblocked k q)

mutex-cases : (o : Option ℕ) → (is_free o ≡ true) ⊎ ((j : ℕ) × (o ≡ some j))
unfolding is_free
mutex-cases none = inl refl
mutex-cases (some j) = inr (j, refl)

free_now : (o : Option ℕ) → o ≡ none → is_free o ≡ true
unfolding is_free
free_now none e = refl
free_now (some j) e = absurd cc

Blocked-cases : (k : Pc) (p : Pool) → Unblocked k p ⊎ Blocked k p
Blocked-cases idle p = inl tt
Blocked-cases (checking w a) p = inl tt
Blocked-cases (locked w a e) p = inl tt
Blocked-cases (serving w e) p = inl tt
Blocked-cases (calling w e c) p = inl tt
Blocked-cases (marking e) p = inl tt
Blocked-cases (evicting w e o) p = inl tt
Blocked-cases (closing c) p = inl tt
Blocked-cases (draining []) p = inl tt
Blocked-cases (draining_client c es) p = inl tt
Blocked-cases (finished o) p = inl tt
Blocked-cases (waiting w a e) p = elim (mutex-cases (p.heap e).holder) [
  | inl h ↦ inl h
  | inr (j, h) ↦ inr (e, j, h, (λ x. x), λ q free. free_now (q.heap e).holder free)
]
Blocked-cases (draining (e ∷ es)) p = elim (mutex-cases (p.heap e).holder) [
  | inl h ↦ inl h
  | inr (j, h) ↦ inr (e, j, h, (λ x. x), λ q free. free_now (q.heap e).holder free)
]

zero-cases : (n : ℕ) → (n ≡ 0) ⊎ (0 < n)
zero-cases zero = inl refl
zero-cases (suc n) = inr (omega arith)

-- The thread's work is done, or has not begun.
abbrev pub AtRest : Pc → Type 0
AtRest k = distance k ≡ 0

module _ (env : Environment) (i : ℕ) where
  -- Some order of steps brings the thread to rest.
  abbrev Rests : System → Type 0
  Rests s = (picks : List ℕ) × AtRest ((drive env picks s).pc i)

  Rests-after : (picks : List ℕ) (s : System) → Rests (drive env picks s) → Rests s
  Rests-after picks s (more, h) = (picks ++ more, rw (drive-append env picks more s) h)

  nearer :
      (s : System)
      → Sound s
      → 0 < distance (s.pc i)
      → Unblocked (s.pc i) s.pool
      → distance ((drive env (i ∷ []) s).pc i) < distance (s.pc i)
  unfolding drive
  nearer s v pos free =
      let ev = answer env i s in
      let moved =
        step-at ev s (s.pc i) s.pool (act ev i (s.pc i) s.pool).0 (act ev i (s.pc i) s.pool).1 refl
          refl refl in
      rw (moved.1) (act-distance ev i (s.pc i) s.pool pos (v.inv.local i) free)

  -- The holder of the mutex goes until it is free, and then the thread itself.
  unblock :
      (s : System)
      → Sound s
      → 0 < distance (s.pc i)
      → (picks : List ℕ) × (distance ((drive env picks s).pc i) < distance (s.pc i))
  unblock s v pos = elim (Blocked-cases (s.pc i) s.pool) [
    | inl free ↦ (i ∷ [], nearer s v pos free)
    | inr (e, j, held, not_mine, once_free) ↦
        let f = holder-Frees env j e s (s.pc j) refl (v.owned e j held) in
        let t = drive env f.picks s in
        let same : t.pc i ≡ s.pc i = f.still i (λ h. not_mine (rw h (v.owned e j held))) in
        let free : Unblocked (t.pc i) t.pool = rw same (once_free t.pool f.free) in
        let near = nearer t (drive-Sound env f.picks s v) (rw same pos) free in
        (f.picks ++ i ∷ [], rw (drive-append env f.picks (i ∷ []) s, ← same) near)
  ]

  Rests-within : (n : ℕ) (s : System) → Sound s → distance (s.pc i) ≤ n → Rests s
  unfolding drive
  Rests-within zero s v le = ([], omega (arith, le))
  Rests-within (suc n) s v le = elim (zero-cases (distance (s.pc i))) [
    | inl z ↦ ([], z)
    | inr pos ↦
        let (picks, near) = unblock s v pos in
        Rests-after picks s
          (Rests-within n (drive env picks s) (drive-Sound env picks s v) (omega (arith, le, near)))
  ]

-- From every state that the pool reaches, and whatever the environment answers, some order of steps
-- brings any given thread to rest: no dispatch, sweep or shutdown waits for ever on a mutex.
pub rests :
    (timeout : ℤ) (evs : List Event) (env : Environment) (i : ℕ)
    → (picks : List ℕ) × AtRest ((drive env picks (run evs (start timeout))).pc i)
rests timeout evs env i =
    let s = run evs (start timeout) in
    Rests-within env i (distance (s.pc i)) s
      (record {
        inv = reached timeout evs;
        owned = run-Owned evs (start timeout) (start-Owned timeout);
      })
      (omega arith)
