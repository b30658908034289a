-- ===== src/Pool/Leak.antt =====
-- An order of steps that loses a client: `dispatchLocked` releases the entry's mutex before `evict`
-- marks the entry dead, and a second dispatch that waits for the mutex starts a client in between.
use sql_ai_tools.Prelude.{
  ℕ, ◌≡◌, ◌≢◌, sym, ◌∙◌, refl, Bool, true, false, List, [], ◌∷◌, none, some, arith,
}
use sql_ai_tools.Route.Quarter.{Quarter}
use sql_ai_tools.Route.Discover.Listing.{quarter_eq_iff}
use sql_ai_tools.Pool.{
  in_entry, Pool, put, is_slot, evict, acquire, release, attach, take_client, mark_used,
}
use sql_ai_tools.Pool.Steps.{step-at, step-other}
use sql_ai_tools.Pool.System.{
  Pc, waiting, locked, serving, calling, marking, evicting, closing, finished, answered, Event,
  System, act, step, run,
}

-- Thread `i` goes next, and the environment answers as it says.
abbrev pub turn : Event → ℕ → Bool → Event
turn ev i succeeds = record ev { thread = i; succeeds = succeeds }

-- Thread `i`'s call breaks; thread `j`, which waits for the entry, takes its mutex, finds it alive and
-- starts a client; then thread `i` evicts the entry, and thread `j` gets its answer.
abbrev pub race : Event → ℕ → ℕ → List Event
race ev i j =
    turn ev i false
    ∷ turn ev j true
    ∷ turn ev j true
    ∷ turn ev j true
    ∷ turn ev i true
    ∷ turn ev j true
    ∷ turn ev j true
    ∷ []

module _ (ev : Event) (i j : ℕ) (ne : i ≢ j) where
  -- Where the two threads stand, and the pool.
  record At (s : System) (k l : Pc) (p : Pool) : Type 0 where
    at_i : s.pc i ≡ k
    at_j : s.pc j ≡ l
    here : s.pool ≡ p

  step-i :
      (b : Bool) (s : System) (k l : Pc) (p q : Pool) (k' : Pc)
      → At s k l p
      → act (turn ev i b) i k p ≡ (q, k')
      → At (step (turn ev i b) s) k' l q
  step-i b s k l p q k' at e =
      let moved = step-at (turn ev i b) s k p q k' at.at_i at.here e in
      record { at_i = moved.1; at_j = step-other (turn ev i b) s j ne ∙ at.at_j; here = moved.0 }

  step-j :
      (b : Bool) (s : System) (k l : Pc) (p q : Pool) (l' : Pc)
      → At s k l p
      → act (turn ev j b) j l p ≡ (q, l')
      → At (step (turn ev j b) s) k l' q
  step-j b s k l p q l' at e =
      let moved = step-at (turn ev j b) s l p q l' at.at_j at.here e in
      record {
        at_i = step-other (turn ev j b) s i (λ h. ne (sym h)) ∙ at.at_i;
        at_j = moved.1;
        here = moved.0;
      }

  module _ (w : Quarter) (a e : ℕ) (q : Pool) where
    lock-act :
        (q.heap e).holder ≡ none
        → act (turn ev j true) j (waiting w a e) q ≡ (acquire j e q, locked w a e)
    unfolding act
    lock-act h = rw h refl

    alive-act : (q.heap e).dead ≡ false → act (turn ev j true) j (locked w a e) q ≡ (q, serving w e)
    unfolding act
    alive-act h = rw h refl

    spawn-act :
        (q.heap e).client ≡ none
        → act (turn ev j true) j (serving w e) q ≡ (attach e q, calling w e q.clients)
    unfolding act
    spawn-act h = rw h refl

    mark-act :
        (q.heap e).dead ≡ true → act (turn ev j true) j (marking e) q ≡ (q, finished answered)
    unfolding act mark_used
    mark-act h = rw h refl

  module _ (w : Quarter) (a e c : ℕ) (p : Pool) where
    abbrev freed : Pool
    freed = release e (take_client i e c p)

    abbrev reborn : Pool
    reborn = attach e (acquire j e freed)

    abbrev evicted : Pool
    evicted = release e (evict w e reborn)

    freed_facts :
        (p.heap e).dead ≡ false
        → ((freed.heap e).holder ≡ none)
          × (((acquire j e freed).heap e).dead ≡ false)
          × (((acquire j e freed).heap e).client ≡ none)
    unfolding release take_client acquire
    freed_facts alive = (ground arith, ground arith, ground arith)

    evicted_facts :
        ((evicted.heap e).dead ≡ true)
        × ((evicted.heap e).client ≡ some p.clients)
        × (evicted.place p.clients ≡ in_entry e)
        × (evicted.entries w ≢ some e)
    unfolding evict release attach acquire take_client put is_slot
    evicted_facts =
        (ground arith, ground arith, ground arith, λ h. ground (arith, quarter_eq_iff w w))

    raced :
        (s : System)
        → At s (calling w e c) (waiting w a e) p
        → (p.heap e).dead ≡ false
        → At (run (race ev i j) s) (closing c) (finished answered) evicted
    unfolding run
    raced s at alive =
        let (free, living, empty) = freed_facts alive in
        let s1 = step-i false s _ _ p freed (evicting w e (some c)) at (unfold act in refl) in
        let s2 =
          step-j true _ _ _ freed (acquire j e freed) (locked w a e) s1
            (lock-act w a e freed free) in
        let s3 =
          step-j true _ _ _ (acquire j e freed) (acquire j e freed) (serving w e) s2
            (alive-act w a e (acquire j e freed) living) in
        let s4 =
          step-j true _ _ _ (acquire j e freed) reborn (calling w e p.clients) s3
            (spawn-act w a e (acquire j e freed) empty) in
        let s5 = step-i true _ _ _ reborn (evict w e reborn) (closing c) s4 (unfold act in refl) in
        let s6 = step-j true _ _ _ (evict w e reborn) evicted (marking e) s5 (unfold act in refl) in
        step-j true _ _ _ evicted evicted (finished answered) s6
          (mark-act w a e evicted evicted_facts.0)

-- A client can be lost: where a call on an entry breaks while a second dispatch waits for the entry's
-- mutex, and the second dispatch takes the mutex before the first evicts the entry, the second ends
-- with its answer, and the client that it started is left open in an entry that is dead and not in the
-- map.
pub client_lost :
    (ev : Event) (i j : ℕ) (w : Quarter) (a e c : ℕ) (s : System)
    → i ≢ j
    → s.pc i ≡ calling w e c
    → s.pc j ≡ waiting w a e
    → (s.pool.heap e).dead ≡ false
    → let t = run (race ev i j) s in
      (t.pc i ≡ closing c)
      × (t.pc j ≡ finished answered)
      × ((t.pool.heap e).client ≡ some s.pool.clients)
      × (t.pool.place s.pool.clients ≡ in_entry e)
      × ((t.pool.heap e).dead ≡ true)
      × (t.pool.entries w ≢ some e)
client_lost ev i j w a e c s ne at_i at_j alive =
    let start_at : At ev i j ne s (calling w e c) (waiting w a e) s.pool = record {
      at_i = at_i;
      at_j = at_j;
      here = refl;
    } in
    let end = raced ev i j ne w a e c s.pool s start_at alive in
    let (dead, client, place, gone) = evicted_facts ev i j ne w a e c s.pool in
    (
      end.at_i,
      end.at_j,
      rw (end.here) (client),
      rw (end.here) (place),
      rw (end.here) (dead),
      rw (end.here) (gone),
    )
