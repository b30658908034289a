-- ===== src/Pool/Threads.antt =====
-- Every step of every thread keeps the pool's invariant and what the other threads rely on.
use sql_ai_tools.Prelude.{
  ℕ, zero, suc, ◌≤◌, ◌<◌, ◌≡◌, ◌≢◌, refl, Bool, true, false, List, [], ◌∷◌, Option, none, some,
  Bytes, arith, ltb, if◌then◌else◌, Bool-cases, inl, inr,
}
use sql_ai_tools.Prelude.Int.{ℤ, pos, negsuc}
use sql_ai_tools.Route.Quarter.{Quarter}
use sql_ai_tools.Route.Discover.{Host, find_backend}
use sql_ai_tools.Pool.{
  Entry, taken, Pool, Checkout, pool_closed, checked_out, create, reuse, checkout, touch,
  drop_entries, sweep_idle, sweep_from, is_idle, close, close_from, acquire, release, attach,
  take_client, close_client,
}
use sql_ai_tools.Pool.Invariant.{
  PoolInv, Stable, Stable-refl, acquire-PoolInv, acquire-Stable, release-PoolInv, release-Stable,
  touch-PoolInv, touch-Stable, mark_used-PoolInv, mark_used-Stable, attach-PoolInv, attach-Stable,
  take_client-PoolInv, take_client-Stable, close_client-PoolInv, close_client-Stable, evict-PoolInv,
  evict-Stable, create-PoolInv, create-Stable, drop_entries-PoolInv, drop_entries-Stable,
  shut_all-PoolInv, shut_all-Stable,
}
use sql_ai_tools.Pool.System.{
  Pc, idle, checking, waiting, locked, serving, calling, marking, evicting, closing, draining,
  draining_client, finished, Task, dispatch, sweep, shut_down, Event, begin, after_checkout, retry,
  serve, drain, is_free, act,
}

-- What a thread knows of the entry that it checked out.
abbrev pub Known : Quarter → ℕ → Pool → Type 0
Known want e p = (e < p.next) × ((p.heap e).quarter ≡ want)

-- What thread `i` relies on where it stands.
abbrev pub Local : ℕ → Pc → Pool → Type 0
Local i (checking want a) p = a ≤ 17
Local i (waiting want a e) p = (a ≤ 17) × Known want e p
Local i (locked want a e) p = (a ≤ 17) × Known want e p × ((p.heap e).holder ≡ some i)
Local i (serving want e) p = Known want e p × ((p.heap e).holder ≡ some i)
Local i (calling want e c) p =
    Known want e p × ((p.heap e).holder ≡ some i) × ((p.heap e).client ≡ some c)
Local i (evicting want e none) p = Known want e p
Local i (evicting want e (some c)) p = Known want e p × (p.place c ≡ taken i)
Local i (closing c) p = p.place c ≡ taken i
Local i (draining_client c es) p = p.place c ≡ taken i
Local i _ p = Unit

-- What a thread relies on survives the steps of the others.
pub Local-Stable : (j : ℕ) (k : Pc) (p q : Pool) → Stable j p q → Local j k p → Local j k q
Local-Stable j idle p q s l = tt
Local-Stable j (checking want a) p q s l = l
Local-Stable j (waiting want a e) p q s l = ground (arith, s.grows, s.quarters e)
Local-Stable j (locked want a e) p q s l = ground (arith, s.grows, s.quarters e, s.held e)
Local-Stable j (serving want e) p q s l = ground (arith, s.grows, s.quarters e, s.held e)
Local-Stable j (calling want e c) p q s l = ground (arith, s.grows, s.quarters e, s.held e)
Local-Stable j (marking e) p q s l = tt
Local-Stable j (evicting want e none) p q s l = ground (arith, s.grows, s.quarters e)
Local-Stable j (evicting want e (some c)) p q s l =
    ground (arith, s.grows, s.quarters e, s.in_hand c)
Local-Stable j (closing c) p q s l = s.in_hand c l
Local-Stable j (draining es) p q s l = tt
Local-Stable j (draining_client c es) p q s l = s.in_hand c l
Local-Stable j (finished o) p q s l = tt

Stable-trans : (j : ℕ) (p q r : Pool) → Stable j p q → Stable j q r → Stable j p r
Stable-trans j p q r s t = record {
  grows = omega (arith, s.grows, t.grows);
  quarters = λ e h. ground (arith, s.grows, s.quarters e, t.quarters e);
  held = λ e h k. ground (arith, s.grows, s.held e, t.held e);
  in_hand = λ c h. t.in_hand c (s.in_hand c h);
}

-- A step of thread `i` from `p` that ends in the pool and the place of `r`.
pub record Good (i : ℕ) (p : Pool) (r : Pool × Pc) : Type 0 where
  pub inv : PoolInv r.0
  pub others : (j : ℕ) → j ≢ i → Stable j p r.0
  pub own : Local i r.1 r.0

unchanged : (i : ℕ) (p : Pool) (k : Pc) → PoolInv p → Local i k p → Good i p (p, k)
unchanged i p k v l = record { inv = v; others = λ j ne. Stable-refl j p; own = l }

drop_entries-Good :
    (i : ℕ) (p : Pool) (drop : Entry → Bool)
    → PoolInv p
    → Good i p (let (q, all) = drop_entries drop p in (q, draining all))
drop_entries-Good i p drop v = record {
  inv = drop_entries-PoolInv drop p v;
  others = λ j ne. drop_entries-Stable drop p v j;
  own = tt;
}

sweep-Good :
    (i now : ℕ) (p : Pool) (timeout : ℤ)
    → PoolInv p
    → Good i p (let (q, all) = sweep_from timeout now p in (q, draining all))
unfolding sweep_from
sweep-Good i now p (pos zero) v = unchanged i p _ v tt
sweep-Good i now p (pos (suc n)) v = drop_entries-Good i p (is_idle (suc n) now) v
sweep-Good i now p (negsuc n) v = unchanged i p _ v tt

close-Good :
    (i : ℕ) (p : Pool) (b : Bool)
    → PoolInv p
    → Good i p (let (q, all) = close_from b p in (q, draining all))
unfolding close_from
close-Good i p true v = unchanged i p _ v tt
close-Good i p false v = record {
  inv = shut_all-PoolInv p v;
  others = λ j ne. shut_all-Stable p v j;
  own = tt;
}

begin-Good : (i now : ℕ) (t : Task) (p : Pool) → PoolInv p → Good i p (begin t now p)
unfolding begin
begin-Good i now (dispatch want) p v = unchanged i p _ v (omega arith)
begin-Good i now sweep p v = unfold sweep_idle in sweep-Good i now p p.idle_timeout v
begin-Good i now shut_down p v = unfold close in close-Good i p p.closed v

module _ (i now : ℕ) (host : Host) (want : Quarter) (a : ℕ) (p : Pool) (le : a ≤ 17)
    (v : PoolInv p) where
  after : Pool × Checkout → Pool × Pc
  after (q, r) = (q, after_checkout want a r)

  create-Good :
      (o : Option Bytes)
      → p.entries want ≡ none
      → p.closed ≡ false
      → Good i p (after (create now want p o))
  unfolding after create after_checkout
  create-Good none free op = unchanged i p _ v tt
  create-Good (some path) free op = record {
    inv = create-PoolInv now want p v path free op;
    others = λ j ne. create-Stable now want p v path j;
    own = ground arith;
  }

  -- An entry that the map holds is alive, so the second branch of the test is not taken.
  found-Good :
      (e : ℕ) (dead : Bool)
      → p.entries want ≡ some e
      → (p.heap e).dead ≡ dead
      → Good i p (
          after (
            if dead
            then create now want p (find_backend host want)
            else (touch now e p, checked_out e)))
  unfolding after after_checkout touch
  found-Good e true m d = absurd (ground (arith, v.mapped want e))
  found-Good e false m d = record {
    inv = touch-PoolInv i e p now v;
    others = λ j ne. touch-Stable i e p now j;
    own = ground (arith, v.mapped want e);
  }

  reuse-Good :
      (o : Option ℕ)
      → p.entries want ≡ o
      → p.closed ≡ false
      → Good i p (after (reuse host now want p o))
  unfolding reuse touch
  reuse-Good none m op = create-Good (find_backend host want) m op
  reuse-Good (some e) m op = found-Good e (p.heap e).dead m refl

  checkout-Good :
      (closed : Bool)
      → p.closed ≡ closed
      → Good i p
          (after (if closed then (p, pool_closed) else reuse host now want p (p.entries want)))
  unfolding after after_checkout
  checkout-Good true c = unchanged i p _ v tt
  checkout-Good false c = reuse-Good (p.entries want) refl c

free-none : (o : Option ℕ) → is_free o ≡ true → o ≡ none
unfolding is_free
free-none none h = refl
free-none (some j) h = absurd (ground arith)

module _ (i : ℕ) (p : Pool) (v : PoolInv p) where
  waiting-Good :
      (want : Quarter) (a e : ℕ) (free : Bool)
      → Local i (waiting want a e) p
      → is_free (p.heap e).holder ≡ free
      → Good i p (if free then (acquire i e p, locked want a e) else (p, waiting want a e))
  waiting-Good want a e true l f = record {
    inv = acquire-PoolInv i e p v;
    others = λ j ne. acquire-Stable i e p j (free-none (p.heap e).holder f);
    own = unfold acquire in ground arith;
  }
  waiting-Good want a e false l f = unchanged i p _ v l

  retry-Local : (want : Quarter) (a : ℕ) (q : Pool) → a ≤ 17 → Local i (retry want a) q
  unfolding retry
  retry-Local want a q le = elim (Bool-cases (ltb 16 a)) [
    | inl b ↦ rw b tt
    | inr b ↦ rw b (ground arith)
  ]

  locked-Good :
      (want : Quarter) (a e : ℕ) (dead : Bool)
      → Local i (locked want a e) p
      → Good i p (if dead then (release e p, retry want a) else (p, serving want e))
  locked-Good want a e true l = record {
    inv = release-PoolInv i e p v;
    others = λ j ne. release-Stable i e p j ne l.2;
    own = retry-Local want a _ l.0;
  }
  locked-Good want a e false l = unchanged i p _ v (l.1, l.2)

  serve-Good :
      (want : Quarter) (e : ℕ) (succeeds : Bool) (o : Option ℕ)
      → Local i (serving want e) p
      → (p.heap e).client ≡ o
      → Good i p (serve want e succeeds p o)
  unfolding serve
  serve-Good want e true none l c = record {
    inv = attach-PoolInv i e p v;
    others = λ j ne. attach-Stable i e p j ne l.1 v;
    own = unfold attach in ground arith;
  }
  serve-Good want e false none l c = record {
    inv = release-PoolInv i e p v;
    others = λ j ne. release-Stable i e p j ne l.1;
    own = unfold release in ground arith;
  }
  serve-Good want e _ (some c) l d = unchanged i p _ v (l.0, l.1, d)

  call-Good :
      (want : Quarter) (e c : ℕ) (succeeds : Bool)
      → Local i (calling want e c) p
      → Good i p (
          if succeeds
          then (release e p, marking e)
          else (release e (take_client i e c p), evicting want e (some c)))
  call-Good want e c true l = record {
    inv = release-PoolInv i e p v;
    others = λ j ne. release-Stable i e p j ne l.1;
    own = tt;
  }
  call-Good want e c false l = record {
    inv = release-PoolInv i e (take_client i e c p) (take_client-PoolInv i e p c l.2 v);
    others = λ j ne.
        Stable-trans j p (take_client i e c p) _
          (take_client-Stable i e p c l.2 j (λ h. ground (arith, ne, l.1, h)) v)
          (release-Stable i e (take_client i e c p) j ne (unfold take_client in ground arith));
    own = unfold take_client release in ground arith;
  }

  close_client-Good :
      (c : ℕ) (k : Pc)
      → p.place c ≡ taken i
      → ((q : Pool) → Local i k q)
      → Good i p (close_client c p, k)
  close_client-Good c k h l = record {
    inv = close_client-PoolInv i 0 p c h v;
    others = λ j ne. close_client-Stable i 0 p c h j ne;
    own = l (close_client c p);
  }

  drain-Good :
      (e : ℕ) (es : List ℕ) (o : Option ℕ)
      → (p.heap e).holder ≡ none
      → (p.heap e).client ≡ o
      → Good i p (drain i e es p o)
  unfolding drain
  drain-Good e es none f c = unchanged i p _ v tt
  drain-Good e es (some c) f d = record {
    inv = take_client-PoolInv i e p c d v;
    others = λ j ne. take_client-Stable i e p c d j (λ h. ground (arith, f, h)) v;
    own = unfold take_client in ground arith;
  }

  draining-Good :
      (e : ℕ) (es : List ℕ) (free : Bool)
      → is_free (p.heap e).holder ≡ free
      → Good i p (if free then drain i e es p (p.heap e).client else (p, draining (e ∷ es)))
  draining-Good e es true f = drain-Good e es (p.heap e).client (free-none (p.heap e).holder f) refl
  draining-Good e es false f = unchanged i p _ v tt

-- A step of a thread keeps the pool's invariant, what the other threads rely on, and gives the thread
-- what it relies on next.
pub act-Good :
    (ev : Event) (i : ℕ) (k : Pc) (p : Pool) → PoolInv p → Local i k p → Good i p (act ev i k p)
unfolding act
act-Good ev i idle p v l = begin-Good i ev.now ev.task p v
act-Good ev i (finished o) p v l = begin-Good i ev.now ev.task p v
act-Good ev i (checking want a) p v l =
    unfold checkout after in checkout-Good i ev.now ev.host want a p l v p.closed refl
act-Good ev i (waiting want a e) p v l = waiting-Good i p v want a e _ l refl
act-Good ev i (locked want a e) p v l = locked-Good i p v want a e (p.heap e).dead l
act-Good ev i (serving want e) p v l = serve-Good i p v want e ev.succeeds (p.heap e).client l refl
act-Good ev i (calling want e c) p v l = call-Good i p v want e c ev.succeeds l
act-Good ev i (marking e) p v l = record {
  inv = mark_used-PoolInv i e p ev.now v;
  others = λ j ne. mark_used-Stable i e p ev.now j;
  own = tt;
}
act-Good ev i (evicting want e none) p v l = record {
  inv = evict-PoolInv want e p v l.0 l.1;
  others = λ j ne. evict-Stable want e p v j;
  own = tt;
}
act-Good ev i (evicting want e (some c)) p v l = record {
  inv = evict-PoolInv want e p v l.0.0 l.0.1;
  others = λ j ne. evict-Stable want e p v j;
  own = l.1;
}
act-Good ev i (closing c) p v l = close_client-Good i p v c _ l (λ q. tt)
act-Good ev i (draining []) p v l = unchanged i p _ v tt
act-Good ev i (draining (e ∷ es)) p v l = draining-Good i p v e es _ refl
act-Good ev i (draining_client c es) p v l = close_client-Good i p v c _ l (λ q. tt)
