-- ===== src/Pool/Invariant.antt =====
-- The pool's invariant, what a thread relies on between its steps, and that each operation keeps both.
use sql_ai_tools.Prelude.{
  ℕ, ◌≤◌, ◌<◌, ◌≡◌, ◌≢◌, refl, Bool, true, false, Option, none, some, Bytes, arith, Bool-cases, inl,
  inr,
}
use sql_ai_tools.Route.Quarter.{Quarter}
use sql_ai_tools.Route.Discover.Listing.{quarter_eq_iff}
use sql_ai_tools.Pool.{
  Entry, unborn, in_entry, taken, Pool, put, is_slot, create, touch, mark_used, evict, is_victim,
  kept_slot, drop_entries, all_entries, shut_all, acquire, release, attach, take_client,
  close_client,
}

pub record PoolInv (p : Pool) : Type 0 where
  -- the map's entries are alive, and each stands under its own quarter
  pub mapped :
      (w : Quarter) (e : ℕ)
      → p.entries w ≡ some e
      → (e < p.next) × ((p.heap e).quarter ≡ w) × ((p.heap e).dead ≡ false)
  -- an entry that is alive is in the map
  pub alive : (e : ℕ) → e < p.next → (p.heap e).dead ≡ false → p.entries (p.heap e).quarter ≡ some e
  pub sealed : p.closed ≡ true → (w : Quarter) → p.entries w ≡ none
  -- an entry's client was started for it and is not closed
  pub placed : (e c : ℕ) → (p.heap e).client ≡ some c → p.place c ≡ in_entry e
  pub fresh : (c : ℕ) → p.clients ≤ c → p.place c ≡ unborn

-- What an operation of another thread leaves to thread `j`.
pub record Stable (j : ℕ) (p q : Pool) : Type 0 where
  pub grows : p.next ≤ q.next
  pub quarters : (e : ℕ) → e < p.next → (q.heap e).quarter ≡ (p.heap e).quarter
  pub held :
      (e : ℕ)
      → e < p.next
      → (p.heap e).holder ≡ some j
      → ((q.heap e).holder ≡ some j) × ((q.heap e).client ≡ (p.heap e).client)
  pub in_hand : (c : ℕ) → p.place c ≡ taken j → q.place c ≡ taken j

pub Stable-refl : (j : ℕ) (p : Pool) → Stable j p p
Stable-refl j p = record {
  grows = omega arith;
  quarters = λ e h. refl;
  held = λ e h k. (k, refl);
  in_hand = λ c h. h;
}

module _ (i e : ℕ) (p : Pool) where
  pub acquire-PoolInv : PoolInv p → PoolInv (acquire i e p)
  unfolding acquire
  acquire-PoolInv v = record {
    mapped = λ w x h. ground (arith, v.mapped w x h);
    alive = λ x h d. ground (arith, v.alive x h);
    sealed = λ h w. v.sealed h w;
    placed = λ x c h. ground (arith, v.placed x c);
    fresh = λ c h. v.fresh c h;
  }

  pub acquire-Stable : (j : ℕ) → (p.heap e).holder ≡ none → Stable j p (acquire i e p)
  unfolding acquire
  acquire-Stable j free = record {
    grows = omega arith;
    quarters = λ x h. ground arith;
    held = λ x h k. ground arith;
    in_hand = λ c h. h;
  }

  pub release-PoolInv : PoolInv p → PoolInv (release e p)
  unfolding release
  release-PoolInv v = record {
    mapped = λ w x h. ground (arith, v.mapped w x h);
    alive = λ x h d. ground (arith, v.alive x h);
    sealed = λ h w. v.sealed h w;
    placed = λ x c h. ground (arith, v.placed x c);
    fresh = λ c h. v.fresh c h;
  }

  pub release-Stable : (j : ℕ) → j ≢ i → (p.heap e).holder ≡ some i → Stable j p (release e p)
  unfolding release
  release-Stable j ne own = record {
    grows = omega arith;
    quarters = λ x h. ground arith;
    held = λ x h k. ground arith;
    in_hand = λ c h. h;
  }

  pub touch-PoolInv : (now : ℕ) → PoolInv p → PoolInv (touch now e p)
  unfolding touch
  touch-PoolInv now v = record {
    mapped = λ w x h. ground (arith, v.mapped w x h);
    alive = λ x h d. ground (arith, v.alive x h);
    sealed = λ h w. v.sealed h w;
    placed = λ x c h. ground (arith, v.placed x c);
    fresh = λ c h. v.fresh c h;
  }

  pub touch-Stable : (now j : ℕ) → Stable j p (touch now e p)
  unfolding touch
  touch-Stable now j = record {
    grows = omega arith;
    quarters = λ x h. ground arith;
    held = λ x h k. ground arith;
    in_hand = λ c h. h;
  }

  pub mark_used-PoolInv : (now : ℕ) → PoolInv p → PoolInv (mark_used now e p)
  unfolding mark_used
  mark_used-PoolInv now v = elim (Bool-cases (p.heap e).dead) [
    | inl d ↦ rw d v
    | inr d ↦ rw d (touch-PoolInv now v)
  ]

  pub mark_used-Stable : (now j : ℕ) → Stable j p (mark_used now e p)
  unfolding mark_used
  mark_used-Stable now j = elim (Bool-cases (p.heap e).dead) [
    | inl d ↦ rw d (Stable-refl j p)
    | inr d ↦ rw d (touch-Stable now j)
  ]

  pub attach-PoolInv : PoolInv p → PoolInv (attach e p)
  unfolding attach
  attach-PoolInv v = record {
    mapped = λ w x h. ground (arith, v.mapped w x h);
    alive = λ x h d. ground (arith, v.alive x h);
    sealed = λ h w. v.sealed h w;
    placed = λ x c h. ground (arith, v.placed x c, v.fresh c);
    fresh = λ c h. ground (arith, v.fresh c);
  }

  pub attach-Stable :
      (j : ℕ) → j ≢ i → (p.heap e).holder ≡ some i → PoolInv p → Stable j p (attach e p)
  unfolding attach
  attach-Stable j ne own v = record {
    grows = omega arith;
    quarters = λ x h. ground arith;
    held = λ x h k. ground arith;
    in_hand = λ c h. ground (arith, v.fresh c);
  }

  module _ (c : ℕ) (here : (p.heap e).client ≡ some c) where
    pub take_client-PoolInv : PoolInv p → PoolInv (take_client i e c p)
    unfolding take_client
    take_client-PoolInv v = record {
      mapped = λ w x h. ground (arith, v.mapped w x h);
      alive = λ x h d. ground (arith, v.alive x h);
      sealed = λ h w. v.sealed h w;
      placed = λ x d h. ground (arith, v.placed x d, v.placed e c);
      fresh = λ d h. ground (arith, v.fresh d, v.placed e c);
    }

    pub take_client-Stable :
        (j : ℕ) → (p.heap e).holder ≢ some j → PoolInv p → Stable j p (take_client i e c p)
    unfolding take_client
    take_client-Stable j ne v = record {
      grows = omega arith;
      quarters = λ x h. ground arith;
      held = λ x h k. ground arith;
      in_hand = λ d h. ground (arith, v.placed e c);
    }

  module _ (c : ℕ) (hand : p.place c ≡ taken i) where
    pub close_client-PoolInv : PoolInv p → PoolInv (close_client c p)
    unfolding close_client
    close_client-PoolInv v = record {
      mapped = λ w x h. v.mapped w x h;
      alive = λ x h d. v.alive x h d;
      sealed = λ h w. v.sealed h w;
      placed = λ x d h. ground (arith, v.placed x d);
      fresh = λ d h. ground (arith, v.fresh d);
    }

    pub close_client-Stable : (j : ℕ) → j ≢ i → Stable j p (close_client c p)
    unfolding close_client
    close_client-Stable j ne = record {
      grows = omega arith;
      quarters = λ x h. refl;
      held = λ x h k. (k, refl);
      in_hand = λ d h. ground arith;
    }

module _ (want : Quarter) (e : ℕ) (p : Pool) (v : PoolInv p) where
  pub evict-PoolInv : e < p.next → (p.heap e).quarter ≡ want → PoolInv (evict want e p)
  unfolding evict put is_slot
  evict-PoolInv lt q = record {
    mapped = λ w x h. ground (arith, v.mapped w x, v.mapped want e, quarter_eq_iff want w);
    alive =
        λ x h d. ground (arith, v.alive x, v.mapped want e, quarter_eq_iff want (p.heap x).quarter);
    sealed = λ h w. ground (arith, v.sealed h w, quarter_eq_iff want w);
    placed = λ x c h. ground (arith, v.placed x c);
    fresh = λ c h. v.fresh c h;
  }

  pub evict-Stable : (j : ℕ) → Stable j p (evict want e p)
  unfolding evict
  evict-Stable j = record {
    grows = omega arith;
    quarters = λ x h. ground arith;
    held = λ x h k. ground arith;
    in_hand = λ c h. h;
  }

module _ (now : ℕ) (want : Quarter) (p : Pool) (v : PoolInv p) (path : Bytes) where
  abbrev pub created : Pool
  created = (create now want p (some path)).0

  -- The quarter's place in the map is free.
  pub create-PoolInv : p.entries want ≡ none → p.closed ≡ false → PoolInv created
  unfolding create put
  create-PoolInv free open_ = record {
    mapped = λ w x h. ground (arith, v.mapped w x, quarter_eq_iff want w);
    alive = λ x h d.
        ground (arith, v.alive x, quarter_eq_iff want (p.heap x).quarter, quarter_eq_iff want want);
    sealed = λ h w. ground arith;
    placed = λ x c h. ground (arith, v.placed x c);
    fresh = λ c h. v.fresh c h;
  }

  pub create-Stable : (j : ℕ) → Stable j p created
  unfolding create
  create-Stable j = record {
    grows = omega arith;
    quarters = λ x h. ground arith;
    held = λ x h k. ground arith;
    in_hand = λ c h. h;
  }

module _ (drop : Entry → Bool) (p : Pool) (v : PoolInv p) where
  pub drop_entries-PoolInv : PoolInv (drop_entries drop p).0
  unfolding drop_entries is_victim is_slot kept_slot
  drop_entries-PoolInv = record {
    mapped = λ w x h. ground (arith, v.mapped w x);
    alive = λ x h d. ground (arith, v.alive x);
    sealed = λ h w. ground (arith, v.sealed h w);
    placed = λ x c h. ground (arith, v.placed x c);
    fresh = λ c h. v.fresh c h;
  }

  pub drop_entries-Stable : (j : ℕ) → Stable j p (drop_entries drop p).0
  unfolding drop_entries
  drop_entries-Stable j = record {
    grows = omega arith;
    quarters = λ x h. ground arith;
    held = λ x h k. ground arith;
    in_hand = λ c h. h;
  }

module _ (p : Pool) (v : PoolInv p) where
  pub shut_all-PoolInv : PoolInv (shut_all p)
  unfolding shut_all kept_slot
  shut_all-PoolInv =
      let w = drop_entries-PoolInv all_entries p v in
      record {
        mapped = λ q e h. w.mapped q e h;
        alive = λ e h d. w.alive e h d;
        sealed = λ h q. none_kept q (p.entries q);
        placed = λ e c h. w.placed e c h;
        fresh = λ c h. w.fresh c h;
      }
    where
      none_kept : (q : Quarter) (o : Option ℕ) → kept_slot all_entries p.heap o ≡ none
      none_kept q none = refl
      none_kept q (some e) = refl

  pub shut_all-Stable : (j : ℕ) → Stable j p (shut_all p)
  unfolding shut_all
  shut_all-Stable j =
      let s = drop_entries-Stable all_entries p v j in
      record {
        grows = s.grows;
        quarters = λ e h. s.quarters e h;
        held = λ e h k. s.held e h k;
        in_hand = λ c h. s.in_hand c h;
      }
