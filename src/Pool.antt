-- ===== src/Pool.antt =====
-- internal/mcp/proxy/pool.go: the pool of warm backends, one entry for each quarter. This file has the
-- state and the operations that hold a mutex; each is one step. An entry is a number in the store
-- `heap`, so a stale pointer is a number whose entry is dead. `place` says where each client that was
-- started is: it is the environment's view, which no operation reads.
pub mod System
pub mod Invariant
pub mod Threads
pub mod Safety
pub mod Progress
pub mod Leak
pub mod Steps
pub mod Ownership
pub mod Frees
pub mod Liveness
use sql_ai_tools.Prelude.{
  ℕ, zero, suc, ◌+◌, Bool, true, false, ◌&&◌, List, [], ◌∷◌, ◌++◌, Option, none, some, Bytes, ltb,
  leb, ◌==◌, if◌then◌else◌,
}
use sql_ai_tools.Prelude.Int.{ℤ, pos, negsuc}
use sql_ai_tools.Route.Quarter.{Quarter}
use sql_ai_tools.Route.Discover.{Host, find_backend, quarter_eq}

-- `pooledEntry`, its mutex by the thread that holds it.
pub record Entry : Type 0 where
  pub quarter : Quarter
  pub path : Bytes
  pub client : Option ℕ
  pub last_used : ℕ
  pub dead : Bool
  pub holder : Option ℕ

-- Not started yet, in an entry, in the hands of a thread that is about to close it, or closed.
pub data Place : Type 0 where
  unborn : Place
  in_entry : ℕ → Place
  taken : ℕ → Place
  shut : Place

-- `PoolRouter`: the map, the flag, the entries made so far, and the clients started so far.
pub record Pool : Type 0 where
  pub idle_timeout : ℤ
  pub entries : Quarter → Option ℕ
  pub closed : Bool
  pub heap : ℕ → Entry
  pub next : ℕ
  pub place : ℕ → Place
  pub clients : ℕ

-- A write at one index.
abbrev pub update {ℓ} : {A : Type ℓ} → (ℕ → A) → ℕ → A → ℕ → A
update f i a j = if i == j then a else f j

unfoldable pub put : Quarter → Option ℕ → (Quarter → Option ℕ) → Quarter → Option ℕ
unfolding quarter_eq
put want o m w = if quarter_eq want w then o else m w

-- `entries[want] == entry`.
unfoldable pub is_slot : Option ℕ → ℕ → Bool
is_slot none e = false
is_slot (some x) e = x == e

-- `entry.lastUsed = p.nowFn()`.
unfoldable pub touch : ℕ → ℕ → Pool → Pool
touch now e p = record p { heap = update p.heap e (record (p.heap e) { last_used = now }) }

-- `checkout`: the pool is closed, the backend is not installed, or an entry.
pub data Checkout : Type 0 where
  pool_closed : Checkout
  not_installed : Checkout
  checked_out : ℕ → Checkout

unfoldable pub create : ℕ → Quarter → Pool → Option Bytes → Pool × Checkout
unfolding put
create now want p none = (p, not_installed)
create now want p (some path) = (
  record p {
    entries = put want (some p.next) p.entries;
    heap = update p.heap p.next (record {
      quarter = want;
      path = path;
      client = none;
      last_used = now;
      dead = false;
      holder = none;
    });
    next = suc p.next;
  },
  checked_out p.next,
)

unfoldable pub reuse : Host → ℕ → Quarter → Pool → Option ℕ → Pool × Checkout
unfolding create
reuse host now want p none = create now want p (find_backend host want)
reuse host now want p (some e) =
    if (p.heap e).dead then create now want p (find_backend host want) else (
      record p { heap = update p.heap e (record (p.heap e) { last_used = now }) },
      checked_out e,
    )

unfoldable pub checkout : Host → ℕ → Quarter → Pool → Pool × Checkout
unfolding reuse
checkout host now want p =
    if p.closed then (p, pool_closed) else reuse host now want p (p.entries want)

-- `markUsed`.
unfoldable pub mark_used : ℕ → ℕ → Pool → Pool
mark_used now e p = if (p.heap e).dead then p else touch now e p

-- `evict`, before the client is closed.
unfoldable pub evict : Quarter → ℕ → Pool → Pool
unfolding put is_slot
evict want e p = record p {
  entries = if is_slot (p.entries want) e then put want none p.entries else p.entries;
  heap = update p.heap e (record (p.heap e) { dead = true });
}

-- Whether the loop over the map meets the entry, and drops it by the test `drop`.
unfoldable pub is_victim : (Entry → Bool) → Pool → ℕ → Bool
unfolding is_slot
is_victim drop p e = is_slot (p.entries (p.heap e).quarter) e && drop (p.heap e)

-- The victims among the first `n` entries; the order of a map is not specified.
unfoldable pub victims : (Entry → Bool) → Pool → ℕ → List ℕ
unfolding is_victim
victims drop p zero = []
victims drop p (suc n) =
    let rest = victims drop p n in if is_victim drop p n then n ∷ rest else rest

unfoldable pub kept_slot : (Entry → Bool) → (ℕ → Entry) → Option ℕ → Option ℕ
kept_slot drop heap none = none
kept_slot drop heap (some e) = if drop (heap e) then none else some e

-- The loop over the map: each entry that is dropped is marked dead and leaves the map.
unfoldable pub drop_entries : (Entry → Bool) → Pool → Pool × List ℕ
unfolding is_victim victims kept_slot
drop_entries drop p = (
  record p {
    entries = λ w. kept_slot drop p.heap (p.entries w);
    heap = λ e. if is_victim drop p e then record (p.heap e) { dead = true } else p.heap e;
  },
  victims drop p p.next,
)

-- `now.Sub(entry.lastUsed) >= p.idleTimeout`.
unfoldable pub is_idle : ℕ → ℕ → Entry → Bool
is_idle timeout now e = leb (timeout + e.last_used) now

-- The part of `sweepIdle` under the pool's mutex.
unfoldable pub sweep_from : ℤ → ℕ → Pool → Pool × List ℕ
unfolding drop_entries is_idle
sweep_from (pos (suc n)) now p = drop_entries (is_idle (suc n) now) p
sweep_from _ now p = (p, [])

unfoldable pub sweep_idle : ℕ → Pool → Pool × List ℕ
unfolding sweep_from
sweep_idle now p = sweep_from p.idle_timeout now p

unfoldable pub all_entries : Entry → Bool
all_entries e = true

-- What `Close` does to a pool that is open.
unfoldable pub shut_all : Pool → Pool
unfolding drop_entries all_entries
shut_all p = record (drop_entries all_entries p).0 { closed = true }

unfoldable pub close_from : Bool → Pool → Pool × List ℕ
unfolding victims all_entries
close_from true p = (p, [])
close_from false p = (shut_all p, victims all_entries p p.next)

-- The part of `Close` under the pool's mutex.
unfoldable pub close : Pool → Pool × List ℕ
close p = close_from p.closed p

-- `entry.Lock()` once the mutex is free, and `entry.Unlock()`.
unfoldable pub acquire : ℕ → ℕ → Pool → Pool
acquire i e p = record p { heap = update p.heap e (record (p.heap e) { holder = some i }) }

unfoldable pub release : ℕ → Pool → Pool
release e p = record p { heap = update p.heap e (record (p.heap e) { holder = none }) }

-- `entry.client = c` for the client that `spawn` returned.
unfoldable pub attach : ℕ → Pool → Pool
attach e p = record p {
  heap = update p.heap e (record (p.heap e) { client = some p.clients });
  place = update p.place p.clients (in_entry e);
  clients = suc p.clients;
}

-- `entry.client = nil`, with the client in the hands of thread `i`.
unfoldable pub take_client : ℕ → ℕ → ℕ → Pool → Pool
take_client i e c p = record p {
  heap = update p.heap e (record (p.heap e) { client = none });
  place = update p.place c (taken i);
}

-- `Close` of a client.
unfoldable pub close_client : ℕ → Pool → Pool
close_client c p = record p { place = update p.place c shut }
