-- ===== src/Pool/Invariant.antt =====
-- No permit is lost or made up, and the counter of active connections is what it says.
use taproot_assets_rest_gate.Prelude.{ℕ, ◌+◌, ◌≤◌, ◌<◌, ◌≡◌, arith}
use taproot_assets_rest_gate.Pool.{
  PoolConfig, Pool, new, Lock, free, busy, busy_no_runtime, get_client, count_client, drop,
  late_return, Step, acquires, refused, times_out, counts, drops, returns_late, Reach, here, next,
}

-- Every permit is free, on its way to a client, or held. The counter is over the clients held by
-- the returns that are still to be counted, and those that never will be.
pub record IsBalanced (connections : ℕ) (p : Pool) : Type 0 where
  pub permits : p.available_permits + p.acquired + p.held ≡ connections
  pub active : p.stats.active_connections ≡ p.held + p.pending + p.uncounted

new-IsBalanced : (c : PoolConfig) → IsBalanced c.max_connections (new c)
unfolding new
new-IsBalanced c = omega arith

drop-IsBalanced :
    {n : ℕ} (p : Pool) (lock : Lock) → 0 < p.held → IsBalanced n p → IsBalanced n (drop p lock)
unfolding drop
drop-IsBalanced p free h b = omega arith
drop-IsBalanced p busy h b = omega arith
drop-IsBalanced p busy_no_runtime h b = omega arith

Step-IsBalanced : {n : ℕ} {p q : Pool} → Step p q → IsBalanced n p → IsBalanced n q
unfolding get_client count_client late_return
Step-IsBalanced (acquires h) b = omega arith
Step-IsBalanced refused b = b
Step-IsBalanced times_out b = omega arith
Step-IsBalanced (counts h small) b = omega arith
Step-IsBalanced {p} (drops lock h) b = drop-IsBalanced p lock h b
Step-IsBalanced (returns_late h) b = omega arith

Reach-IsBalanced : {n : ℕ} {p q : Pool} → IsBalanced n p → Reach p q → IsBalanced n q
Reach-IsBalanced b here = b
Reach-IsBalanced b (next r s) = Step-IsBalanced s (Reach-IsBalanced b r)

-- However calls, drops and late returns are interleaved while the counter is below 2^64, no more
-- clients are held than there are connections, nor permits free, and the counter is the number of
-- clients held, of returns that are still to be counted, and of those that were dropped outside a
-- runtime.
pub pool_bounded :
    (c : PoolConfig) (p : Pool)
    → Reach (new c) p
    → (p.held ≤ c.max_connections)
      × (p.available_permits ≤ c.max_connections)
      × (p.stats.active_connections ≡ p.held + p.pending + p.uncounted)
pool_bounded c p r = let b = Reach-IsBalanced (new-IsBalanced c) r in omega arith
