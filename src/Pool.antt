-- ===== src/Pool.antt =====
-- pool.rs: a bounded pool of connections. The functions of this file are the critical sections of
-- the pool's methods, each under the lock; `Pool.Steps` interleaves them. The head of `idle` is the
-- end of the source's vector, where it pushes and pops.
pub mod Steps
pub mod Invariant
pub mod Run
mod Tests
use tricoredb_sdk_rust.Common.{
  ℕ, suc, ◌+◌, ◌-◌, ltb, leb, Bool, true, false, not, ◌&&◌, ◌||◌, List, [], ◌∷◌, Text, codes, ◌==◌,
  is_empty, length, if◌then◌else◌,
}
use tricoredb_sdk_rust.Failure.{Error, ErrorKind, Result, ok, err, new_error, invalid}

pub record State (C : Type 0) : Type 0 where
  pub idle : List C
  pub lent : ℕ
  pub closed : Bool

-- What one round of the loop in `acquire` decides.
pub data Decision (C : Type 0) : Type 0 where
  refuse : Error → Decision C
  reuse : C → State C → Decision C
  open_new : State C → Decision C
  wait : Decision C

closed_error : Error
closed_error = new_error ErrorKind.pool (codes "this pool is closed")

timeout_error : Error
timeout_error =
    new_error ErrorKind.pool (codes "no pooled connection became free within the timeout")

module _ {C : Type 0} where
  -- The state of a new pool, if it has room for a connection.
  pub new : ℕ → Result (State C)
  new size =
      if size == 0
      then err (invalid (codes "a pool needs room for at least one connection"))
      else ok (record { idle = []; lent = 0; closed = false })

  -- How many connections are idle, and how many are lent out.
  abbrev stats : State C → ℕ × ℕ
  stats s = (length s.idle, s.lent)

  abbrev is_closed : State C → Bool
  is_closed s = s.closed

  lend : ℕ → State C → List C → Decision C
  lend size s (c ∷ rest) = reuse c (record s { idle = rest; lent = s.lent + 1 })
  lend size s [] = if ltb s.lent size then open_new (record s { lent = s.lent + 1 }) else wait

  -- One round of the loop: a closed pool refuses, an idle connection is lent, a free slot is counted
  -- before the connection is opened, and else the caller waits.
  pub decide : ℕ → State C → Decision C
  unfolding lend closed_error
  decide size s = if s.closed then refuse closed_error else lend size s s.idle

  -- Whether a wait that timed out is given up: not if there is something to take after all.
  pub gives_up : ℕ → State C → Bool
  gives_up size s = is_empty s.idle && leb size s.lent

  -- A connection that could not be opened gives its slot back.
  pub connect_failed : State C → State C
  connect_failed s = record s { lent = s.lent - 1 }

  -- The state after a connection came back, and whether it is to be closed.
  pub release : State C → C → Bool → State C × Bool
  release s c broken =
      if broken || s.closed
      then (record s { lent = s.lent - 1 }, true)
      else (record s { lent = s.lent - 1; idle = c ∷ s.idle }, false)

  -- The state of a pool that closes, and the idle connections to close.
  pub close : State C → State C × List C
  close s = (record s { closed = true; idle = [] }, s.idle)
