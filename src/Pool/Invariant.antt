-- ===== src/Pool/Invariant.antt =====
-- The invariant of a pool: its bounds, the trust in its idle connections, and the wake-ups.
pub mod Acquiring
pub mod Stepping
pub mod Reachable
use tricoredb_sdk_rust.Common.{
  ℕ, suc, ◌+◌, ◌≤◌, ◌<◌, ◌≡◌, refl, sym, subst, ◌∙◌, inl, inr, Bool, true, false, List, [], ◌∷◌,
  arith, length, All, ltb, Bool-cases, if◌then◌else◌, ltb→lt, leb→le, ◌-◌, ◌&&◌, ◌||◌, is_empty,
  leb, zero, ◌==◌, codes,
}
use tricoredb_sdk_rust.Failure.{Error, ok, err, invalid, ok-ne-err, ok-injective}
use tricoredb_sdk_rust.Pool.{
  State, Decision, refuse, reuse, open_new, wait, new, decide, lend, closed_error, gives_up,
  connect_failed, release, close,
}
use tricoredb_sdk_rust.Pool.Steps.{
  System, Notified, nobody, somebody, Acquires, refused, reused, opens, blocks, late, Step, arrives,
  resumes, wakes, times_out, connected, fails, releases, notifies, closes, notifies_all, Reach,
  start, next,
}

false-ne-true : false ≡ true → ⊥
false-ne-true h = cc

-- A pool may hold its invariant but for `missing` wake-ups, while a thread that was woken acts.
module _ {C : Type 0} (Clean : C → Type 0) (size : ℕ) where
  pub record IsSoundBut (missing : ℕ) (y : System C) : Type 0 where
    -- the count of lent slots is that of the threads that have one
    pub counted : y.state.lent ≡ y.connecting + y.holding
    -- the pool never grows past its size
    pub bounded : length y.state.idle + y.state.lent ≤ size
    -- an idle connection can be trusted
    pub clean : All Clean y.state.idle
    -- a closed pool keeps no connection
    pub emptied : y.state.closed ≡ true → length y.state.idle ≡ 0
    -- nobody waits for a free slot without a wake-up on its way
    pub awaited :
        y.state.closed ≡ false
        → 0 < y.waiting
        → size ≤ y.state.lent + y.awake + y.notifying + missing
    -- nobody waits on a closed pool without a wake-up on its way
    pub dismissed : y.state.closed ≡ true → 0 < y.waiting → 0 < y.closing
