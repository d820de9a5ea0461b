-- ===== src/Pool/Tests.antt =====
-- A pool of one connection: a thread opens it, and a second thread waits for it.
use tricoredb_sdk_rust.Common.{ℕ, ◌+◌, ◌≤◌, ◌≡◌, refl, Bool, true, false, List, [], arith, All}
use tricoredb_sdk_rust.Pool.{new, decide, close}
use tricoredb_sdk_rust.Pool.Steps.{
  System, opens, blocks, arrives, connected, closes, notifies_all, Reach, start, next,
}
use tricoredb_sdk_rust.Pool.Invariant.Reachable.{Reach-IsSound, Reach-no_lost_wakeup}

abbrev Sane : ℕ → Type 0
Sane c = Unit

abbrev system : ℕ → Bool → ℕ → ℕ → ℕ → ℕ → System ℕ
system lent closed waiting awake holding closing = record {
  state = record { idle = []; lent = lent; closed = closed };
  waiting = waiting;
  awake = awake;
  connecting = 0;
  holding = holding;
  notifying = 0;
  closing = closing;
}

lent_once : Reach Sane 1 (system 1 false 0 0 1 0)
unfolding new decide
lent_once =
    next
      (next (start (record { idle = []; lent = 0; closed = false }) refl)
        (arrives (opens (record { idle = []; lent = 1; closed = false }) refl)))
      (connected 0 refl)

one_waits : Reach Sane 1 (system 1 false 1 0 1 0)
unfolding decide
one_waits = next lent_once (arrives (blocks refl))

closed_down : Reach Sane 1 (system 1 true 0 1 1 0)
unfolding close
closed_down = next (next one_waits closes) (notifies_all 0 refl)

Reach-IsSound_example :
    (1 ≡ 0 + 1) × (0 + 1 ≤ 1) × All Sane [] × (false ≡ true → ◌≡◌ {A = List ℕ} [] [])
Reach-IsSound_example = Reach-IsSound Sane 1 one_waits

Reach-no_lost_wakeup_example : ◌≡◌ {A = List ℕ} [] [] × (0 + 1 ≡ 1)
Reach-no_lost_wakeup_example = Reach-no_lost_wakeup Sane 1 one_waits refl (omega arith) refl refl
