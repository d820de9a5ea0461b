-- ===== src/Pool/Steps.antt =====
-- The threads of a pool, as the interleavings of their critical sections.
use tricoredb_sdk_rust.Common.{ℕ, ◌+◌, ◌≡◌, Bool, true, false}
use tricoredb_sdk_rust.Failure.{Error, ok}
use tricoredb_sdk_rust.Pool.{
  State, refuse, reuse, open_new, wait, new, decide, gives_up, connect_failed, release, close,
}

-- The pool's state, and how many threads stand where: blocked on the condition variable, awake and
-- about to take the lock again, opening a connection, holding one, about to notify one waiter, and
-- about to notify all.
pub record System (C : Type 0) : Type 0 where
  pub state : State C
  pub waiting : ℕ
  pub awake : ℕ
  pub connecting : ℕ
  pub holding : ℕ
  pub notifying : ℕ
  pub closing : ℕ

-- `notify_one`.
pub data Notified {C : Type 0} (y : System C) : System C → Type 0 where
  nobody : y.waiting ≡ 0 → Notified y y
  somebody :
      (n : ℕ) → y.waiting ≡ n + 1 → Notified y (record y { waiting = n; awake = y.awake + 1 })

-- `Clean` is what a borrower may assume of an idle connection.
module _ {C : Type 0} (Clean : C → Type 0) (size : ℕ) where
  -- A thread that has the lock in `acquire` acts on the round's decision.
  pub data Acquires (y : System C) : System C → Type 0 where
    refused : (e : Error) → decide size y.state ≡ refuse e → Acquires y y
    reused :
        (c : C) (s : State C)
        → decide size y.state ≡ reuse c s
        → Acquires y (record y { state = s; holding = y.holding + 1 })
    opens :
        (s : State C)
        → decide size y.state ≡ open_new s
        → Acquires y (record y { state = s; connecting = y.connecting + 1 })
    blocks : decide size y.state ≡ wait → Acquires y (record y { waiting = y.waiting + 1 })
    -- the deadline has passed
    late : decide size y.state ≡ wait → Acquires y y

  pub data Step (y : System C) : System C → Type 0 where
    -- a thread calls `with_connection`
    arrives : {z : System C} → Acquires y z → Step y z
    -- a thread that was woken goes round the loop again
    resumes :
        {z : System C} (n : ℕ) → y.awake ≡ n + 1 → Acquires (record y { awake = n }) z → Step y z
    -- a wait ends by its timeout, or for no reason
    wakes : (n : ℕ) → y.waiting ≡ n + 1 → Step y (record y { waiting = n; awake = y.awake + 1 })
    -- a wait that timed out is given up
    times_out :
        (n : ℕ) → y.awake ≡ n + 1 → gives_up size y.state ≡ true → Step y (record y { awake = n })
    connected :
        (n : ℕ)
        → y.connecting ≡ n + 1
        → Step y (record y { connecting = n; holding = y.holding + 1 })
    fails :
        {z : System C} (n : ℕ)
        → y.connecting ≡ n + 1
        → Notified (record y { connecting = n; state = connect_failed y.state }) z
        → Step y z
    releases :
        (n : ℕ) (c : C) (broken : Bool)
        → y.holding ≡ n + 1
        → (broken ≡ false → Clean c)
        → Step y (record y {
          holding = n;
          notifying = y.notifying + 1;
          state = (release y.state c broken).0;
        })
    notifies :
        {z : System C} (n : ℕ)
        → y.notifying ≡ n + 1
        → Notified (record y { notifying = n }) z
        → Step y z
    closes : Step y (record y { closing = y.closing + 1; state = (close y.state).0 })
    notifies_all :
        (n : ℕ)
        → y.closing ≡ n + 1
        → Step y (record y { closing = n; waiting = 0; awake = y.awake + y.waiting })

  -- The systems that a new pool can come to.
  pub data Reach : System C → Type 0 where
    start :
        (s : State C)
        → new size ≡ ok s
        → Reach (record {
          state = s;
          waiting = 0;
          awake = 0;
          connecting = 0;
          holding = 0;
          notifying = 0;
          closing = 0;
        })
    next : {y z : System C} → Reach y → Step y z → Reach z
