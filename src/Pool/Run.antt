-- ===== src/Pool/Run.antt =====
-- pool.rs: what `run` does with a borrowed connection around the closure, and when the connection
-- may go back to the idle ones.
mod Tests
use tricoredb_sdk_rust.Act.{Act}
use tricoredb_sdk_rust.Common.{
  ℕ, zero, suc, ◌≡◌, refl, sym, ap, ◌∙◌, Bool, true, false, not, ◌&&◌, ◌||◌, Text, codes, Option,
  none, some, is_some, if◌then◌else◌,
}
use tricoredb_sdk_rust.Environment.{Environment}
use tricoredb_sdk_rust.Failure.{Error, Result, ok, err, invalid, is_connection_fatal}
use tricoredb_sdk_rust.Client.{Client, Session, Call, in_transaction, is_poisoned}
use tricoredb_sdk_rust.Sql.{SqlCodec, rollback}

abbrev max_open_blocks : ℕ
max_open_blocks = 64

pub left_open_error : Error
left_open_error = invalid (
    codes
      "the closure returned with a transaction still open on the pooled connection; it has been rolled back rather than handed to the next borrower. Commit or roll back inside the closure, or use Client::with_transaction")

is_fatal : {B : Type 0} → Result B → Bool
is_fatal (ok b) = false
is_fatal (err e) = is_connection_fatal e

-- What `run` leaves: the caller's result, the session, and whether it is broken.
pub record Settled (W S T B : Type 0) : Type 0 where
  pub result : Result B
  pub session : Session W S T
  pub broken : Bool

module _ {W A S T : Type 0} (env : Environment W A S T) (codec : SqlCodec) where
  -- Up to so many rollbacks, until the transaction is gone or one fails.
  rollbacks : ℕ → Session W S T → Session W S T
  rollbacks zero s = s
  rollbacks (suc n) s =
      let (r, s') = rollback env codec s in
      let rest = rollbacks n s' in
      if not (in_transaction s.client) then s else elim r [ ok _ ↦ rest | err e ↦ s' ]

  refused_open : {B : Type 0} → Result B → Result B
  refused_open (err e) = err e
  refused_open (ok b) = err left_open_error

  settle_open : {B : Type 0} → Result B → Session W S T → Settled W S T B
  settle_open r s = record {
    result = refused_open r;
    session = s;
    broken = in_transaction s.client || is_poisoned s.client;
  }

  settle : {B : Type 0} → Bool → Result B → Session W S T → Settled W S T B
  settle broken r s =
      if not broken && in_transaction s.client
      then settle_open r (rollbacks max_open_blocks s)
      else record { result = r; session = s; broken = broken }

  -- `run` between the borrowing of the connection and its release.
  pub run : {B : Type 0} → Call env B → Session W S T → Settled W S T B
  unfolding settle settle_open rollbacks refused_open
  run work s = let (r, s') = work s in settle (is_poisoned s'.client || is_fatal r) r s'

  -- What the next borrower may assume of a connection.
  abbrev pub IsReusable : Client S T → Type 0
  IsReusable c = (in_transaction c ≡ false) × (is_poisoned c ≡ false)

  true-ne-false : true ≡ false → ⊥
  true-ne-false h = cc

  or_left : (a b : Bool) → (a || b) ≡ false → a ≡ false
  or_left false b h = refl
  or_left true b h = absurd (true-ne-false h)

  or_right : (a b : Bool) → (a || b) ≡ false → b ≡ false
  or_right false b h = h
  or_right true b h = absurd (true-ne-false h)

  module _ {B : Type 0} (broken : Bool) (r : Result B) (s : Session W S T) where
    settle-IsReusable :
        (broken ≡ false → is_poisoned s.client ≡ false)
        → (settle broken r s).broken ≡ false
        → IsReusable (settle broken r s).session.client
    unfolding settle settle_open
    settle-IsReusable sane = go broken (in_transaction s.client) refl refl
      where
        go :
            (b t : Bool)
            → broken ≡ b
            → in_transaction s.client ≡ t
            → let x : Settled W S T B =
                if not b && t
                then settle_open r (rollbacks max_open_blocks s)
                else record { result = r; session = s; broken = b } in
              x.broken ≡ false → IsReusable x.session.client
        go true t e f h = absurd (true-ne-false h)
        go false false e f h = (f, sane e)
        go false true e f h = (or_left _ _ h, or_right _ _ h)

  settle_error :
      {B : Type 0} (broken : Bool) (e : Error) (s : Session W S T)
      → (settle {B = B} broken (err e) s).result ≡ err e
  unfolding settle settle_open refused_open
  settle_error {B} broken e s = go (not broken && in_transaction s.client)
    where
      go :
          (b : Bool)
          → let x : Settled W S T B =
              if b
              then settle_open (err e) (rollbacks max_open_blocks s)
              else record { result = err e; session = s; broken = broken } in
            x.result ≡ err e
      go true = refl
      go false = refl

  settle_value :
      {B : Type 0} (broken : Bool) (b : B) (s : Session W S T)
      → in_transaction s.client ≡ false
      → ((settle broken (ok b) s).result ≡ ok b) × ((settle broken (ok b) s).session ≡ s)
  unfolding settle
  settle_value true b s h = (refl, refl)
  settle_value false b s h = (rw h refl, rw h refl)

  module _ {B : Type 0} (work : Call env B) (s : Session W S T) where
    -- A connection that goes back to the idle ones is neither poisoned nor in a transaction,
    -- whatever the closure did.
    pub run-IsReusable : (run work s).broken ≡ false → IsReusable (run work s).session.client
    unfolding run settle settle_open
    run-IsReusable =
        settle-IsReusable (is_poisoned (work s).1.client || is_fatal (work s).0) (work s).0
          (work s).1 (or_left _ _)

    -- The caller's result by cases: the closure's error is returned as it is; the value of a closure
    -- that left a transaction open on a connection that is not poisoned becomes an error, of the kind
    -- of invalid arguments; any other value is returned, on the session that the closure left.
    pub run_outcome :
        ((e : Error) → (work s).0 ≡ err e → (run work s).result ≡ err e)
        × ((b : B)
            → (work s).0 ≡ ok b
            → (is_poisoned (work s).1.client ≡ false
                → in_transaction (work s).1.client ≡ true
                → (run work s).result ≡ err left_open_error)
              × (in_transaction (work s).1.client ≡ false
                  → ((run work s).result ≡ ok b) × ((run work s).session ≡ (work s).1)))
    unfolding run settle settle_open refused_open is_fatal
    run_outcome = (
      λ e h.
          rw h (settle_error (is_poisoned (work s).1.client || is_connection_fatal e) e (work s).1),
      λ b h. (
        λ p q. rw (h, p, q) refl,
        λ q. rw h (settle_value (is_poisoned (work s).1.client || false) b (work s).1 q),
      ),
    )
