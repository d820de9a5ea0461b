-- ===== src/Sql/Depth.antt =====
-- sql.rs: the transaction flag of a client beside the server's count of open blocks.
mod Tests
use tricoredb_sdk_rust.Common.{
  ℕ, zero, suc, ◌≡◌, refl, sym, ap, ◌∙◌, Bool, true, false, Option, none, some, Text, codes,
  text_eq, is_some, ◌||◌, ◌&&◌, not, Bool-cases, inl, inr, if◌then◌else◌,
}
use tricoredb_sdk_rust.Common.Int.{ℤ}
use tricoredb_sdk_rust.Environment.{Environment}
use tricoredb_sdk_rust.Failure.{Error, ok, err, was_refused_locally}
use tricoredb_sdk_rust.Response.{Response, decode}
use tricoredb_sdk_rust.Client.{Session}
use tricoredb_sdk_rust.Sql.{SqlCodec, TransactionResult, execute, transaction_control}
use tricoredb_sdk_rust.Sql.Transactions.{after_error, transaction_control_outcome}

-- What the server says of the blocks that a keyword leaves open: nothing if it ended the transaction,
-- and else how many are nested in the transaction.
abbrev pub depth_left : ℕ → Option ℤ
depth_left zero = none
depth_left (suc n) = some (ℤ.pos n)

-- Whether any block is open.
abbrev pub some_open : ℕ → Bool
some_open zero = false
some_open (suc n) = true

module _ {W A S T : Type 0} (env : Environment W A S T) (codec : SqlCodec) where
  abbrev control : Text → Session W S T → Session W S T
  control keyword s = (transaction_control env codec keyword s).1

  abbrev pub is_opening : Text → Bool
  is_opening keyword = text_eq keyword (codes "BEGIN")

  -- The server's answer to a keyword.
  abbrev pub Replies : Text → Session W S T → TransactionResult → Type 0
  Replies keyword s r =
      (response : Response) × ((execute env codec keyword s).0 ≡ ok response)
      × (decode codec.result_value response keyword ≡ ok r)

  -- Keywords one after another, with the blocks that are open on the server, the transaction itself
  -- included: BEGIN opens one, and COMMIT and ROLLBACK close one and say what is left. COMMIT and
  -- ROLLBACK that fail at the server end everything, and a keyword that is refused before it is sent
  -- changes nothing.
  pub data Controls : ℕ → Session W S T → ℕ → Session W S T → Type 0 where
    rest : (d : ℕ) (s : Session W S T) → Controls d s d s
    opened :
        (d d' : ℕ) (s s' : Session W S T) (r : TransactionResult)
        → Replies (codes "BEGIN") s r
        → Controls (suc d) (control (codes "BEGIN") s) d' s'
        → Controls d s d' s'
    closed :
        (d d' : ℕ) (s s' : Session W S T) (keyword : Text) (r : TransactionResult)
        → is_opening keyword ≡ false
        → Replies keyword s r
        → r.nested_depth ≡ depth_left d
        → Controls d (control keyword s) d' s'
        → Controls (suc d) s d' s'
    ended :
        (d d' : ℕ) (s s' : Session W S T) (keyword : Text) (e : Error)
        → is_opening keyword ≡ false
        → (execute env codec keyword s).0 ≡ err e
        → was_refused_locally e ≡ false
        → Controls zero (control keyword s) d' s'
        → Controls d s d' s'
    unsent :
        (d d' : ℕ) (s s' : Session W S T) (keyword : Text) (e : Error)
        → (execute env codec keyword s).0 ≡ err e
        → (execute env codec keyword s).1.client.txn_open ≡ s.client.txn_open
        → was_refused_locally e ≡ true
        → Controls d (control keyword s) d' s'
        → Controls d s d' s'

  abbrev pub Follows : ℕ → Session W S T → Type 0
  Follows d s = s.client.txn_open ≡ some_open d

  opened-Follows :
      (d : ℕ) (s : Session W S T) (r : TransactionResult)
      → Replies (codes "BEGIN") s r
      → Follows (suc d) (control (codes "BEGIN") s)
  unfolding codes text_eq
  opened-Follows d s r (response, p, q) =
      ap (λ x. x.1.client.txn_open)
        (((transaction_control_outcome env codec (codes "BEGIN") s).1 response p).1 r q)

  some_depth : (d : ℕ) → is_some (depth_left d) ≡ some_open d
  some_depth zero = refl
  some_depth (suc d) = refl

  closed-Follows :
      (d : ℕ) (s : Session W S T) (keyword : Text) (r : TransactionResult)
      → is_opening keyword ≡ false
      → Replies keyword s r
      → r.nested_depth ≡ depth_left d
      → Follows d (control keyword s)
  closed-Follows d s keyword r b (response, p, q) n =
      ap (λ x. x.1.client.txn_open)
        (((transaction_control_outcome env codec keyword s).1 response p).1 r q)
      ∙ rw (b, n) (some_depth d)

  failed :
      (s : Session W S T) (keyword : Text) (e : Error)
      → (execute env codec keyword s).0 ≡ err e
      → control keyword s ≡ after_error env codec keyword e (execute env codec keyword s).1
  failed s keyword e p = ap (λ x. x.1) ((transaction_control_outcome env codec keyword s).0 e p)

  ended-Follows :
      (s : Session W S T) (keyword : Text) (e : Error)
      → is_opening keyword ≡ false
      → (execute env codec keyword s).0 ≡ err e
      → was_refused_locally e ≡ false
      → Follows zero (control keyword s)
  ended-Follows s keyword e b p l =
      ap (λ (x : Session W S T). x.client.txn_open) (failed s keyword e p) ∙ rw (b, l) refl

  unsent-Follows :
      (d : ℕ) (s : Session W S T) (keyword : Text) (e : Error)
      → Follows d s
      → (execute env codec keyword s).0 ≡ err e
      → (execute env codec keyword s).1.client.txn_open ≡ s.client.txn_open
      → was_refused_locally e ≡ true
      → Follows d (control keyword s)
  unsent-Follows d s keyword e f p q l =
      ap (λ (x : Session W S T). x.client.txn_open) (failed s keyword e p)
      ∙ elim (Bool-cases (is_opening keyword)) [ inl b ↦ rw b (q ∙ f) | inr b ↦ rw (b, l) (q ∙ f) ]

  -- On a server that opens a block with every BEGIN, closes one with every COMMIT and ROLLBACK that it
  -- grants, and all with one that it fails, and that says how many nested blocks are left, the client's
  -- transaction flag tells, after any sequence of these keywords, whether a block is open on the
  -- server, if it did so before.
  pub Controls-Follows :
      (d d' : ℕ) (s s' : Session W S T) → Controls d s d' s' → Follows d s → Follows d' s'
  Controls-Follows _ _ _ _ (rest d s) f = f
  Controls-Follows _ _ _ _ (opened d d' s s' r p more) f =
      Controls-Follows _ _ _ _ more (opened-Follows d s r p)
  Controls-Follows _ _ _ _ (closed d d' s s' keyword r b p n more) f =
      Controls-Follows _ _ _ _ more (closed-Follows d s keyword r b p n)
  Controls-Follows _ _ _ _ (ended d d' s s' keyword e b p l more) f =
      Controls-Follows _ _ _ _ more (ended-Follows s keyword e b p l)
  Controls-Follows _ _ _ _ (unsent d d' s s' keyword e p q l more) f =
      Controls-Follows _ _ _ _ more (unsent-Follows d s keyword e f p q l)
