-- ===== src/Sql/Transactions.antt =====
-- When a session transaction is open, and what a failed closure leaves behind.
use tricoredb_sdk_rust.Act.{>>=-of_ok, >>=-of_err}
use tricoredb_sdk_rust.Common.{
  ◌≡◌, refl, sym, ap, ◌∙◌, inl, inr, Bool, true, false, not, ◌&&◌, ◌||◌, some, Text, codes, text_eq,
  is_some, Bool-cases, if◌then◌else◌,
}
use tricoredb_sdk_rust.Common.Int.{ℤ}
use tricoredb_sdk_rust.Environment.{Environment}
use tricoredb_sdk_rust.Failure.{
  Error, Result, ok, err, Result-cases, ok-ne-err, ok-injective, was_refused_locally,
  feature_refusal,
}
use tricoredb_sdk_rust.Response.{Response, decode}
use tricoredb_sdk_rust.Client.{Session, Call, in_transaction, session_txn_granted, set_txn_open}
use tricoredb_sdk_rust.Sql.{
  SqlCodec, TransactionResult, execute, transaction_control, control_reply, begin, commit, rollback,
  with_transaction, finish, undo, no_session_txn,
}

module _ {W A S T : Type 0} (env : Environment W A S T) (codec : SqlCodec) where
  -- A client whose transaction flag is set anew.
  abbrev pub flagged : Bool → Session W S T → Session W S T
  flagged b s = record s { client = record s.client { txn_open = b } }

  -- What an error of a keyword leaves: COMMIT and ROLLBACK end the transaction unless the request
  -- never left this process.
  abbrev pub after_error : Text → Error → Session W S T → Session W S T
  after_error keyword e s =
      if not (text_eq keyword (codes "BEGIN")) && not (was_refused_locally e)
      then flagged false s
      else s

  error_reply :
      (keyword : Text) (e : Error) (s : Session W S T)
      → control_reply env codec keyword (err e) s ≡ (err e, after_error keyword e s)
  unfolding control_reply set_txn_open
  error_reply keyword e s =
      elim (Bool-cases (not (text_eq keyword (codes "BEGIN")) && not (was_refused_locally e))) [
        | inl p ↦ rw (p, control_reply) refl
        | inr p ↦ rw (p, control_reply) refl
      ]

  -- How a control keyword ends, by the request it sends: a reply that can be read says by
  -- `nested_depth` whether the transaction is open, and after BEGIN it is; an error of COMMIT or
  -- ROLLBACK that was not refused locally ends it; any other outcome leaves the flag alone.
  pub transaction_control_outcome :
      (keyword : Text) (s : Session W S T)
      → let s' = (execute env codec keyword s).1 in
        ((e : Error)
          → (execute env codec keyword s).0 ≡ err e
          → transaction_control env codec keyword s ≡ (err e, after_error keyword e s'))
        × ((response : Response)
            → (execute env codec keyword s).0 ≡ ok response
            → ((e : Error)
                → decode codec.result_value response keyword ≡ err e
                → transaction_control env codec keyword s ≡ (err e, s'))
              × ((r : TransactionResult)
                  → decode codec.result_value response keyword ≡ ok r
                  → transaction_control env codec keyword s ≡ (
                    ok r,
                    flagged (text_eq keyword (codes "BEGIN") || is_some r.nested_depth) s',
                  )))
  unfolding transaction_control set_txn_open
  transaction_control_outcome keyword s = (
    λ e h.
        ap (λ r. control_reply env codec keyword r (execute env codec keyword s).1) h
        ∙ error_reply keyword e (execute env codec keyword s).1,
    λ response h. (
      λ e p.
          ap (λ r. control_reply env codec keyword r (execute env codec keyword s).1) h ∙ rw p refl,
      λ r p.
          ap (λ r. control_reply env codec keyword r (execute env codec keyword s).1) h ∙ rw p refl,
    ),
  )

  -- Without the capability BEGIN is refused locally, and the session stays as it is.
  begin-not_granted :
      (s : Session W S T)
      → session_txn_granted s.client ≡ false
      → begin env codec s ≡ (err (feature_refusal no_session_txn), s)
  unfolding begin
  begin-not_granted s h = rw h refl

  module _ {B : Type 0} (work : Call env B) (s : Session W S T) where
    -- `with_transaction` by cases: a BEGIN that fails, the missing capability included, is returned and
    -- the closure does not run; a closure's error is returned whatever a rollback answers, and one
    -- rollback is sent exactly if a transaction is still open; a closure's value is returned only after
    -- a COMMIT that went through.
    pub with_transaction_outcome :
        ((e : Error)
          → (begin env codec s).0 ≡ err e
          → with_transaction env codec work s ≡ (err e, (begin env codec s).1))
        × (session_txn_granted s.client ≡ false
            → with_transaction env codec work s ≡ (err (feature_refusal no_session_txn), s))
        × ((r : TransactionResult)
            → (begin env codec s).0 ≡ ok r
            → let s' = (work (begin env codec s).1).1 in
              ((e : Error)
                → (work (begin env codec s).1).0 ≡ err e
                → with_transaction env codec work s
                  ≡ (err e, if in_transaction s'.client then (rollback env codec s').1 else s'))
              × ((b : B) (e : Error)
                  → (work (begin env codec s).1).0 ≡ ok b
                  → (commit env codec s').0 ≡ err e
                  → with_transaction env codec work s ≡ (err e, (commit env codec s').1))
              × ((b : B) (c : TransactionResult)
                  → (work (begin env codec s).1).0 ≡ ok b
                  → (commit env codec s').0 ≡ ok c
                  → with_transaction env codec work s ≡ (ok b, (commit env codec s').1)))
    unfolding with_transaction finish undo
    with_transaction_outcome = (
      λ e h. >>=-of_err (begin env codec) _ s h,
      λ h.
          let e = begin-not_granted s h in
          >>=-of_err (begin env codec) _ s (ap (λ x. x.0) e)
          ∙ ap
              (λ (x : Result TransactionResult × Session W S T).
                (err (feature_refusal no_session_txn), x.1))
              e,
      λ r h.
          let started =
            >>=-of_ok (begin env codec) (λ _ t. finish env codec (work t).0 (work t).1) s h in
          (
            λ e p. started ∙ rw p refl,
            λ b e p q. started ∙ rw (p, finish) (rw q refl),
            λ b c p q. started ∙ rw (p, finish) (rw q refl),
          ),
    )

  read_flag :
      (keyword : Text) (s : Session W S T) (r : TransactionResult)
      → (transaction_control env codec keyword s).0 ≡ ok r
      → (transaction_control env codec keyword s).1.client.txn_open
        ≡ (text_eq keyword (codes "BEGIN") || is_some r.nested_depth)
  read_flag keyword s r h = elim (Result-cases (execute env codec keyword s).0) [
    | inr (e, p) ↦
        absurd (ok-ne-err (sym h ∙ ap (λ x. x.0) ((transaction_control_outcome keyword s).0 e p)))
    | inl (response, p) ↦
        let cases = (transaction_control_outcome keyword s).1 response p in
        elim (Result-cases (decode codec.result_value response keyword)) [
          | inr (e, q) ↦ absurd (ok-ne-err (sym h ∙ ap (λ x. x.0) (cases.0 e q)))
          | inl (r', q) ↦
              let done = cases.1 r' q in
              let same : r' ≡ r = ok-injective (sym (ap (λ x. x.0) done) ∙ h) in
              ap (λ x. x.1.client.txn_open) done
              ∙ ap
                  (λ (x : TransactionResult).
                    text_eq keyword (codes "BEGIN") || is_some x.nested_depth)
                  same
        ]
  ]

  begun :
      (s : Session W S T) (r : TransactionResult) (g : Bool)
      → session_txn_granted s.client ≡ g
      → (begin env codec s).0 ≡ ok r
      → (begin env codec s).1.client.txn_open ≡ true
  unfolding begin codes text_eq
  begun s r false p h = absurd (ok-ne-err (sym h ∙ ap (λ x. x.0) (begin-not_granted s p)))
  begun s r true p h = rw p (read_flag (codes "BEGIN") s r (rw p at h))

  -- After a COMMIT or ROLLBACK whose reply could be read, the transaction is open exactly if the
  -- reply says that it closed a nested block; after a BEGIN it is open.
  pub control_flags :
      (s : Session W S T) (r : TransactionResult)
      → ((begin env codec s).0 ≡ ok r → (begin env codec s).1.client.txn_open ≡ true)
        × ((commit env codec s).0 ≡ ok r
            → (commit env codec s).1.client.txn_open ≡ is_some r.nested_depth)
        × ((rollback env codec s).0 ≡ ok r
            → (rollback env codec s).1.client.txn_open ≡ is_some r.nested_depth)
  unfolding commit rollback codes text_eq
  control_flags s r = (
    λ h. begun s r (session_txn_granted s.client) refl h,
    λ h. read_flag (codes "COMMIT") s r h,
    λ h. read_flag (codes "ROLLBACK") s r h,
  )

  -- A closure that leaves a nested block open makes `with_transaction` return with the transaction
  -- itself still open, after an error as after a success: its one ROLLBACK or COMMIT then closes the
  -- block alone, as the reply's `nested_depth` says.
  pub with_transaction-nested :
      {B : Type 0} (work : Call env B) (s : Session W S T) (r c : TransactionResult) (d : ℤ)
      → (begin env codec s).0 ≡ ok r
      → c.nested_depth ≡ some d
      → let s' = (work (begin env codec s).1).1 in
        ((e : Error)
          → (work (begin env codec s).1).0 ≡ err e
          → in_transaction s'.client ≡ true
          → (rollback env codec s').0 ≡ ok c
          → (with_transaction env codec work s).1.client.txn_open ≡ true)
        × ((b : B)
            → (work (begin env codec s).1).0 ≡ ok b
            → (commit env codec s').0 ≡ ok c
            → (with_transaction env codec work s).1.client.txn_open ≡ true)
  with_transaction-nested work s r c d started nested =
      let s' = (work (begin env codec s).1).1 in
      let cases = (with_transaction_outcome work s).2 r started in
      let open_still = ap is_some nested in
      (
        λ e p open_now q.
            ap (λ x. x.1.client.txn_open) (cases.0 e p)
            ∙ rw open_now ((control_flags s' c).2 q ∙ open_still),
        λ b p q.
            ap (λ x. x.1.client.txn_open) (cases.2 b c p q) ∙ (control_flags s' c).1 q ∙ open_still,
      )
