-- ===== src/Client/Sending/Once.antt =====
-- When a request is sent once: inside a session transaction, and never on a poisoned connection.
use tricoredb_sdk_rust.Act.{>>=-of_err}
use tricoredb_sdk_rust.Common.{
  ℕ, zero, suc, ◌*◌, ◌≤◌, ◌≡◌, refl, sym, ap, ◌∙◌, Bool, true, false, Option, some, Text, arith,
  unwrap_or, [], codes,
}
use tricoredb_sdk_rust.Environment.{Environment}
use tricoredb_sdk_rust.Failure.{Error, Result, ok, err, is_redirect, code_is, ok-ne-err}
use tricoredb_sdk_rust.Frame.{Tag, Frame}
use tricoredb_sdk_rust.Json.{Value}
use tricoredb_sdk_rust.Options.{Duration, from_millis, from_secs}
use tricoredb_sdk_rust.Response.{Response}
use tricoredb_sdk_rust.Client.{Client, Session, Call, dropped_error, exchange}
use tricoredb_sdk_rust.Client.Poison.{exchange-unusable}
use tricoredb_sdk_rust.Client.Sending.{
  send_once, send_loop, attempt, after_attempt, follow, gives_up, retried_error, next_pause,
  send_in, numbered, envelope_of,
}
use tricoredb_sdk_rust.Client.Sending.Following.{
  Rounds, settled, gave_up, moved_on, waited, send_in-Rounds,
}
use tricoredb_sdk_rust.Client.Sending.Outcomes.{send_once-redirect, send_once-eq-ok}

-- A pause between two attempts on one connection is at least a millisecond and at most two seconds,
-- and in between it doubles.
pub next_pause_bounds :
    (pause : Duration)
    → (from_millis 1 ≤ next_pause pause)
      × (next_pause pause ≤ from_secs 2)
      × (from_millis 1 ≤ pause → pause ≤ from_secs 1 → next_pause pause ≡ pause * 2)
unfolding next_pause
next_pause_bounds pause = (omega arith, omega arith, λ l h. omega arith)

retried_error-zero : (e : Error) → retried_error e 0 ≡ e
unfolding retried_error
retried_error-zero e = refl

gives_up-txn_open :
    {S T : Type 0} (c : Client S T) (n : ℕ) → c.txn_open ≡ true → gives_up c n ≡ true
unfolding gives_up
gives_up-txn_open c n h = ground arith

module _ {W A S T : Type 0} (env : Environment W A S T) where
  attempt-txn_open :
      (envelope : Value) (again : ℕ → Duration → Call env Response) (pause : Duration)
      (s : Session W S T)
      → s.client.txn_open ≡ true
      → attempt env envelope again 0 pause s ≡ send_once env envelope s
  unfolding attempt after_attempt follow
  attempt-txn_open envelope again pause s open_now = go (send_once env envelope s) refl
    where
      decided :
          (e : Error) (s' : Session W S T)
          → send_once env envelope s ≡ (err e, s')
          → (b : Bool) → is_redirect e ≡ b
          → after_attempt env again 0 pause (err e) s' ≡ (err e, s')
      decided e s' h false plain = rw (plain, after_attempt) refl
      decided e s' h true redirect =
          let same : s'.client ≡ s.client =
            sym (ap (λ (x : Result Response × Session W S T). x.1.client) h)
            ∙ send_once-redirect env envelope s e
                (ap (λ (x : Result Response × Session W S T). x.0) h) redirect in
          rw (redirect, after_attempt)
            (rw
              (
                gives_up-txn_open s'.client 0 (ap (λ (c : Client S T). c.txn_open) same ∙ open_now),
                follow,
              )
              (rw (retried_error-zero e) refl))

      go :
          (out : Result Response × Session W S T)
          → send_once env envelope s ≡ out
          → after_attempt env again 0 pause out.0 out.1 ≡ out
      go (ok r, s') h = refl
      go (err e, s') h = decided e s' h (is_redirect e) refl

  send_loop-txn_open :
      (fuel : ℕ) (envelope : Value) (pause : Duration) (s : Session W S T)
      → s.client.txn_open ≡ true
      → send_loop env fuel envelope 0 pause s ≡ send_once env envelope s
  unfolding send_loop
  send_loop-txn_open zero envelope pause s h = attempt-txn_open envelope _ pause s h
  send_loop-txn_open (suc fuel) envelope pause s h = attempt-txn_open envelope _ pause s h

  -- Inside a session transaction a request is sent exactly once and its reply is handed back as it
  -- is, also when it is a refusal that asks to be sent elsewhere.
  pub send_in-txn_open :
      (op : Value) (txn : Option Text) (s : Session W S T)
      → s.client.txn_open ≡ true
      → let c = numbered s.client in
        send_in env op txn s
        ≡ send_once env
            (envelope_of (unwrap_or c.last_request_id []) c.database op c.request_timeout_ms txn)
            (record s { client = c })
  unfolding send_in numbered
  send_in-txn_open op txn s h =
      send_loop-txn_open s.client.options.leader_retries _ s.client.options.leader_retry_delay
        (record s { client = numbered s.client }) h

  Rounds-status :
      {envelope : Value} {n retried : ℕ} {pause : Duration} {s : Session W S T}
      {out : Result Response × Session W S T} (r : Response)
      → Rounds env envelope n retried pause s out
      → out.0 ≡ ok r
      → r.status ≡ codes "ok"
  Rounds-status {envelope} {s = s} r (settled e h) p =
      (send_once-eq-ok env envelope s r (ap (λ (x : Result Response × Session W S T). x.0) e ∙ p)).0
  Rounds-status r (gave_up e s' h redirect g q) p =
      absurd (ok-ne-err (sym p ∙ ap (λ (x : Result Response × Session W S T). x.0) q))
  Rounds-status r (moved_on e s' s'' h redirect g t rounds) p = Rounds-status r rounds p
  Rounds-status r (waited e s' s'' h redirect g t rounds) p = Rounds-status r rounds p

  -- However often it was sent again, a request succeeds only with a reply whose status is `ok`.
  pub send_in-status :
      (op : Value) (txn : Option Text) (s : Session W S T) (r : Response)
      → (send_in env op txn s).0 ≡ ok r
      → r.status ≡ codes "ok"
  send_in-status op txn s r h = Rounds-status r (send_in-Rounds env op txn s).2 h

  dropped-not_redirect : (f : Error) → is_redirect (dropped_error env f) ≡ false
  unfolding dropped_error is_redirect code_is
  dropped-not_redirect f = refl

  send_once-poisoned :
      (envelope : Value) (s : Session W S T) (f : Error)
      → s.client.fault ≡ some f
      → send_once env envelope s ≡ (err (dropped_error env f), s)
  unfolding send_once
  send_once-poisoned envelope s f h =
      let e = (exchange-unusable env Tag.request (some envelope) s).0 f h in
      >>=-of_err (exchange env Tag.request (some envelope)) _ s (ap (λ x. x.0) e)
      ∙ ap (λ (x : Result Frame × Session W S T). (err (dropped_error env f), x.1)) e

  attempt-poisoned :
      (envelope : Value) (again : ℕ → Duration → Call env Response) (retried : ℕ) (pause : Duration)
      (s : Session W S T) (f : Error)
      → s.client.fault ≡ some f
      → attempt env envelope again retried pause s ≡ (err (dropped_error env f), s)
  unfolding attempt
  attempt-poisoned envelope again retried pause s f h =
      ap (λ (x : Result Response × Session W S T). after_attempt env again retried pause x.0 x.1)
        (send_once-poisoned envelope s f h)
      ∙ rw (dropped-not_redirect f, after_attempt) refl

  send_loop-poisoned :
      (fuel : ℕ) (envelope : Value) (pause : Duration) (s : Session W S T) (f : Error)
      → s.client.fault ≡ some f
      → send_loop env fuel envelope 0 pause s ≡ (err (dropped_error env f), s)
  unfolding send_loop
  send_loop-poisoned zero envelope pause s f h = attempt-poisoned envelope _ 0 pause s f h
  send_loop-poisoned (suc fuel) envelope pause s f h = attempt-poisoned envelope _ 0 pause s f h

  -- On a poisoned connection a request fails with the stored fault's message: nothing is sent or
  -- read, no other server is asked, and of the client only the request number moves.
  pub send_in-poisoned :
      (op : Value) (txn : Option Text) (s : Session W S T) (f : Error)
      → s.client.fault ≡ some f
      → send_in env op txn s ≡ (err (dropped_error env f), record s { client = numbered s.client })
  unfolding send_in numbered
  send_in-poisoned op txn s f h =
      send_loop-poisoned s.client.options.leader_retries _ s.client.options.leader_retry_delay
        (record s { client = numbered s.client }) f h
