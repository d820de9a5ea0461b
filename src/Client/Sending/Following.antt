-- ===== src/Client/Sending/Following.antt =====
-- The loop of `send_in` without fuel, as a relation, and that the fuel `send_in` gives is enough.
use tricoredb_sdk_rust.Common.{
  ℕ, zero, suc, ◌+◌, ◌≤◌, ◌<◌, ◌≡◌, refl, sym, ap, ◌∙◌, Bool, true, false, Option, Text, arith,
  unwrap_or, [],
}
use tricoredb_sdk_rust.Environment.{Environment}
use tricoredb_sdk_rust.Failure.{Error, Result, ok, err, is_redirect}
use tricoredb_sdk_rust.Json.{Value}
use tricoredb_sdk_rust.Options.{Duration}
use tricoredb_sdk_rust.Response.{Response}
use tricoredb_sdk_rust.Client.{Client, Session, Call}
use tricoredb_sdk_rust.Client.Sending.{
  send_once, send_loop, attempt, after_attempt, follow, go_on, gives_up, take_hint, move_to,
  move_into, moved, retried_error, next_pause, send_in, numbered, envelope_of,
}
use tricoredb_sdk_rust.Client.Sending.Outcomes.{send_once-redirect}

module _ {W A S T : Type 0} (env : Environment W A S T) where
  -- A reply that ends the loop: a success, or an error that does not send the request elsewhere.
  abbrev pub Settles : Result Response → Type 0
  Settles (ok r) = Unit
  Settles (err e) = is_redirect e ≡ false

  -- The session after a pause.
  abbrev pub rested : Duration → Session W S T → Session W S T
  rested pause s = record s { world = env.sleep pause s.world }

  -- `Rounds envelope n retried pause s out`: from `s`, after `retried` repeats, the loop sends the
  -- request `n` more times and ends in `out`.
  pub data Rounds (envelope : Value)
      : ℕ → ℕ → Duration → Session W S T → Result Response × Session W S T → Type 0 where
    settled :
        {retried : ℕ} {pause : Duration} {s : Session W S T} {out : Result Response × Session W S T}
        → send_once env envelope s ≡ out
        → Settles out.0
        → Rounds envelope 1 retried pause s out
    gave_up :
        {retried : ℕ} {pause : Duration} {s : Session W S T} {out : Result Response × Session W S T}
        (e : Error) (s' : Session W S T)
        → send_once env envelope s ≡ (err e, s')
        → is_redirect e ≡ true
        → gives_up s'.client retried ≡ true
        → out ≡ (err (retried_error e retried), s')
        → Rounds envelope 1 retried pause s out
    moved_on :
        {n retried : ℕ} {pause : Duration} {s : Session W S T}
        {out : Result Response × Session W S T} (e : Error) (s' s'' : Session W S T)
        → send_once env envelope s ≡ (err e, s')
        → is_redirect e ≡ true
        → gives_up s'.client retried ≡ false
        → take_hint env e.leader_hint s' ≡ (true, s'')
        → Rounds envelope n (retried + 1) pause s'' out
        → Rounds envelope (suc n) retried pause s out
    waited :
        {n retried : ℕ} {pause : Duration} {s : Session W S T}
        {out : Result Response × Session W S T} (e : Error) (s' s'' : Session W S T)
        → send_once env envelope s ≡ (err e, s')
        → is_redirect e ≡ true
        → gives_up s'.client retried ≡ false
        → take_hint env e.leader_hint s' ≡ (false, s'')
        → Rounds envelope n (retried + 1) (next_pause pause) (rested pause s'') out
        → Rounds envelope (suc n) retried pause s out

  -- Following a hint changes no option, and opens or closes no transaction.
  take_hint-options :
      (hint : Option Text) (s : Session W S T)
      → ((take_hint env hint s).1.client.options ≡ s.client.options)
  unfolding take_hint move_to move_into moved
  take_hint-options hint s = ground arith

  -- What a next round promises.
  abbrev Continues : Value → (ℕ → Duration → Call env Response) → ℕ → ℕ → ℕ → Type 0
  Continues envelope again retried retries k =
      (pause : Duration) (s : Session W S T)
      → retried < retries
      → s.client.options.leader_retries ≡ retries
      → (n : ℕ) × (n ≤ k) × Rounds envelope n (retried + 1) pause s (again (retried + 1) pause s)

  gives_up-lt :
      (c : Client S T) (retried : ℕ)
      → gives_up c retried ≡ false
      → retried < c.options.leader_retries
  unfolding gives_up
  gives_up-lt c retried h = ground arith

  hinted_retries :
      (hint : Option Text) (s u : Session W S T) (b : Bool)
      → take_hint env hint s ≡ (b, u)
      → u.client.options.leader_retries ≡ s.client.options.leader_retries
  hinted_retries hint s u b p =
      sym (ap (λ (x : Bool × Session W S T). x.1.client.options.leader_retries) p)
      ∙ ap (λ o. o.leader_retries) (take_hint-options hint s)

  module _ (envelope : Value) (again : ℕ → Duration → Call env Response) (retried k : ℕ) where
    go_on-Rounds :
        (retries : ℕ) (pause : Duration) (s s' : Session W S T) (e : Error)
        → Continues envelope again retried retries k
        → send_once env envelope s ≡ (err e, s')
        → is_redirect e ≡ true
        → gives_up s'.client retried ≡ false
        → s'.client.options.leader_retries ≡ retries
        → (out : Bool × Session W S T) → take_hint env e.leader_hint s' ≡ out
        → (n : ℕ) × (n ≤ suc k)
          × Rounds envelope n retried pause s (go_on env again (retried + 1) pause out)
    unfolding go_on
    go_on-Rounds retries pause s s' e next h redirect more same (true, s'') t =
        let (n, bound, rounds) =
          next pause s'' (omega (arith, gives_up-lt s'.client retried more))
            (hinted_retries e.leader_hint s' s'' true t ∙ same) in
        (suc n, omega arith, moved_on e s' s'' h redirect more t rounds)
    go_on-Rounds retries pause s s' e next h redirect more same (false, s'') t =
        let (n, bound, rounds) =
          next (next_pause pause) (rested pause s'')
            (omega (arith, gives_up-lt s'.client retried more))
            (hinted_retries e.leader_hint s' s'' false t ∙ same) in
        (suc n, omega arith, waited e s' s'' h redirect more t rounds)

    attempt-Rounds :
        (retries : ℕ) (pause : Duration) (s : Session W S T)
        → Continues envelope again retried retries k
        → s.client.options.leader_retries ≡ retries
        → (n : ℕ) × (n ≤ suc k)
          × Rounds envelope n retried pause s (attempt env envelope again retried pause s)
    unfolding attempt after_attempt follow
    attempt-Rounds retries pause s next same = go (send_once env envelope s) refl
      where
        followed :
            (e : Error) (s' : Session W S T)
            → send_once env envelope s ≡ (err e, s')
            → is_redirect e ≡ true
            → (g : Bool) → gives_up s'.client retried ≡ g
            → (n : ℕ) × (n ≤ suc k)
              × Rounds envelope n retried pause s (follow env again retried pause e s')
        followed e s' h redirect true g =
            (1, omega arith, gave_up e s' h redirect g (rw (g, follow) refl))
        followed e s' h redirect false g =
            rw (g, follow)
              (go_on-Rounds retries pause s s' e next h redirect g kept
                (take_hint env e.leader_hint s') refl)
          where
            kept : s'.client.options.leader_retries ≡ retries
            kept =
                ap (λ (c : Client S T). c.options.leader_retries)
                  (sym (ap (λ (x : Result Response × Session W S T). x.1.client) h)
                    ∙ send_once-redirect env envelope s e
                        (ap (λ (x : Result Response × Session W S T). x.0) h) redirect)
                ∙ same

        decided :
            (e : Error) (s' : Session W S T)
            → send_once env envelope s ≡ (err e, s')
            → (b : Bool) → is_redirect e ≡ b
            → (n : ℕ) × (n ≤ suc k)
              × Rounds envelope n retried pause s (after_attempt env again retried pause (err e) s')
        decided e s' h true redirect =
            rw (redirect, after_attempt)
              (followed e s' h redirect (gives_up s'.client retried) refl)
        decided e s' h false plain = rw (plain, after_attempt) (1, omega arith, settled h plain)

        go :
            (out : Result Response × Session W S T)
            → send_once env envelope s ≡ out
            → (n : ℕ) × (n ≤ suc k)
              × Rounds envelope n retried pause s
                  (after_attempt env again retried pause out.0 out.1)
        go (ok r, s') h = (1, omega arith, settled h tt)
        go (err e, s') h = decided e s' h (is_redirect e) refl

  send_loop-Rounds :
      (fuel : ℕ) (envelope : Value) (retried : ℕ) (pause : Duration) (s : Session W S T)
      → s.client.options.leader_retries ≤ retried + fuel
      → (n : ℕ) × (n ≤ suc fuel)
        × Rounds envelope n retried pause s (send_loop env fuel envelope retried pause s)
  unfolding send_loop
  send_loop-Rounds zero envelope retried pause s enough =
      attempt-Rounds envelope _ retried 0 s.client.options.leader_retries pause s
        (λ p t less e. absurd (omega arith)) refl
  send_loop-Rounds (suc fuel) envelope retried pause s enough =
      attempt-Rounds envelope _ retried (suc fuel) s.client.options.leader_retries pause s
        (λ p t less e. send_loop-Rounds fuel envelope (retried + 1) p t (omega arith)) refl

  -- A request runs the loop of the source to its end: it is sent at most `leader_retries + 1` times,
  -- and what comes back is the first reply that settles it, or the refusal at which the client gave
  -- up, which then says how often it was sent again.
  pub send_in-Rounds :
      (op : Value) (txn : Option Text) (s : Session W S T)
      → let c = numbered s.client in
        (n : ℕ) × (n ≤ s.client.options.leader_retries + 1)
        × Rounds
            (envelope_of (unwrap_or c.last_request_id []) c.database op c.request_timeout_ms txn)
            n
            0
            c.options.leader_retry_delay
            (record s { client = c })
            (send_in env op txn s)
  unfolding send_in numbered
  send_in-Rounds op txn s =
      let (n, bound, rounds) =
        send_loop-Rounds s.client.options.leader_retries _ 0 _ _ (omega arith) in
      (n, omega arith, rounds)
