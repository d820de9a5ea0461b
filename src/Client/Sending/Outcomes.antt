-- ===== src/Client/Sending/Outcomes.antt =====
-- What a request that is sent once leaves of the client.
use mathlib.Core.Bool.{true≢false}
use tricoredb_sdk_rust.Act.{lift, >>=-eq-ok}
use tricoredb_sdk_rust.Common.{
  ◌≡◌, refl, sym, ap, ◌∙◌, subst, inl, inr, true, false, some, Text, arith, Bool-cases, codes,
  text_eq, text_eq_iff,
}
use tricoredb_sdk_rust.Environment.{Environment}
use tricoredb_sdk_rust.Failure.{Error, ErrorKind, ok, err, is_redirect, ok-ne-err, err-injective}
use tricoredb_sdk_rust.Frame.{Tag}
use tricoredb_sdk_rust.Frame.Faults.{NoCode}
use tricoredb_sdk_rust.Json.{Value}
use tricoredb_sdk_rust.Client.{Session, exchange}
use tricoredb_sdk_rust.Client.Poison.{Exchanged, exchange-Exchanged, Exchanged-bind, Exchanged-lift}
use tricoredb_sdk_rust.Response.{Response}
use tricoredb_sdk_rust.Client.Replies.{check_reply, parse_body}
use tricoredb_sdk_rust.Client.Replies.Outcomes.{check_reply-Exchanged}
use tricoredb_sdk_rust.Client.Sending.{send_once, verdict, response_of}

NoCode-not_redirect : (e : Error) → NoCode e → is_redirect e ≡ false
unfolding is_redirect
NoCode-not_redirect e h = rw h refl

verdict-eq-ok :
    (to_string : Value → Text) (r r' : Response)
    → verdict to_string r ≡ ok r'
    → (r'.status ≡ codes "ok") × (r ≡ r')
unfolding verdict
verdict-eq-ok to_string r r' h = elim (Bool-cases (text_eq r.status (codes "ok"))) [
  | inl e ↦
      let same : r ≡ r' = ground (arith, h, e) in
      (sym (ap (λ (x : Response). x.status) same) ∙ (text_eq_iff r.status (codes "ok")).0 e, same)
  | inr e ↦ absurd (ground (arith, h, e))
]

module _ {W A S T : Type 0} (env : Environment W A S T) where
  pub send_once-Exchanged :
      (envelope : Value) (s : Session W S T) → Exchanged s (send_once env envelope s)
  unfolding send_once
  send_once-Exchanged envelope s =
      Exchanged-bind env (exchange env Tag.request (some envelope)) _ s
        (exchange-Exchanged env _ _ s)
        λ frame w.
          Exchanged-bind env
            (check_reply env Tag.response (codes "RESPONSE") ErrorKind.refused frame) _
            (record s { world = w })
            (check_reply-Exchanged env _ _ _ frame (record s { world = w }))
            λ u w'.
              Exchanged-bind env
                (lift (parse_body env env.response_body frame.payload (codes "RESPONSE"))) _
                (record s { world = w' }) (Exchanged-lift env _ (record s { world = w' }))
                λ wire w''. Exchanged-lift env _ (record s { world = w'' })

  -- A reply is handed over as a success only if its status is `ok`, and then the client is as it was.
  pub send_once-eq-ok :
      (envelope : Value) (s : Session W S T) (r : Response)
      → (send_once env envelope s).0 ≡ ok r
      → (r.status ≡ codes "ok") × ((send_once env envelope s).1.client ≡ s.client)
  unfolding send_once
  send_once-eq-ok envelope s r h = (accepted, kept (send_once-Exchanged envelope s))
    where
      accepted : r.status ≡ codes "ok"
      accepted =
          let (frame, e1, p1) = >>=-eq-ok (exchange env Tag.request (some envelope)) _ s h in
          let s1 = (exchange env Tag.request (some envelope) s).1 in
          let (u, e2, p2) =
            >>=-eq-ok (check_reply env Tag.response (codes "RESPONSE") ErrorKind.refused frame) _ s1
              (sym (ap (λ x. x.0) p1) ∙ h) in
          let s2 = (check_reply env Tag.response (codes "RESPONSE") ErrorKind.refused frame s1).1 in
          let (wire, e3, p3) =
            >>=-eq-ok (lift (parse_body env env.response_body frame.payload (codes "RESPONSE"))) _
              s2 (sym (ap (λ x. x.0) p2) ∙ sym (ap (λ x. x.0) p1) ∙ h) in
          (verdict-eq-ok env.to_string (response_of wire) r
            (sym (ap (λ x. x.0) p3) ∙ sym (ap (λ x. x.0) p2) ∙ sym (ap (λ x. x.0) p1) ∙ h)).0

      kept : Exchanged s (send_once env envelope s) → (send_once env envelope s).1.client ≡ s.client
      kept (inl (b, w, e)) = ap (λ x. x.1.client) e
      kept (inr (inl (x, w, e))) = ap (λ x. x.1.client) e
      kept (inr (inr (x, w, u, n, e))) = absurd (ok-ne-err (sym h ∙ ap (λ x. x.0) e))

  -- A refusal that asks to be sent elsewhere leaves the client as it was.
  pub send_once-redirect :
      (envelope : Value) (s : Session W S T) (e : Error)
      → (send_once env envelope s).0 ≡ err e
      → is_redirect e ≡ true
      → (send_once env envelope s).1.client ≡ s.client
  send_once-redirect envelope s e h redirect = kept (send_once-Exchanged envelope s)
    where
      kept : Exchanged s (send_once env envelope s) → (send_once env envelope s).1.client ≡ s.client
      kept (inl (b, w, p)) = ap (λ x. x.1.client) p
      kept (inr (inl (x, w, p))) = ap (λ x. x.1.client) p
      kept (inr (inr (x, w, u, n, p))) = absurd (true≢false (sym redirect ∙ plain))
        where
          plain : is_redirect e ≡ false
          plain = NoCode-not_redirect e (subst NoCode (err-injective (sym (ap (λ y. y.0) p) ∙ h)) n)
