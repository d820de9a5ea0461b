-- ===== src/Tls/Handshake.antt =====
-- The handshake's loop, run on rounds, is the loop of the source, and it ends.
use tricoredb_sdk_rust.Common.{
  ℕ, zero, suc, ◌<◌, ◌≡◌, refl, sym, ap, subst, ◌∙◌, inl, inr, true, false, Bool-cases, Text, codes,
  ◌++◌, arith,
}
use tricoredb_sdk_rust.Failure.{Error, Result, ok, err, ok-injective, ok-ne-err}
use tricoredb_sdk_rust.Tls.{
  Answer, granted, refused, Rustls, tls_error, shake, shake_after, handshake,
}

module _ {W S T C K R G N X : Type 0} (rustls : Rustls W S T C K R G N X) where
  abbrev pub handshake_error : Text → Text → Error
  handshake_error name e =
      tls_error (codes "TLS handshake with `" ++ (name ++ (codes "` failed: " ++ e)))

  -- The rounds of the source's loop, from a stream and a world to how the loop ends.
  pub data Shakes (name : Text) : T → W → Result T → W → Type 0 where
    settled : (t : T) (w : W) → rustls.is_handshaking t ≡ false → Shakes name t w (ok t) w
    failed :
        (t : T) (w w' : W) (e : Text)
        → rustls.is_handshaking t ≡ true
        → rustls.complete_io t w ≡ (refused e, w')
        → Shakes name t w (err (handshake_error name e)) w'
    round :
        (t : T) (w : W) (t' : T) (w' : W) (r : Result T) (w'' : W)
        → rustls.is_handshaking t ≡ true
        → rustls.complete_io t w ≡ (granted t', w')
        → Shakes name t' w' r w''
        → Shakes name t w r w''

  -- Each round that succeeds leaves fewer rounds to come.
  abbrev pub Progresses : Type 0
  Progresses =
      (t : T) (w : W) (t' : T) (w' : W)
      → rustls.is_handshaking t ≡ true
      → rustls.complete_io t w ≡ (granted t', w')
      → rustls.rounds_left t' < rustls.rounds_left t

  abbrev Runs : ℕ → Text → T → W → Type 0
  Runs n name t w = Shakes name t w (shake rustls n name t w).0 (shake rustls n name t w).1

  step-Shakes :
      (n : ℕ) (name : Text) (t : T) (w : W) (a : Answer T × W)
      → rustls.is_handshaking t ≡ true
      → rustls.complete_io t w ≡ a
      → ((t' : T) (w' : W) → a ≡ (granted t', w') → Runs n name t' w')
      → Shakes name t w
          (shake_after rustls (shake rustls n name) name a).0
          (shake_after rustls (shake rustls n name) name a).1
  unfolding shake_after
  step-Shakes n name t w (refused e, w') p q rest = failed t w w' e p q
  step-Shakes n name t w (granted t', w') p q rest = round t w t' w' _ _ p q (rest t' w' refl)

  settled-Shakes :
      {name : Text} {t : T} {w w' : W} {r : Result T}
      → Shakes name t w r w'
      → (t' : T) → r ≡ ok t'
      → rustls.is_handshaking t' ≡ false
  settled-Shakes (settled t w p) t' h = ap rustls.is_handshaking (ok-injective (sym h)) ∙ p
  settled-Shakes (failed t w w' e p q) t' h = absurd (ok-ne-err (sym h))
  settled-Shakes (round t w t1 w1 r w2 p q rest) t' h = settled-Shakes rest t' h

  -- A run that ends in a stream is a run of the loop of the source, whatever the rounds.
  shake-of_ok :
      (n : ℕ) (name : Text) (t : T) (w : W) {t' : T}
      → (shake rustls n name t w).0 ≡ ok t'
      → Runs n name t w
  unfolding shake shake_after
  shake-of_ok zero name t w h = elim (Bool-cases (rustls.is_handshaking t)) [
    | inr p ↦ rw p (settled t w p)
    | inl p ↦ absurd (ok-ne-err (sym (rw p at h)))
  ]
  shake-of_ok (suc n) name t w {t'} h = elim (Bool-cases (rustls.is_handshaking t)) [
    | inr p ↦ rw p (settled t w p)
    | inl p ↦
        rw p
          (go p (λ t1 w1 k. shake-of_ok n name t1 w1 k) (rustls.complete_io t w) refl (rw p at h))
  ]
    where
      go :
          rustls.is_handshaking t ≡ true
          → ((t1 : T) (w1 : W) → (shake rustls n name t1 w1).0 ≡ ok t' → Runs n name t1 w1)
          → (a : Answer T × W) → rustls.complete_io t w ≡ a
          → (shake_after rustls (shake rustls n name) name a).0 ≡ ok t'
          → Shakes name t w
              (shake_after rustls (shake rustls n name) name a).0
              (shake_after rustls (shake rustls n name) name a).1
      go p rest (refused e, w') q k = absurd (ok-ne-err (sym k))
      go p rest (granted t1, w') q k = round t w t1 w' _ _ p q (rest t1 w' k)

  -- A handshake that ends in a stream ran the loop of the source, and is over.
  pub handshake-of_ok :
      (name : Text) (t : T) (w : W) {t' : T}
      → (handshake rustls name t w).0 ≡ ok t'
      → Shakes name t w (ok t') (handshake rustls name t w).1 × (rustls.is_handshaking t' ≡ false)
  unfolding handshake
  handshake-of_ok name t w {t'} h =
      let run : Runs (suc (rustls.rounds_left t)) name t w =
        shake-of_ok (suc (rustls.rounds_left t)) name t w h in
      (subst (λ r. Shakes name t w r (handshake rustls name t w).1) h run, settled-Shakes run t' h)

  module _ (progress : Progresses) where
    shake-Shakes :
        (n : ℕ) (name : Text) (t : T) (w : W) → rustls.rounds_left t < n → Runs n name t w
    unfolding shake
    shake-Shakes zero name t w h = absurd (omega arith)
    shake-Shakes (suc n) name t w h = elim (Bool-cases (rustls.is_handshaking t)) [
      | inr p ↦ rw p (settled t w p)
      | inl p ↦ rw p (
          step-Shakes n name t w (rustls.complete_io t w) p refl (λ t' w' q.
            let less : rustls.rounds_left t' < rustls.rounds_left t = progress t w t' w' p q in
            shake-Shakes n name t' w' (omega arith)))
    ]

    -- When each round that succeeds leaves fewer rounds to come, the handshake runs the loop of the
    -- source to its end: to the first refusal, or to a stream whose handshake is over.
    pub handshake-Shakes :
        (name : Text) (t : T) (w : W)
        → Shakes name t w (handshake rustls name t w).0 (handshake rustls name t w).1
          × ((t' : T) → (handshake rustls name t w).0 ≡ ok t' → rustls.is_handshaking t' ≡ false)
    unfolding handshake
    handshake-Shakes name t w =
        let run : Runs (suc (rustls.rounds_left t)) name t w =
          shake-Shakes (suc (rustls.rounds_left t)) name t w (omega arith) in
        (run, settled-Shakes run)
