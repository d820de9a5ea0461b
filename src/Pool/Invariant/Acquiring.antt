-- ===== src/Pool/Invariant/Acquiring.antt =====
-- What a thread in `acquire`, and a notification, leave of the invariant.
use tricoredb_sdk_rust.Common.{
  ℕ, suc, ◌+◌, ◌≤◌, ◌<◌, ◌≡◌, refl, sym, subst, ◌∙◌, inl, inr, Bool, true, false, List, [], ◌∷◌,
  arith, length, All, ltb, Bool-cases, if◌then◌else◌, ltb→lt,
}
use tricoredb_sdk_rust.Failure.{Error}
use tricoredb_sdk_rust.Pool.{Decision, refuse, reuse, open_new, wait, decide, lend, closed_error}
use tricoredb_sdk_rust.Pool.Steps.{
  System, Notified, nobody, somebody, Acquires, refused, reused, opens, blocks, late,
}
use tricoredb_sdk_rust.Pool.Invariant.{IsSoundBut, false-ne-true}

module _ {C : Type 0} (Clean : C → Type 0) (size : ℕ) where
  -- What an acting thread leaves behind, whatever the round decides.
  Leaves : System C → Decision C → Type 0
  Leaves y (refuse e) = IsSoundBut Clean size 0 y
  Leaves y (reuse c s) = IsSoundBut Clean size 0 (record y { state = s; holding = y.holding + 1 })
  Leaves y (open_new s) =
      IsSoundBut Clean size 0 (record y { state = s; connecting = y.connecting + 1 })
  Leaves y wait =
      IsSoundBut Clean size 0 y × IsSoundBut Clean size 0 (record y { waiting = y.waiting + 1 })

  lend-Leaves :
      (y : System C) (idle : List C)
      → y.state.idle ≡ idle
      → y.state.closed ≡ false
      → IsSoundBut Clean size 1 y
      → Leaves y (lend size y.state idle)
  unfolding Leaves lend
  lend-Leaves y (c ∷ rest) e o h =
      let bounded : suc (length rest) + y.state.lent ≤ size =
        subst (λ l. length l + y.state.lent ≤ size) e h.bounded in
      let awaited = h.awaited o in
      record {
        counted = let p = h.counted in omega arith;
        bounded = omega arith;
        clean = (subst (All Clean) e h.clean).1;
        emptied = λ k. absurd (false-ne-true (sym o ∙ k));
        awaited = λ k w. let p = awaited w in omega arith;
        dismissed = h.dismissed;
      }
  lend-Leaves y [] e o h = elim (Bool-cases (ltb y.state.lent size)) [
    | inl l ↦ rw l (opened (ltb→lt y.state.lent size l))
    | inr l ↦ rw l (kept (ground arith), blocked (ground arith))
  ]
    where
      opened :
          y.state.lent < size
          → IsSoundBut Clean size 0 (record y {
            state = record y.state { lent = y.state.lent + 1 };
            connecting = y.connecting + 1;
          })
      opened l = record {
        counted = let p = h.counted in omega arith;
        bounded = rw e (omega arith);
        clean = h.clean;
        emptied = h.emptied;
        awaited = λ k w. let p = h.awaited k w in omega arith;
        dismissed = h.dismissed;
      }

      kept : size ≤ y.state.lent → IsSoundBut Clean size 0 y
      kept l = record {
        counted = h.counted;
        bounded = h.bounded;
        clean = h.clean;
        emptied = h.emptied;
        awaited = λ k w. omega arith;
        dismissed = h.dismissed;
      }

      blocked : size ≤ y.state.lent → IsSoundBut Clean size 0 (record y { waiting = y.waiting + 1 })
      blocked l = record {
        counted = h.counted;
        bounded = h.bounded;
        clean = h.clean;
        emptied = h.emptied;
        awaited = λ k w. omega arith;
        dismissed = λ k w. absurd (false-ne-true (sym o ∙ k));
      }

  refuse-Leaves :
      (y : System C) (e : Error)
      → y.state.closed ≡ true
      → IsSoundBut Clean size 1 y
      → Leaves y (refuse e)
  unfolding Leaves
  refuse-Leaves y e o h = record {
    counted = h.counted;
    bounded = h.bounded;
    clean = h.clean;
    emptied = h.emptied;
    awaited = λ k w. absurd (false-ne-true (sym k ∙ o));
    dismissed = h.dismissed;
  }

  decide-Leaves : (y : System C) → IsSoundBut Clean size 1 y → Leaves y (decide size y.state)
  unfolding decide
  decide-Leaves y h = go y.state.closed refl
    where
      go :
          (b : Bool)
          → y.state.closed ≡ b
          → Leaves y (if b then refuse closed_error else lend size y.state y.state.idle)
      go true o = refuse-Leaves y closed_error o h
      go false o = lend-Leaves y y.state.idle refl o h

  pub Acquires-IsSound :
      {y z : System C}
      → IsSoundBut Clean size 1 y
      → Acquires Clean size y z
      → IsSoundBut Clean size 0 z
  unfolding Leaves
  Acquires-IsSound {y} h (refused e p) = subst (Leaves y) p (decide-Leaves y h)
  Acquires-IsSound {y} h (reused c s p) = subst (Leaves y) p (decide-Leaves y h)
  Acquires-IsSound {y} h (opens s p) = subst (Leaves y) p (decide-Leaves y h)
  Acquires-IsSound {y} h (blocks p) = (subst (Leaves y) p (decide-Leaves y h)).1
  Acquires-IsSound {y} h (late p) = (subst (Leaves y) p (decide-Leaves y h)).0

  pub Notified-IsSound :
      {y z : System C} → IsSoundBut Clean size 1 y → Notified y z → IsSoundBut Clean size 0 z
  Notified-IsSound {y} h (nobody p) = record {
    counted = h.counted;
    bounded = h.bounded;
    clean = h.clean;
    emptied = h.emptied;
    awaited = λ k w. omega arith;
    dismissed = h.dismissed;
  }
  Notified-IsSound {y} h (somebody n p) = record {
    counted = h.counted;
    bounded = h.bounded;
    clean = h.clean;
    emptied = h.emptied;
    awaited = λ k w. let q = h.awaited k (omega arith) in omega arith;
    dismissed = λ k w. h.dismissed k (omega arith);
  }
