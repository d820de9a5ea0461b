-- ===== src/Pool/Invariant/Stepping.antt =====
-- Every step of a pool keeps the invariant.
use tricoredb_sdk_rust.Common.{
  ℕ, ◌+◌, ◌≤◌, ◌≡◌, refl, sym, ◌∙◌, Bool, true, false, ◌∷◌, arith, if◌then◌else◌, leb→le, ◌-◌, ◌&&◌,
  ◌||◌, is_empty, leb,
}
use tricoredb_sdk_rust.Pool.{State, gives_up, connect_failed, release, close}
use tricoredb_sdk_rust.Pool.Steps.{
  System, Step, arrives, resumes, wakes, times_out, connected, fails, releases, notifies, closes,
  notifies_all,
}
use tricoredb_sdk_rust.Pool.Invariant.{IsSoundBut, false-ne-true}
use tricoredb_sdk_rust.Pool.Invariant.Acquiring.{Acquires-IsSound, Notified-IsSound}

module _ {C : Type 0} (Clean : C → Type 0) (size : ℕ) where
  -- A thread that is about to act is one wake-up less on its way.
  resumed :
      (y : System C) (n m : ℕ)
      → y.awake + y.notifying ≡ n + m + 1
      → IsSoundBut Clean size 0 y
      → IsSoundBut Clean size 1 (record y { awake = n; notifying = m })
  resumed y n m p h = record {
    counted = h.counted;
    bounded = h.bounded;
    clean = h.clean;
    emptied = h.emptied;
    awaited = λ k w. let q = h.awaited k w in omega arith;
    dismissed = h.dismissed;
  }

  more_missing : (y : System C) → IsSoundBut Clean size 0 y → IsSoundBut Clean size 1 y
  more_missing y h = record {
    counted = h.counted;
    bounded = h.bounded;
    clean = h.clean;
    emptied = h.emptied;
    awaited = λ k w. let q = h.awaited k w in omega arith;
    dismissed = h.dismissed;
  }

  release-IsSound :
      (y : System C) (n : ℕ) (c : C) (broken : Bool)
      → y.holding ≡ n + 1
      → (broken ≡ false → Clean c)
      → IsSoundBut Clean size 0 y
      → IsSoundBut Clean size 0 (record y {
        holding = n;
        notifying = y.notifying + 1;
        state = (release y.state c broken).0;
      })
  unfolding release
  release-IsSound y n c broken p t h = go broken y.state.closed refl refl
    where
      After : State C → Type 0
      After s =
          IsSoundBut Clean size 0 (record y { holding = n; notifying = y.notifying + 1; state = s })

      dropped : After (record y.state { lent = y.state.lent - 1 })
      dropped = record {
        counted = let q = h.counted in omega arith;
        bounded = let q = h.bounded in omega arith;
        clean = h.clean;
        emptied = h.emptied;
        awaited = λ k w. let q = h.awaited k w in omega arith;
        dismissed = h.dismissed;
      }

      returned :
          broken ≡ false
          → y.state.closed ≡ false
          → After (record y.state { lent = y.state.lent - 1; idle = c ∷ y.state.idle })
      returned b o = record {
        counted = let q = h.counted in omega arith;
        bounded = let q = h.bounded in let r = h.counted in omega arith;
        clean = (t b, h.clean);
        emptied = λ k. absurd (false-ne-true (sym o ∙ k));
        awaited = λ k w. let q = h.awaited k w in omega arith;
        dismissed = h.dismissed;
      }

      go :
          (b o : Bool)
          → broken ≡ b
          → y.state.closed ≡ o
          → let kept : State C × Bool = (record y.state { lent = y.state.lent - 1 }, true) in
            let back : State C × Bool =
              (record y.state { lent = y.state.lent - 1; idle = c ∷ y.state.idle }, false) in
            After (if b || o then kept else back).0
      go true o e f = dropped
      go false true e f = dropped
      go false false e f = returned e f

  failing :
      (y : System C) (n : ℕ)
      → y.connecting ≡ n + 1
      → IsSoundBut Clean size 0 y
      → IsSoundBut Clean size 1 (record y { connecting = n; state = connect_failed y.state })
  unfolding connect_failed
  failing y n e h = record {
    counted = let q = h.counted in omega arith;
    bounded = let q = h.bounded in omega arith;
    clean = h.clean;
    emptied = h.emptied;
    awaited = λ k w. let q = h.awaited k w in omega arith;
    dismissed = h.dismissed;
  }

  gives_up-le : (y : System C) → gives_up size y.state ≡ true → size ≤ y.state.lent
  unfolding gives_up
  gives_up-le y g = go (is_empty y.state.idle) g
    where
      go : (b : Bool) → (b && leb size y.state.lent) ≡ true → size ≤ y.state.lent
      go true q = leb→le size y.state.lent q
      go false q = absurd (false-ne-true q)

  pub Step-IsSound :
      {y z : System C} → IsSoundBut Clean size 0 y → Step Clean size y z → IsSoundBut Clean size 0 z
  unfolding connect_failed close gives_up
  Step-IsSound {y} h (arrives a) = Acquires-IsSound Clean size (more_missing y h) a
  Step-IsSound {y} h (resumes n e a) =
      Acquires-IsSound Clean size (resumed y n y.notifying (omega arith) h) a
  Step-IsSound {y} h (wakes n e) = record {
    counted = h.counted;
    bounded = h.bounded;
    clean = h.clean;
    emptied = h.emptied;
    awaited = λ k w. let q = h.awaited k (omega arith) in omega arith;
    dismissed = λ k w. h.dismissed k (omega arith);
  }
  Step-IsSound {y} h (times_out n e g) = record {
    counted = h.counted;
    bounded = h.bounded;
    clean = h.clean;
    emptied = h.emptied;
    awaited = λ k w. let q = gives_up-le y g in omega arith;
    dismissed = h.dismissed;
  }
  Step-IsSound {y} h (connected n e) = record {
    counted = let q = h.counted in omega arith;
    bounded = h.bounded;
    clean = h.clean;
    emptied = h.emptied;
    awaited = h.awaited;
    dismissed = h.dismissed;
  }
  Step-IsSound {y} h (fails n e a) = Notified-IsSound Clean size (failing y n e h) a
  Step-IsSound {y} h (releases n c broken e t) = release-IsSound y n c broken e t h
  Step-IsSound {y} h (notifies n e a) =
      Notified-IsSound Clean size (resumed y y.awake n (omega arith) h) a
  Step-IsSound {y} h closes = record {
    counted = h.counted;
    bounded = let q = h.bounded in omega arith;
    clean = tt;
    emptied = λ k. refl;
    awaited = λ k w. absurd (false-ne-true (sym k));
    dismissed = λ k w. omega arith;
  }
  Step-IsSound {y} h (notifies_all n e) = record {
    counted = h.counted;
    bounded = h.bounded;
    clean = h.clean;
    emptied = h.emptied;
    awaited = λ k w. omega arith;
    dismissed = λ k w. omega arith;
  }
