-- ===== src/Pool/Invariant/Reachable.antt =====
-- What holds in every system that the threads of a pool can bring about.
use tricoredb_sdk_rust.Common.{
  ℕ, suc, ◌+◌, ◌≤◌, ◌<◌, ◌≡◌, refl, sym, Bool, true, false, List, [], ◌∷◌, arith, length, All,
  if◌then◌else◌, zero, ◌==◌, codes,
}
use tricoredb_sdk_rust.Failure.{ok, err, invalid, ok-ne-err, ok-injective}
use tricoredb_sdk_rust.Pool.{State, new}
use tricoredb_sdk_rust.Pool.Steps.{System, Reach, start, next}
use tricoredb_sdk_rust.Pool.Invariant.{IsSoundBut}
use tricoredb_sdk_rust.Pool.Invariant.Stepping.{Step-IsSound}

length-eq-zero : {C : Type 0} (xs : List C) → length xs ≡ 0 → xs ≡ []
length-eq-zero [] h = refl
length-eq-zero (x ∷ xs) h = absurd (omega arith)

new-eq-ok :
    {C : Type 0} (size : ℕ) {s : State C}
    → new size ≡ ok s
    → s ≡ record { idle = []; lent = 0; closed = false }
unfolding new
new-eq-ok {C} size {s} p = go (size == 0) p
  where
    go :
        (b : Bool)
        → (if b
            then err (invalid (codes "a pool needs room for at least one connection"))
            else ok (record { idle = []; lent = 0; closed = false }))
          ≡ ok s
        → s ≡ record { idle = []; lent = 0; closed = false }
    go true q = absurd (ok-ne-err (sym q))
    go false q = ok-injective (sym q)

module _ {C : Type 0} (Clean : C → Type 0) (size : ℕ) where
  Reach-IsSoundBut : {y : System C} → Reach Clean size y → IsSoundBut Clean size 0 y
  Reach-IsSoundBut (start s p) = started s (new-eq-ok size p)
    where
      started :
          (s : State C)
          → s ≡ record { idle = []; lent = 0; closed = false }
          → IsSoundBut Clean size 0 (record {
            state = s;
            waiting = 0;
            awake = 0;
            connecting = 0;
            holding = 0;
            notifying = 0;
            closing = 0;
          })
      started s e = rw e (record {
        counted = refl;
        bounded = omega arith;
        clean = tt;
        emptied = λ k. refl;
        awaited = λ k w. omega arith;
        dismissed = λ k w. omega arith;
      })
  Reach-IsSoundBut (next r s) = Step-IsSound Clean size (Reach-IsSoundBut r) s

  -- In every system that the threads of a pool can bring about, by any interleaving of their
  -- critical sections, and if a connection is released as unbroken only when it is clean: the count
  -- of lent slots is that of the threads that open or hold a connection, the idle connections and
  -- the lent slots together are no more than the pool's size, every idle connection is clean, and a
  -- closed pool has none.
  pub Reach-IsSound :
      {y : System C}
      → Reach Clean size y
      → (y.state.lent ≡ y.connecting + y.holding)
        × (length y.state.idle + y.state.lent ≤ size)
        × All Clean y.state.idle
        × (y.state.closed ≡ true → y.state.idle ≡ [])
  Reach-IsSound {y} r =
      let h = Reach-IsSoundBut r in
      (h.counted, h.bounded, h.clean, λ k. length-eq-zero y.state.idle (h.emptied k))

  -- No wake-up is lost: in every reachable system of an open pool in which a thread waits while no
  -- woken thread and no notification is on its way, all of the pool's connections are lent out, so
  -- that the thread waits for a reason.
  pub Reach-no_lost_wakeup :
      {y : System C}
      → Reach Clean size y
      → y.state.closed ≡ false
      → 0 < y.waiting
      → y.awake ≡ 0
      → y.notifying ≡ 0
      → (y.state.idle ≡ []) × (y.connecting + y.holding ≡ size)
  Reach-no_lost_wakeup {y} r o w a n =
      let h = Reach-IsSoundBut r in
      let p = h.counted in
      let q = h.bounded in
      let t = h.awaited o w in (length-eq-zero y.state.idle (omega arith), omega arith)

  -- In every reachable system of a closed pool, a thread still waits only if the notification of
  -- all is still to come.
  pub Reach-dismissed :
      {y : System C} → Reach Clean size y → y.state.closed ≡ true → y.closing ≡ 0 → y.waiting ≡ 0
  Reach-dismissed {y} r o c = go y.waiting ((Reach-IsSoundBut r).dismissed o)
    where
      go : (n : ℕ) → (0 < n → 0 < y.closing) → n ≡ 0
      go zero f = refl
      go (suc n) f = let p = f (omega arith) in omega arith
