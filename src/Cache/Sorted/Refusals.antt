-- ===== src/Cache/Sorted/Refusals.antt =====
-- Scores that are not finite never leave the process.
use tricoredb_sdk_rust.Common.{
  ℕ, ◌≡◌, ◌⊎◌, inl, inr, refl, Bool, true, false, Bool-cases, List, [], ◌∷◌, ◌++◌, Option, Text,
  codes,
}
use tricoredb_sdk_rust.Environment.{Environment}
use tricoredb_sdk_rust.Failure.{Error, ErrorKind, Result, ok, err, collect}
use tricoredb_sdk_rust.Json.{Value, is_finite, number, Number}
use tricoredb_sdk_rust.Cache.{score_value, not_finite_error}
use tricoredb_sdk_rust.Cache.Calls.{CacheCodec}
use tricoredb_sdk_rust.Client.Sending.Requests.Outcomes.{RefusedInvalid}
use tricoredb_sdk_rust.Cache.Sorted.{
  SortedCodec, ScoreBound, ScoredMember, cache_zincr_by, cache_zrange_by_score,
  cache_zrange_by_score_with_scores, zrange_by_score_op, bound_to_wire, cache_zadd, scored_to_wire,
  with_score, between,
}

module _ {W A S T : Type 0} (env : Environment W A S T) (codec : CacheCodec)
    (sorted : SortedCodec) where
  -- A result that is refused as an invalid argument.
  abbrev Invalid : {B : Type 0} → Result B → Type 0
  Invalid r = (e : Error) × (e.kind ≡ ErrorKind.invalid_argument) × (r ≡ err e)

  score-Invalid :
      (score : ℕ) (name : Text)
      → is_finite score ≡ false
      → Invalid (score_value sorted.show_float score name)
  unfolding score_value
  score-Invalid score name h = (not_finite_error sorted.show_float score name, refl, rw h refl)

  score_ok :
      (score : ℕ) (name : Text)
      → is_finite score ≡ true
      → score_value sorted.show_float score name ≡ ok (number (Number.float score))
  unfolding score_value
  score_ok score name h = rw h refl

  with_score-of_ok :
      (build : Value → Value) (r : Result Value) {v : Value}
      → r ≡ ok v
      → with_score build r ≡ ok (build v)
  unfolding with_score
  with_score-of_ok build r p = rw p refl

  with_score-Invalid :
      (build : Value → Value) (r : Result Value) → Invalid r → Invalid (with_score build r)
  unfolding with_score
  with_score-Invalid build r (e, k, p) = (e, k, rw p refl)

  bound-Invalid :
      (b : ScoreBound) (name : Text)
      → is_finite b.bound ≡ false
      → Invalid (bound_to_wire env codec sorted b name)
  unfolding bound_to_wire
  bound-Invalid b name h = with_score-Invalid _ _ (score-Invalid b.bound name h)

  member-Invalid :
      (m : ScoredMember) → is_finite m.score ≡ false → Invalid (scored_to_wire env codec sorted m)
  unfolding scored_to_wire
  member-Invalid m h = with_score-Invalid _ _ (score-Invalid m.score (codes "score") h)

  member_cases :
      (m : ScoredMember)
      → ((v : Value) × (scored_to_wire env codec sorted m ≡ ok v))
        ⊎ Invalid (scored_to_wire env codec sorted m)
  unfolding scored_to_wire
  member_cases m = elim (Bool-cases (is_finite m.score)) [
    | inl h ↦ inl (_, with_score-of_ok _ _ (score_ok m.score (codes "score") h))
    | inr h ↦ inr (member-Invalid m h)
  ]

  -- One member that is refused refuses them all, wherever it stands.
  members-Invalid :
      (before after : List ScoredMember) (bad : ScoredMember)
      → is_finite bad.score ≡ false
      → Invalid (collect (scored_to_wire env codec sorted) (before ++ (bad ∷ after)))
  unfolding collect
  members-Invalid [] after bad h = let (e, k, p) = member-Invalid bad h in (e, k, rw p refl)
  members-Invalid (m ∷ before) after bad h = elim (member_cases m) [
    | inr (e, k, p) ↦ (e, k, rw p refl)
    | inl (v, p) ↦ let (e, k, q) = members-Invalid before after bad h in (e, k, rw (p, q) refl)
  ]

  between-Invalid :
      (build : Value → Value → Value) (low high : Result Value)
      → ((v : Value) × (low ≡ ok v)) ⊎ Invalid low
      → Invalid low ⊎ Invalid high
      → Invalid (between build low high)
  unfolding between
  between-Invalid build low high (inr (e, k, p)) why = (e, k, rw p refl)
  between-Invalid build low high (inl (v, p)) (inl (e, k, q)) = (e, k, rw q refl)
  between-Invalid build low high (inl (v, p)) (inr (e, k, q)) = (e, k, rw (p, q) refl)

  bound_cases :
      (b : ScoreBound) (name : Text)
      → ((v : Value) × (bound_to_wire env codec sorted b name ≡ ok v))
        ⊎ Invalid (bound_to_wire env codec sorted b name)
  unfolding bound_to_wire
  bound_cases b name = elim (Bool-cases (is_finite b.bound)) [
    | inl h ↦ inl (_, with_score-of_ok _ _ (score_ok b.bound name h))
    | inr h ↦ inr (bound-Invalid b name h)
  ]

  either-Invalid :
      (low high : ScoreBound)
      → (is_finite low.bound ≡ false) ⊎ (is_finite high.bound ≡ false)
      → Invalid (bound_to_wire env codec sorted low (codes "min"))
        ⊎ Invalid (bound_to_wire env codec sorted high (codes "max"))
  either-Invalid low high (inl h) = inl (bound-Invalid low (codes "min") h)
  either-Invalid low high (inr h) = inr (bound-Invalid high (codes "max") h)

  range-Invalid :
      (namespace key : Text) (low high : ScoreBound) (rev with_scores : Bool)
      (limit : Option (ℕ × ℕ))
      → (is_finite low.bound ≡ false) ⊎ (is_finite high.bound ≡ false)
      → Invalid (zrange_by_score_op env codec sorted namespace key low high rev with_scores limit)
  unfolding zrange_by_score_op
  range-Invalid namespace key low high rev with_scores limit h =
      between-Invalid _ _ _ (bound_cases low (codes "min")) (either-Invalid low high h)

  zadd-RefusedInvalid :
      (namespace key : Text) (m : ScoredMember) (ms : List ScoredMember)
      → Invalid (collect (scored_to_wire env codec sorted) (m ∷ ms))
      → RefusedInvalid env (cache_zadd env codec sorted namespace key (m ∷ ms))
  unfolding cache_zadd
  zadd-RefusedInvalid namespace key m ms (e, k, p) s = (e, k, rw p refl)

  zadd_refused :
      (namespace key : Text) (before after : List ScoredMember) (bad : ScoredMember)
      → is_finite bad.score ≡ false
      → RefusedInvalid env (cache_zadd env codec sorted namespace key (before ++ (bad ∷ after)))
  zadd_refused namespace key [] after bad h =
      zadd-RefusedInvalid namespace key bad after (members-Invalid [] after bad h)
  zadd_refused namespace key (m ∷ before) after bad h =
      zadd-RefusedInvalid namespace key m (before ++ (bad ∷ after))
        (members-Invalid (m ∷ before) after bad h)

  -- A score that is not finite is refused as an invalid argument before anything is sent, and the
  -- client and the world stay as they were: as the amount to add, as either bound of a range, with
  -- scores or without, and as the score of any of the members to add, wherever it stands.
  pub not_finite_refused :
      (namespace key : Text) (member : List ℕ) (score : ℕ) (low high : ScoreBound) (rev : Bool)
      (limit : Option (ℕ × ℕ)) (before after : List ScoredMember) (bad : ScoredMember)
      → is_finite score ≡ false
      → (is_finite low.bound ≡ false) ⊎ (is_finite high.bound ≡ false)
      → is_finite bad.score ≡ false
      → RefusedInvalid env (cache_zincr_by env codec sorted namespace key member score)
        × RefusedInvalid env
            (cache_zrange_by_score env codec sorted namespace key low high rev limit)
        × RefusedInvalid env
            (cache_zrange_by_score_with_scores env codec sorted namespace key low high rev limit)
        × RefusedInvalid env (cache_zadd env codec sorted namespace key (before ++ (bad ∷ after)))
  unfolding cache_zincr_by cache_zrange_by_score cache_zrange_by_score_with_scores
  not_finite_refused namespace key member score low high rev limit before after bad h b m = (
    λ s. let (e, k, p) = score-Invalid score (codes "by") h in (e, k, rw p refl),
    λ s.
        let (e, k, p) = range-Invalid namespace key low high rev false limit b in (e, k, rw p refl),
    λ s. let (e, k, p) = range-Invalid namespace key low high rev true limit b in (e, k, rw p refl),
    zadd_refused namespace key before after bad m,
  )
