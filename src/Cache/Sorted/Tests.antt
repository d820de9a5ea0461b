-- ===== src/Cache/Sorted/Tests.antt =====
-- An infinite score.
use tricoredb_sdk_rust.Common.{ℕ, ◌*◌, ◌^◌, refl, inr, false, [], ◌∷◌, none, Text, codes}
use tricoredb_sdk_rust.Environment.Scripted.{scripted}
use tricoredb_sdk_rust.Json.{is_finite}
use tricoredb_sdk_rust.Response.{parsed, malformed}
use tricoredb_sdk_rust.Client.Sending.Requests.Outcomes.{RefusedInvalid}
use tricoredb_sdk_rust.Cache.Sorted.{
  SortedCodec, ScoreBound, ScoredMember, cache_zincr_by, cache_zrange_by_score,
  cache_zrange_by_score_with_scores, cache_zadd,
}
use tricoredb_sdk_rust.Cache.Sorted.Refusals.{not_finite_refused}
use tricoredb_sdk_rust.Cache.Tests.{codec}

abbrev sorted : SortedCodec
sorted = record {
  score_field = λ v. parsed 0;
  optional_score = λ v. parsed none;
  zadd_counts = λ v. malformed (codes "no counts");
  as_f64 = λ v. none;
  show_float = λ f. codes "inf";
}

abbrev infinity : ℕ
infinity = 2047 * 2 ^ 52

abbrev zero_bound : ScoreBound
zero_bound = record { bound = 0; exclusive = false }

abbrev board : Text
board = codes "board"

abbrev nobody : ScoredMember
nobody = record { score = infinity; member = 7 ∷ [] }

abbrev somebody : ScoredMember
somebody = record { score = 0; member = 8 ∷ [] }

abbrev endless : ScoreBound
endless = record { bound = infinity; exclusive = false }

not_finite_refused_example :
    RefusedInvalid scripted (cache_zincr_by scripted codec sorted board board (7 ∷ []) infinity)
    × RefusedInvalid scripted
        (cache_zrange_by_score scripted codec sorted board board zero_bound endless false none)
    × RefusedInvalid scripted (
        cache_zrange_by_score_with_scores scripted codec sorted board board zero_bound endless false
          none)
    × RefusedInvalid scripted
        (cache_zadd scripted codec sorted board board (somebody ∷ nobody ∷ somebody ∷ []))
unfolding is_finite
not_finite_refused_example =
    not_finite_refused scripted codec sorted board board (7 ∷ []) infinity zero_bound endless false
      none (somebody ∷ []) (somebody ∷ []) nobody refl (inr refl) refl
