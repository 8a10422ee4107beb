-- ===== src/Leaderboard/Api/Update/Examples.antt =====
-- A score update of leaderboard-poc, run on a Redis that holds its scores and numbers as functions.
use classic_cheese.Prelude.{
  ◌≡◌, refl, ap, sym, ◌∙◌, String, String_discrete, List, [], ◌∷◌, ite, if_pos, if_neg,
}
use classic_cheese.Prelude.Lists.{get_or}
use classic_cheese.Prelude.Int.{ℤ, pos, ◌+ℤ◌}
use classic_cheese.Leaderboard.Examples.{integers}
use classic_cheese.Leaderboard.Models.Period.{Date}
use classic_cheese.Leaderboard.Redis.{Redis, Result, value, error, failed, Command, zincrby, incrby}
use classic_cheese.Leaderboard.Redis.Results.{value_injective}
use classic_cheese.Leaderboard.Api.Update.{ScoreUpdateRequest, handle_score_update}
use classic_cheese.Leaderboard.Api.Update.Laws.{Views, IsLedger}
use classic_cheese.Leaderboard.Api.Update.Handled.{Handled, handle_score_update-Handled}

abbrev Held : Type 0
Held = (String → String → ℤ) × (String → ℤ)

abbrev incr_score : String → ℤ → String → (String → String → ℤ) → String → String → ℤ
incr_score zset x member f k m =
    ite (String_discrete k zset) (ite (String_discrete m member) (f k m +ℤ x) (f k m)) (f k m)

abbrev incr_number : String → ℤ → (String → ℤ) → String → ℤ
incr_number key n f k = ite (String_discrete k key) (f k +ℤ n) (f k)

abbrev run : List (Command ℤ) → Held → Result (List ℤ) × Held
run (zincrby zset x member ∷ incrby key n ∷ []) (f, g) =
    let f' = incr_score zset x member f in (value (f' zset member ∷ []), (f', incr_number key n g))
run commands s = (error (failed "unknown command"), s)

abbrev held : Redis Held ℤ
held = record {
  zrevrank = λ key member s. (error (failed "unknown command"), s);
  zscore = λ key member s. (value (s.0 key member), s);
  zrevrange_with_scores = λ key a b s. (error (failed "unknown command"), s);
  mget = λ keys s. (value [], s);
  exec = run;
  publish_to = λ channel payload s. (value tt, s);
}

abbrev views : Views Held ℤ
views = record { score_at = λ k m s. s.0 k m; number_at = λ k s. s.1 k; plus = ◌+ℤ◌ }

incr_score_self :
    (zset : String) (x : ℤ) (member : String) (f : String → String → ℤ)
    → incr_score zset x member f zset member ≡ f zset member +ℤ x
incr_score_self zset x member f =
    if_pos (String_discrete zset zset) refl _ _ ∙ if_pos (String_discrete member member) refl _ _

incr_score_ne :
    (zset : String) (x : ℤ) (member : String) (f : String → String → ℤ) (k m : String)
    → ¬ ((k ≡ zset) × (m ≡ member))
    → incr_score zset x member f k m ≡ f k m
incr_score_ne zset x member f k m ne = elim (String_discrete k zset) [
  | yes p ↦
      if_pos (String_discrete k zset) p _ _ ∙ if_neg (String_discrete m member) (λ q. ne (p, q)) _ _
  | no p ↦ if_neg (String_discrete k zset) p _ _
]

module _ (zset key member : String) (x n : ℤ) (s s' : Held) (replies : List ℤ)
    (h : run (zincrby zset x member ∷ incrby key n ∷ []) s ≡ (value replies, s')) where
  scores_after : (k m : String) → s'.0 k m ≡ incr_score zset x member s.0 k m
  scores_after k m = sym (ap (λ r. r.1.0 k m) h)

  numbers_after : (k : String) → s'.1 k ≡ incr_number key n s.1 k
  numbers_after k = sym (ap (λ r. r.1.1 k) h)

  replies_after : replies ≡ incr_score zset x member s.0 zset member ∷ []
  replies_after = sym (value_injective _ _ (ap (λ r. r.0) h))

held-IsLedger : IsLedger held integers (λ e s. s) views
held-IsLedger = record {
  incremented = λ zset key member x n s s' replies h. (
    scores_after zset key member x n s s' replies h zset member ∙ incr_score_self zset x member s.0,
    ap (λ rs. get_or rs 0 (pos 0)) (replies_after zset key member x n s s' replies h)
        ∙ sym (scores_after zset key member x n s s' replies h zset member),
    numbers_after zset key member x n s s' replies h key
        ∙ if_pos (String_discrete key key) refl _ _,
  );
  other_scores = λ zset key member x n s s' replies h k m ne.
      scores_after zset key member x n s s' replies h k m ∙ incr_score_ne zset x member s.0 k m ne;
  other_numbers = λ zset key member x n s s' replies h k ne.
      numbers_after zset key member x n s s' replies h k ∙ if_neg (String_discrete k key) ne _ _;
  emitted_scores = λ e s k m. refl;
  emitted_numbers = λ e s k. refl;
}

abbrev request : ScoreUpdateRequest
request = record { user_id = pos 7; region = "apac"; score_delta = pos 5 }

abbrev today : Date
today = record { year = 2026; month = 9; day = 7 }

abbrev nothing : Held
nothing = ((λ k m. pos 0), (λ k. pos 0))

handle_score_update-Handled_example :
    Handled held integers
      (λ e s. s)
      views
      today
      (value request)
      nothing
      (handle_score_update held integers (λ e s. s) today (value request) nothing)
handle_score_update-Handled_example =
    handle_score_update-Handled held integers (λ e s. s) views held-IsLedger today (value request)
      nothing
