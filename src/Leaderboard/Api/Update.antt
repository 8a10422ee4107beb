-- ===== src/Leaderboard/Api/Update.antt =====
-- leaderboard-poc/cmd/api/handlers.go: POST /score/update. `decoded` is what encoding/json makes of the
-- body. `emit` is rabbitmqclient.Publish of the marshalled event, the result of which is only logged.
pub mod Laws
pub mod Effect
pub mod Rounds
pub mod Handled
pub mod Examples
use classic_cheese.Prelude.{String, String_discrete, List, [], ◌∷◌, Bool, ◌||◌, true, if◌then◌else◌}
use classic_cheese.Prelude.Int.{ℤ, pos, eqb_ℤ}
use classic_cheese.Prelude.Text.{is_empty}
use classic_cheese.Prelude.Dict.{insert}
use classic_cheese.Http.{Reply, status_ok, status_bad_request, status_internal_server_error}
use classic_cheese.Leaderboard.Score.{Float64}
use classic_cheese.Leaderboard.Models.{ScoreEvent}
use classic_cheese.Leaderboard.Models.Period.{Date, period_key, period_types}
use classic_cheese.Leaderboard.Redis.{Redis, Result, value, error, increment_score}
use classic_cheese.Leaderboard.Api.{Payload, updated, write_json, write_error, err_required_fields}

pub record ScoreUpdateRequest : Type 0 where
  pub user_id : ℤ
  pub region : String
  pub score_delta : ℤ

unfoldable pub lacks_field : ScoreUpdateRequest → Bool
unfolding is_empty
lacks_field req = eqb_ℤ req.user_id (pos 0) || is_empty req.region || eqb_ℤ req.score_delta (pos 0)

unfoldable pub event_of : ScoreUpdateRequest → Date → String → ScoreEvent Date
unfolding period_key
event_of req now period_type = record {
  user_id = req.user_id;
  region = req.region;
  period_type = period_type;
  period_key = period_key period_type now;
  score_delta = req.score_delta;
  timestamp = now;
}

module _ {S F : Type 0} (redis : Redis S F) (float : Float64 F)
    (emit : ScoreEvent Date → S → S) where
  unfoldable pub update_period : ScoreUpdateRequest → Date → String → S → Result F × S
  unfolding increment_score period_key
  update_period req now period_type s =
      increment_score redis float req.region req.user_id period_type (period_key period_type now)
        req.score_delta s

  -- One round of the loop for what the increment gave, and the rounds after it.
  unfoldable pub update_periods :
      ScoreUpdateRequest
      → Date
      → List String
      → List (String × F)
      → S
      → Result (List (String × F)) × S
  unfolding update_period event_of
  update_periods req now [] scores s = (value scores, s)
  update_periods req now (p ∷ ps) scores s =
      let (result, t) = update_period req now p s in
      elim result [
        | value x ↦
            update_periods req now ps (insert String_discrete p x scores)
              (emit (event_of req now p) t)
        | error e ↦ (error e, t)
      ]

  unfoldable pub update_reply :
      ScoreUpdateRequest → Result (List (String × F)) × S → Reply (Payload F) × S
  unfolding write_json write_error
  update_reply req (value scores, s) =
      (write_json status_ok (updated req.user_id req.region scores), s)
  update_reply req (error e, s) = (write_error status_internal_server_error e, s)

  unfoldable pub handle_score_update : Date → Result ScoreUpdateRequest → S → Reply (Payload F) × S
  unfolding lacks_field update_periods update_reply write_error
  handle_score_update now (error e) s = (write_error status_bad_request e, s)
  handle_score_update now (value req) s =
      if lacks_field req
      then (write_error status_bad_request err_required_fields, s)
      else update_reply req (update_periods req now period_types [] s)
