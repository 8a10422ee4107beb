-- ===== src/Leaderboard/Api/Update/Handled.antt =====
-- leaderboard-poc/cmd/api/handlers.go: what POST /score/update replies, and what it leaves behind.
use classic_cheese.Prelude.{◌≡◌, refl, ◌⊎◌, inl, inr, String, true, false, List, [], Bool-cases}
use classic_cheese.Http.{Reply, status_ok, status_bad_request, status_internal_server_error}
use classic_cheese.Leaderboard.Score.{Float64}
use classic_cheese.Leaderboard.Models.{ScoreEvent}
use classic_cheese.Leaderboard.Models.Period.{Date, period_types}
use classic_cheese.Leaderboard.Redis.{Redis, Error, Result, value, error}
use classic_cheese.Leaderboard.Api.{Payload, updated, write_json, write_error, err_required_fields}
use classic_cheese.Leaderboard.Api.Update.{
  ScoreUpdateRequest, lacks_field, update_reply, handle_score_update,
}
use classic_cheese.Leaderboard.Api.Update.Laws.{Views, IsLedger}
use classic_cheese.Leaderboard.Api.Update.Effect.{Updated}
use classic_cheese.Leaderboard.Api.Update.Rounds.{Ends, update_periods-Ends, period_types-AreTypes}

module _ {S F : Type 0} (redis : Redis S F) (float : Float64 F) (emit : ScoreEvent Date → S → S)
    (views : Views S F) where
  -- The outcome of a request with all its fields.
  abbrev Replies : ScoreUpdateRequest → Date → S → Reply (Payload F) → S → Type 0
  Replies req now s reply s' =
      ((scores : List (String × F)) × (reply
          ≡ write_json status_ok (updated req.user_id req.region scores))
        × Updated redis float emit views req now period_types s s' [] scores)
      ⊎ ((e : Error) × (reply ≡ write_error status_internal_server_error e)
          × Ends redis float emit views req now period_types [] s (error e, s'))

  abbrev pub Handled : Date → Result ScoreUpdateRequest → S → Reply (Payload F) × S → Type 0
  Handled now (error e) s out = out ≡ (write_error status_bad_request e, s)
  Handled now (value req) s out =
      ((lacks_field req ≡ true) × (out ≡ (write_error status_bad_request err_required_fields, s)))
      ⊎ ((lacks_field req ≡ false) × Replies req now s out.0 out.1)

  replied :
      (req : ScoreUpdateRequest) (now : Date) (s : S) (r : Result (List (String × F)) × S)
      → Ends redis float emit views req now period_types [] s r
      → Replies req now s
          (update_reply redis float emit req r).0
          (update_reply redis float emit req r).1
  unfolding update_reply
  replied req now s (value scores, s') h = inl (scores, refl, h)
  replied req now s (error e, s') h = inr (e, refl, h)

  -- A body that does not decode, and one that lacks the user, the region or the delta, are bad
  -- requests that change nothing. Any other request either raises the user's score in the region and
  -- the user's own number by the delta, once for each of the three periods, leaves every other score
  -- and number alone and replies the three new scores, or replies the error of an increment that
  -- failed, and when that increment began exactly the periods before it had been raised. (If ZINCRBY
  -- and INCRBY that succeed do what they document.)
  pub handle_score_update-Handled :
      IsLedger redis float emit views
      → (now : Date) (decoded : Result ScoreUpdateRequest) (s : S)
      → Handled now decoded s (handle_score_update redis float emit now decoded s)
  unfolding handle_score_update
  handle_score_update-Handled ledger now (error e) s = refl
  handle_score_update-Handled ledger now (value req) s = elim (Bool-cases (lacks_field req)) [
    | inl bad ↦ rw bad (inl (refl, refl))
    | inr good ↦ rw good (
        inr (
          refl,
          replied req now s _ (
              update_periods-Ends redis float emit views ledger req now period_types [] s
                period_types-AreTypes),
        ))
  ]
