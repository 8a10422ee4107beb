-- ===== src/Leaderboard/Api/Update/Effect.antt =====
-- leaderboard-poc/cmd/api/handlers.go: what one increment of POST /score/update does to the scores.
use classic_cheese.Prelude.{
  ◌≡◌, ◌≢◌, sym, ap, ◌∙◌, String, String_discrete, List, [], ◌∷◌, ◌++◌, some,
}
use classic_cheese.Prelude.Lists.{All, All-left, get_or}
use classic_cheese.Prelude.Int.{ℤ, pos, ◌+ℤ◌}
use classic_cheese.Prelude.Dict.{lookup}
use classic_cheese.Prelude.Decimal.{itoa}
use classic_cheese.Leaderboard.Score.{Float64}
use classic_cheese.Leaderboard.Models.{ScoreEvent}
use classic_cheese.Leaderboard.Models.Period.{Date, period_key}
use classic_cheese.Leaderboard.Redis.{
  Redis, Result, value, error, regional_key, user_score_key, increment_score, incremented,
  increment_commands,
}
use classic_cheese.Leaderboard.Redis.Keys.{HasNoColon}
use classic_cheese.Leaderboard.Redis.Results.{value_injective, error-ne-value}
use classic_cheese.Leaderboard.Api.Update.{ScoreUpdateRequest, event_of, update_period}
use classic_cheese.Leaderboard.Api.Update.Laws.{Views, IsLedger}

-- The keys that a request writes for a period.
unfoldable pub set_key : ScoreUpdateRequest → Date → String → String
unfolding regional_key
set_key req now p = regional_key req.region p (period_key p now)

unfoldable pub mirror_key : ScoreUpdateRequest → Date → String → String
unfolding user_score_key
mirror_key req now p = user_score_key req.user_id p (period_key p now)

-- Period types that give keys of their own.
abbrev pub AreTypes : List String → Type 0
AreTypes [] = Unit
AreTypes (p ∷ ps) = HasNoColon p × All (λ q. HasNoColon q × (p ≢ q)) ps × AreTypes ps

pub AreTypes-left : (xs ys : List String) → AreTypes (xs ++ ys) → AreTypes xs
AreTypes-left [] ys h = tt
AreTypes-left (x ∷ xs) ys h = (h.0, All-left _ xs ys h.1, AreTypes-left xs ys h.2)

incremented-value :
    {S F : Type 0} (redis : Redis S F) (float : Float64 F) (user_id : ℤ) (key : String)
    (r : Result (List F) × S) (x : F) (t : S)
    → incremented redis float user_id key r ≡ (value x, t)
    → (replies : List F) × (r ≡ (value replies, t)) × (x ≡ get_or replies 0 (float.of_int (pos 0)))
unfolding incremented
incremented-value redis float user_id key (value replies, s) x t h =
    (replies, ap (λ c. (value replies, c.1)) h, sym (value_injective _ _ (ap (λ c. c.0) h)))
incremented-value redis float user_id key (error e, s) x t h =
    absurd (error-ne-value _ x (ap (λ c. c.0) h))

module _ {S F : Type 0} (redis : Redis S F) (float : Float64 F) (emit : ScoreEvent Date → S → S)
    (views : Views S F) where
  -- The period's score and number after the request, `x` being the score that it replies.
  abbrev Raised : ScoreUpdateRequest → Date → S → S → String → F → Type 0
  Raised req now s s' p x =
      (x ≡ views.score_at (set_key req now p) (itoa req.user_id) s')
      × (views.score_at (set_key req now p) (itoa req.user_id) s'
          ≡ views.plus (views.score_at (set_key req now p) (itoa req.user_id) s)
              (float.of_int req.score_delta))
      × (views.number_at (mirror_key req now p) s'
          ≡ views.number_at (mirror_key req now p) s +ℤ req.score_delta)

  -- From the state `s` on the periods `ps` are raised, each listed with its new score, and no other
  -- score, number or entry of the list changes.
  pub record Updated (req : ScoreUpdateRequest) (now : Date) (ps : List String) (s s' : S)
      (scores scores' : List (String × F)) : Type 0 where
    pub raised :
        All
          (λ p. (x : F) × (lookup String_discrete p scores' ≡ some x) × Raised req now s s' p x)
          ps
    pub other_scores :
        (k m : String)
        → All (λ p. ¬ ((k ≡ set_key req now p) × (m ≡ itoa req.user_id))) ps
        → views.score_at k m s' ≡ views.score_at k m s
    pub other_numbers :
        (k : String)
        → All (λ p. k ≢ mirror_key req now p) ps
        → views.number_at k s' ≡ views.number_at k s
    pub other_listed :
        (q : String)
        → All (λ p. p ≢ q) ps
        → lookup String_discrete q scores' ≡ lookup String_discrete q scores

  -- One increment, and the event for it.
  pub record Step (req : ScoreUpdateRequest) (now : Date) (p : String) (s t : S) (x : F)
      : Type 0 where
    pub raises : Raised req now s t p x
    pub scores_kept :
        (k m : String)
        → ¬ ((k ≡ set_key req now p) × (m ≡ itoa req.user_id))
        → views.score_at k m t ≡ views.score_at k m s
    pub numbers_kept :
        (k : String) → k ≢ mirror_key req now p → views.number_at k t ≡ views.number_at k s

  module _ (ledger : IsLedger redis float emit views) where
    pub update_period-Step :
        (req : ScoreUpdateRequest) (now : Date) (p : String) (s t : S) (x : F)
        → update_period redis float emit req now p s ≡ (value x, t)
        → Step req now p s (emit (event_of req now p) t) x
    unfolding update_period increment_score increment_commands set_key mirror_key
    update_period-Step req now p s t x h =
        let (replies, sent, first) = incremented-value redis float req.user_id _ _ x t h in
        let (raise, reply, number) = ledger.incremented _ _ _ _ _ s t replies sent in
        let kept = ledger.emitted_scores (event_of req now p) t in
        let numbers = ledger.emitted_numbers (event_of req now p) t in
        record {
          raises = (first ∙ reply ∙ sym (kept _ _), kept _ _ ∙ raise, numbers _ ∙ number);
          scores_kept = λ k m n. kept k m ∙ ledger.other_scores _ _ _ _ _ s t replies sent k m n;
          numbers_kept = λ k n. numbers k ∙ ledger.other_numbers _ _ _ _ _ s t replies sent k n;
        }
