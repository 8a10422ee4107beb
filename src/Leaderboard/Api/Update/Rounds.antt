-- ===== src/Leaderboard/Api/Update/Rounds.antt =====
-- leaderboard-poc/cmd/api/handlers.go: what the loop of POST /score/update does to the scores.
use classic_cheese.Prelude.{
  ◌≡◌, ◌≢◌, refl, sym, ap, ◌∙◌, subst, String, String_discrete, true, List, [], ◌∷◌, ◌++◌,
  ne_by_test,
}
use classic_cheese.Prelude.Lists.{All, All-map2}
use classic_cheese.Prelude.Int.{◌+ℤ◌}
use classic_cheese.Prelude.Dict.{insert, lookup-insert_self, lookup-insert_ne}
use classic_cheese.Prelude.Decimal.{itoa}
use classic_cheese.Leaderboard.Score.{Float64}
use classic_cheese.Leaderboard.Models.{ScoreEvent}
use classic_cheese.Leaderboard.Models.Period.{Date, period_types}
use classic_cheese.Leaderboard.Redis.{Redis, Result, value, error}
use classic_cheese.Prelude.Split.{lacks, Lacks-by_test}
use classic_cheese.Leaderboard.Redis.Keys.{HasNoColon, colon}
use classic_cheese.Leaderboard.Api.Update.{
  ScoreUpdateRequest, event_of, update_period, update_periods,
}
use classic_cheese.Leaderboard.Api.Update.Laws.{
  Views, IsLedger, regional_key-types, user_score_key-types,
}
use classic_cheese.Leaderboard.Api.Update.Effect.{
  set_key, mirror_key, AreTypes, AreTypes-left, Updated, Step, update_period-Step,
}

-- Other periods have other keys.
set_key_ne :
    (req : ScoreUpdateRequest) (now : Date) (p q : String)
    → HasNoColon p
    → HasNoColon q
    → p ≢ q
    → set_key req now p ≢ set_key req now q
unfolding set_key
set_key_ne req now p q hp hq ne e = ne (regional_key-types req.region p q _ _ hp hq e)

mirror_key_ne :
    (req : ScoreUpdateRequest) (now : Date) (p q : String)
    → HasNoColon p
    → HasNoColon q
    → p ≢ q
    → mirror_key req now p ≢ mirror_key req now q
unfolding mirror_key
mirror_key_ne req now p q hp hq ne e = ne (user_score_key-types req.user_id p q _ _ hp hq e)

All-of {κ} :
    {A : Type 0} {P Q : A → Type κ} (xs : List A) → ((x : A) → P x → Q x) → All P xs → All Q xs
All-of xs f h = All-map2 xs (λ x p q. f x p) h h

module _ {S F : Type 0} (redis : Redis S F) (float : Float64 F) (emit : ScoreEvent Date → S → S)
    (views : Views S F) where
  Updated-nil :
      (req : ScoreUpdateRequest) (now : Date) (s : S) (scores : List (String × F))
      → Updated redis float emit views req now [] s s scores scores
  Updated-nil req now s scores = record {
    raised = tt;
    other_scores = λ k m h. refl;
    other_numbers = λ k h. refl;
    other_listed = λ q h. refl;
  }

  Updated-cons :
      (req : ScoreUpdateRequest) (now : Date) (p : String) (ps : List String) (s t s' : S) (x : F)
      (scores scores' : List (String × F))
      → AreTypes (p ∷ ps)
      → Step redis float emit views req now p s t x
      → Updated redis float emit views req now ps t s' (insert String_discrete p x scores) scores'
      → Updated redis float emit views req now (p ∷ ps) s s' scores scores'
  Updated-cons req now p ps s t s' x scores scores' types step rest =
      let others : All (λ q. HasNoColon q × (p ≢ q)) ps = types.1 in
      let (same, raise, number) = step.raises in
      let kept =
        rest.other_scores (set_key req now p) (itoa req.user_id)
          (All-of ps (λ q h e. set_key_ne req now p q types.0 h.0 h.1 e.0) others) in
      let numbers =
        rest.other_numbers (mirror_key req now p)
          (All-of ps (λ q h e. mirror_key_ne req now p q types.0 h.0 h.1 e) others) in
      let listed = rest.other_listed p (All-of ps (λ q h e. h.1 (sym e)) others) in
      record {
        raised = (
          (
            x,
            listed ∙ lookup-insert_self String_discrete p x scores,
            (same ∙ sym kept, kept ∙ raise, numbers ∙ number),
          ),
          All-map2 ps
              (λ q h r.
                let (y, at, (is, up, num)) = r in
                (
                  y,
                  at,
                  (
                    is,
                    up
                        ∙ ap (λ z. views.plus z (float.of_int req.score_delta))
                            (step.scores_kept _ _
                              (λ e. set_key_ne req now q p h.0 types.0 (λ c. h.1 (sym c)) e.0)),
                    num
                        ∙ ap (λ z. z +ℤ req.score_delta)
                            (step.numbers_kept _
                              (mirror_key_ne req now q p h.0 types.0 (λ c. h.1 (sym c)))),
                  ),
                ))
              others rest.raised,
        );
        other_scores = λ k m h. rest.other_scores k m h.1 ∙ step.scores_kept k m h.0;
        other_numbers = λ k h. rest.other_numbers k h.1 ∙ step.numbers_kept k h.0;
        other_listed =
            λ q h. rest.other_listed q h.1 ∙ lookup-insert_ne String_discrete p q x scores h.0;
      }

  -- The rounds from one whose increment gave `r`.
  abbrev after :
      ScoreUpdateRequest
      → Date
      → String
      → List String
      → List (String × F)
      → Result F × S
      → Result (List (String × F)) × S
  after req now p ps scores r =
      let (result, t) = r in
      elim result [
        | value x ↦
            update_periods redis float emit req now ps (insert String_discrete p x scores)
              (emit (event_of req now p) t)
        | error e ↦ (error e, t)
      ]

  -- All periods are updated, or those before the first one that fails.
  abbrev pub Ends :
      ScoreUpdateRequest
      → Date
      → List String
      → List (String × F)
      → S
      → Result (List (String × F)) × S
      → Type 0
  Ends req now ps scores s (value scores', s') =
      Updated redis float emit views req now ps s s' scores scores'
  Ends req now ps scores s (error e, s') =
      (done : List String) × (p : String) × (rest : List String) × (t : S) × (scores' : List
        (String × F))
      × (ps ≡ done ++ p ∷ rest)
      × Updated redis float emit views req now done s t scores scores'
      × (update_period redis float emit req now p t ≡ (error e, s'))

  module _ (ledger : IsLedger redis float emit views) where
    Ends-cons :
        (req : ScoreUpdateRequest) (now : Date) (p : String) (ps : List String) (s t : S) (x : F)
        (scores : List (String × F)) (r : Result (List (String × F)) × S)
        → AreTypes (p ∷ ps)
        → Step redis float emit views req now p s t x
        → Ends req now ps (insert String_discrete p x scores) t r
        → Ends req now (p ∷ ps) scores s r
    Ends-cons req now p ps s t x scores (value scores', s') types step h =
        Updated-cons req now p ps s t s' x scores scores' types step h
    Ends-cons req now p ps s t x scores (error e, s') types step
          (done, q, rest, u, scores', split, upd, fails) =
        (
          p ∷ done,
          q,
          rest,
          u,
          scores',
          ap (◌∷◌ p) split,
          Updated-cons req now p done s t u x scores scores'
              (AreTypes-left (p ∷ done) (q ∷ rest) (subst AreTypes (ap (◌∷◌ p) split) types)) step
              upd,
          fails,
        )

    round_of :
        (req : ScoreUpdateRequest) (now : Date) (p : String) (ps : List String)
        (scores : List (String × F)) (s : S) (r : Result F × S)
        → update_period redis float emit req now p s ≡ r
        → update_periods redis float emit req now (p ∷ ps) scores s ≡ after req now p ps scores r
    unfolding update_periods
    round_of req now p ps scores s r h = ap (after req now p ps scores) h

    first_round :
        (req : ScoreUpdateRequest) (now : Date) (p : String) (ps : List String)
        (scores : List (String × F)) (s : S) (r : Result F × S)
        → update_period redis float emit req now p s ≡ r
        → AreTypes (p ∷ ps)
        → ((x : F) (t : S)
            → Ends req now ps (insert String_discrete p x scores) (emit (event_of req now p) t) (
                update_periods redis float emit req now ps
                  (insert String_discrete p x scores)
                  (emit (event_of req now p) t)))
        → Ends req now (p ∷ ps) scores s (update_periods redis float emit req now (p ∷ ps) scores s)
    first_round req now p ps scores s (value x, t) h types rest =
        subst (Ends req now (p ∷ ps) scores s) (sym (round_of req now p ps scores s (value x, t) h))
          (Ends-cons req now p ps s (emit (event_of req now p) t) x scores _ types
            (update_period-Step redis float emit views ledger req now p s t x h) (rest x t))
    first_round req now p ps scores s (error e, t) h types rest =
        subst (Ends req now (p ∷ ps) scores s) (sym (round_of req now p ps scores s (error e, t) h))
          ([], p, ps, s, scores, refl, Updated-nil req now s scores, h)

    pub update_periods-Ends :
        (req : ScoreUpdateRequest) (now : Date) (ps : List String) (scores : List (String × F))
        (s : S)
        → AreTypes ps
        → Ends req now ps scores s (update_periods redis float emit req now ps scores s)
    unfolding update_periods
    update_periods-Ends req now [] scores s types = Updated-nil req now s scores
    update_periods-Ends req now (p ∷ ps) scores s types =
        first_round req now p ps scores s (update_period redis float emit req now p s) refl types
          (λ x t. update_periods-Ends req now ps _ _ types.2)

no_colon : (p : String) → lacks colon p ≡ true → HasNoColon p
no_colon p h = Lacks-by_test colon p h

pub period_types-AreTypes : AreTypes period_types
unfolding lacks
period_types-AreTypes =
    let weekly = no_colon "weekly" refl in
    let monthly = no_colon "monthly" refl in
    (
      no_colon "daily" refl,
      (
        (weekly, ne_by_test "daily" "weekly" refl),
        ((monthly, ne_by_test "daily" "monthly" refl), tt),
      ),
      (weekly, ((monthly, ne_by_test "weekly" "monthly" refl), tt), (monthly, tt, tt)),
    )
