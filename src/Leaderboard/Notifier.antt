-- ===== src/Leaderboard/Notifier.antt =====
-- leaderboard-poc/cmd/notifier/main.go: which rank changes are announced. The clock `now` and the
-- writing of JSON, `marshal`, are arguments.
pub mod Reasons
pub mod Announce
use classic_cheese.Prelude.{
  ℕ, String, String_discrete, Bool, true, false, ◌&&◌, ◌||◌, List, [], ◌∷◌, Option, none, some, ite,
  if◌then◌else◌,
}
use classic_cheese.Prelude.Int.{ℤ, pos, ◌-ℤ◌, leb_ℤ, ltb_ℤ, eqb_ℤ, wrap64}
use classic_cheese.Prelude.Dict.{lookup, insert}
use classic_cheese.Prelude.Text.{concat}
use classic_cheese.Prelude.Decimal.{itoa}
use classic_cheese.Leaderboard.Models.{ScoreEvent, Notification, Verdict, ack, nack}
use classic_cheese.Leaderboard.Redis.{
  Redis, Result, value, error, Error, rank, publish, regional_key, notification_channel,
}

abbrev pub top_n_threshold : ℤ
top_n_threshold = pos 10

abbrev pub Ranks : Type 0
Ranks = List (String × ℤ)

unfoldable pub combo_key : ℤ → String → String → String → String
unfolding concat itoa
combo_key user_id region period_type period_key =
    concat (itoa user_id ∷ ":" ∷ region ∷ ":" ∷ period_type ∷ ":" ∷ period_key ∷ [])

-- A missing key reads as 0.
abbrev pub or_zero : Option ℤ → ℤ
or_zero none = pos 0
or_zero (some rank) = rank

unfoldable pub previous : String → Ranks → ℤ
previous key ranks = or_zero (lookup String_discrete key ranks)

unfoldable pub set_rank : String → ℤ → Ranks → Ranks
set_rank = insert String_discrete

unfoldable pub reason_of : ℤ → ℤ → ℤ → String
unfolding wrap64 ◌-ℤ◌
reason_of threshold rank previous =
    if leb_ℤ rank top_n_threshold && (eqb_ℤ previous (pos 0) || ltb_ℤ top_n_threshold previous)
    then "top10"
    else if ltb_ℤ (pos 0) previous && ltb_ℤ threshold (wrap64 (previous -ℤ rank))
    then "rank_jump"
    else ""

-- How an event was handled: the error, if there was one, the memory and the state after it.
pub record Handled (S : Type 0) : Type 0 where
  pub failure : Option Error
  pub ranks : Ranks
  pub state : S

unfoldable pub memory_key : {T : Type 0} → ScoreEvent T → String
unfolding combo_key
memory_key event = combo_key event.user_id event.region event.period_type event.period_key

unfoldable pub notification :
    {F T : Type 0} → T → ScoreEvent T → ℤ → ℤ → F → String → Notification F T
notification now event rank previous score reason = record {
  user_id = event.user_id;
  scope = "regional";
  region = event.region;
  period_type = event.period_type;
  period_key = event.period_key;
  rank = rank;
  previous_rank = previous;
  score = score;
  reason = reason;
  timestamp = now;
}

unfoldable pub published : {S : Type 0} → Ranks → Result (Unit {0}) × S → Handled S
published ranks (value u, s) = record { failure = none; ranks = ranks; state = s }
published ranks (error e, s) = record { failure = some e; ranks = ranks; state = s }

unfoldable pub send_payload :
    {S F T : Type 0} → Redis S F → ScoreEvent T → Ranks → Result String → S → Handled S
unfolding published publish notification_channel
send_payload redis event ranks (error e) s = record { failure = some e; ranks = ranks; state = s }
send_payload redis event ranks (value payload) s = published ranks (
    publish redis (notification_channel "regional" event.region event.period_type event.period_key)
      payload s)

module _ {S F T : Type 0} (redis : Redis S F) (marshal : Notification F T → Result String)
    (now : T) where
  unfoldable pub announce : ScoreEvent T → Ranks → ℤ → ℤ → F → String → S → Handled S
  unfolding send_payload notification
  announce event ranks rank previous score reason s =
      ite (String_discrete reason "") (record { failure = none; ranks = ranks; state = s })
        (send_payload redis event ranks
          (marshal (notification now event rank previous score reason)) s)

module _ {S F T : Type 0} (redis : Redis S F) (marshal : Notification F T → Result String) (now : T)
    (threshold : ℤ) where
  unfoldable pub on_rank : ScoreEvent T → Ranks → Result (Option (ℤ × F)) × S → Handled S
  unfolding announce memory_key previous set_rank reason_of
  on_rank event ranks (error e, s) = record { failure = some e; ranks = ranks; state = s }
  on_rank event ranks (value none, s) = record { failure = none; ranks = ranks; state = s }
  on_rank event ranks (value (some (rank, score)), s) =
      let before = previous (memory_key event) ranks in
      announce redis marshal now event (set_rank (memory_key event) rank ranks) rank before score
        (reason_of threshold rank before) s

  unfoldable pub handle_event : ScoreEvent T → Ranks → S → Handled S
  unfolding on_rank rank regional_key itoa
  handle_event event ranks s = on_rank event ranks (
      rank redis (regional_key event.region event.period_type event.period_key) (itoa event.user_id)
        s)

  abbrev pub verdict_of : Option Error → Verdict
  verdict_of none = ack
  verdict_of (some e) = nack true

  -- One message of the queue; `none` is one that does not parse.
  unfoldable pub consume : Option (ScoreEvent T) → Ranks → S → Verdict × Ranks × S
  unfolding handle_event
  consume none ranks s = (nack false, ranks, s)
  consume (some event) ranks s =
      let h = handle_event event ranks s in (verdict_of h.failure, h.ranks, h.state)
