-- ===== src/Leaderboard/HistoryWriter/Examples.antt =====
-- leaderboard-poc/cmd/historywriter at work while MySQL is down for two attempts.
use mathlib.Core.List.Permᴰ
use classic_cheese.Prelude.{
  ℕ, zero, suc, ◌≡◌, sym, ap, arith, List, [], ◌∷◌, ◌++◌, none, some, inl, ◌⊎◌, ◌≤◌, ◌<◌,
}
use classic_cheese.Prelude.Int.{pos}
use classic_cheese.Leaderboard.Models.{ScoreEvent}
use classic_cheese.Leaderboard.Redis.{Error, failed, Result, value, error}
use classic_cheese.Leaderboard.Redis.Results.{error-ne-value}
use classic_cheese.Leaderboard.Mysql.Events.{EventStatements}
use classic_cheese.Leaderboard.HistoryWriter.{Message, run_loop}
use classic_cheese.Leaderboard.HistoryWriter.Delivery.{
  EventView, IsRecording, Drains, run_loop-Drains,
}

-- The table, and how many attempts still fail.
abbrev Table : Type 0
Table = List (ScoreEvent ℕ) × ℕ

unfoldable insert_into : ScoreEvent ℕ → Table → Result (Unit {0}) × Table
insert_into e (events, zero) = (value tt, (events ++ e ∷ [], zero))
insert_into e (events, suc n) = (error (failed "connection refused"), (events, n))

abbrev shaky : EventStatements Table ℕ
shaky = record {
  open_dsn = λ dsn s. (value tt, s);
  ping = λ s. (value tt, s);
  insert_event = insert_into;
}

abbrev view : EventView Table ℕ
view = record { events = λ s. s.0; faults = λ s. s.1 }

insert_value :
    (e : ScoreEvent ℕ) (s t : Table)
    → insert_into e s ≡ (value tt, t)
    → (t.0 ≡ s.0 ++ e ∷ []) × (t.1 ≤ s.1)
unfolding insert_into
insert_value e (events, zero) t h = (sym (ap (λ o. o.1.0) h), omega (arith, ap (λ o. o.1.1) h))
insert_value e (events, suc n) t h = absurd (error-ne-value _ tt (ap (λ o. o.0) h))

insert_error :
    (e : ScoreEvent ℕ) (s t : Table) (err : Error)
    → insert_into e s ≡ (error err, t)
    → ((t.0 ≡ s.0) ⊎ (t.0 ≡ s.0 ++ e ∷ [])) × (t.1 < s.1)
unfolding insert_into
insert_error e (events, zero) t err h = absurd (error-ne-value err tt (sym (ap (λ o. o.0) h)))
insert_error e (events, suc n) t err h =
    (inl (sym (ap (λ o. o.1.0) h)), omega (arith, ap (λ o. o.1.1) h))

shaky-IsRecording : IsRecording shaky view
shaky-IsRecording = record { insert_value = insert_value; insert_error = insert_error }

abbrev to_the_end : Message ℕ → List (Message ℕ) → List (Message ℕ)
to_the_end m queue = queue ++ m ∷ []

abbrev event : ScoreEvent ℕ
event = record {
  user_id = pos 7;
  region = "apac";
  period_type = "daily";
  period_key = "2026-09-07";
  score_delta = pos 5;
  timestamp = 0;
}

run_loop-Drains_example :
    Drains shaky view
      (none ∷ some event ∷ [])
      ([], 2)
      (run_loop to_the_end shaky 4 (none ∷ some event ∷ []) ([], 2))
run_loop-Drains_example =
    run_loop-Drains shaky view shaky-IsRecording to_the_end
      (λ m queue. Permᴰ.append_comm queue (m ∷ [])) 4 (none ∷ some event ∷ []) ([], 2) (omega arith)
