-- ===== src/Leaderboard/Mysql/Events.antt =====
-- leaderboard-poc/internal/mysqlclient/mysqlclient.go: `New` and `InsertScoreEvent`. `T` is time.Time.
use classic_cheese.Prelude.{String, [], ◌∷◌}
use classic_cheese.Prelude.Text.{concat}
use classic_cheese.Prelude.Decimal.{itoa}
use classic_cheese.Leaderboard.Models.{ScoreEvent}
use classic_cheese.Leaderboard.Redis.{Result, value, error}
use classic_cheese.Leaderboard.Mysql.{wrap}

-- `sql.Open`, `db.Ping` and the statement on the table score_events; the handle is part of the state.
pub record EventStatements (S T : Type 0) : Type 0 where
  pub open_dsn : String → S → Result (Unit {0}) × S
  pub ping : S → Result (Unit {0}) × S
  -- INSERT INTO score_events (...) VALUES (?, ?, ?, ?, ?, ?)
  pub insert_event : ScoreEvent T → S → Result (Unit {0}) × S

unfoldable pub wrapped : {S : Type 0} → String → Result (Unit {0}) × S → Result (Unit {0}) × S
unfolding wrap
wrapped text (value done, s) = (value tt, s)
wrapped text (error e, s) = (error (wrap text e), s)

module _ {S T : Type 0} (db : EventStatements S T) where
  unfoldable pub opened : Result (Unit {0}) × S → Result (Unit {0}) × S
  unfolding wrapped wrap
  opened (value done, s) = wrapped "pinging mysql at startup" (db.ping s)
  opened (error e, s) = (error (wrap "opening mysql connection" e), s)

  unfoldable pub new : String → S → Result (Unit {0}) × S
  unfolding opened
  new dsn s = opened (db.open_dsn dsn s)

  unfoldable pub insert_score_event : ScoreEvent T → S → Result (Unit {0}) × S
  unfolding wrapped concat itoa
  insert_score_event event s =
      wrapped (concat ("inserting score_event for user " ∷ itoa event.user_id ∷ []))
        (db.insert_event event s)
