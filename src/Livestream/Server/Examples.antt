-- ===== src/Livestream/Server/Examples.antt =====
-- An environment for livestream-poc/server/main.go, in which only what has no default is set.
use classic_cheese.Prelude.{String, String_discrete, ite}
use classic_cheese.Livestream.Server.Runs.{Outcome, start-Outcome}

abbrev dev : String → String
dev key =
    ite (String_discrete key "LIVEKIT_API_KEY") "devkey"
      (ite (String_discrete key "LIVEKIT_API_SECRET") "devsecret" "")

start-Outcome_example : Outcome dev
start-Outcome_example = start-Outcome dev
