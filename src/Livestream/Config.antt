-- ===== src/Livestream/Config.antt =====
-- livestream-poc/server/internal/config/config.go: `Load`. The environment, .env included, is a
-- function, "" for a variable that is not set (os.Getenv).
use classic_cheese.Prelude.{String, String_discrete, ite, ◌⊎◌, inl, inr}

pub record Config : Type 0 where
  pub http_port : String
  pub live_kit_api_key : String
  pub live_kit_secret : String
  pub cors_allow_origin : String

module _ (env : String → String) where
  unfoldable pub get_env : String → String → String
  get_env key fallback = ite (String_discrete (env key) "") fallback (env key)

  unfoldable pub loaded : Config
  unfolding get_env
  loaded = record {
    http_port = get_env "HTTP_PORT" "8080";
    live_kit_api_key = env "LIVEKIT_API_KEY";
    live_kit_secret = env "LIVEKIT_API_SECRET";
    cors_allow_origin = get_env "CORS_ALLOW_ORIGIN" "*";
  }

  -- On the left the text of an error.
  unfoldable pub load : String ⊎ Config
  unfolding loaded
  load = ite (String_discrete loaded.live_kit_api_key "") (inl "LIVEKIT_API_KEY is not set") (
      ite (String_discrete loaded.live_kit_secret "") (inl "LIVEKIT_API_SECRET is not set")
        (inr loaded))
