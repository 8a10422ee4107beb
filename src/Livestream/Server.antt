-- ===== src/Livestream/Server.antt =====
-- livestream-poc/server/main.go: `main` up to the routes, and `cors`. A fatal error is its message on
-- the left. A handler of the other modules replies with the headers that it sets; behind `cors` it
-- sets them on top of those of `cors`.
pub mod Origin
pub mod Runs
pub mod Examples
use classic_cheese.Prelude.{
  ℕ, String, String_discrete, List, [], ◌∷◌, Option, none, some, ◌⊎◌, inl, inr, Bool,
}
use classic_cheese.Prelude.Int.{ℤ}
use classic_cheese.Prelude.Text.{concat}
use classic_cheese.Http.{Reply, Headers, text, set_header, status_ok}
use classic_cheese.Livestream.Config.{Config, load}
use classic_cheese.Livestream.Token.{AccessToken, handler}
use classic_cheese.Livestream.Comments.Service.{Comment, Service, Fields, new_service}
use classic_cheese.Livestream.Comments.Handlers.{post_comment}
use classic_cheese.Livestream.Comments.Stream.{Opening, refused, opened, open_stream}

unfoldable pub cors {ℓ} : {A : Type ℓ} → String → (Headers → A) → Headers → A
cors allow_origin next headers = next (
    set_header "Access-Control-Allow-Headers" "Content-Type" (
      set_header "Access-Control-Allow-Methods" "GET, POST, OPTIONS"
        (set_header "Access-Control-Allow-Origin" allow_origin headers)))

-- The headers that a handler sets, on top of those that are set.
unfoldable pub set_headers : Headers → Headers → Headers
set_headers [] headers = headers
set_headers ((k, v) ∷ more) headers = set_header k v (set_headers more headers)

abbrev pub on_top {ℓ} : {A : Type ℓ} → Reply A → Headers → Reply A
on_top reply headers = record reply { headers = set_headers reply.headers headers }

abbrev pub stream_on_top : Opening → Headers → Opening
stream_on_top (refused reply) headers = refused (on_top reply headers)
stream_on_top (opened s feed) headers =
    opened s (record feed { headers = set_headers feed.headers headers })

abbrev pub post_on_top :
    Option (Service × Reply (Comment × ℤ)) → Headers → Option (Service × Reply (Comment × ℤ))
post_on_top none headers = none
post_on_top (some (s, reply)) headers = some (s, on_top reply headers)

pub record Server : Type 0 where
  pub config : Config
  pub service : Service
  pub addr : String

-- The routes: OPTIONS of any path, /token, POST /comments and GET /stream.
unfoldable pub serve_options : Config → Reply (Unit {0})
unfolding cors set_headers
serve_options cfg =
    cors cfg.cors_allow_origin
      (λ h. on_top (record { status = status_ok; headers = []; body = text "" }) h) []

unfoldable pub serve_token :
    (AccessToken → Option String) → Config → String → String → String → Reply (Unit {0})
unfolding cors set_headers handler
serve_token to_jwt cfg uuid room role =
    cors cfg.cors_allow_origin
      (on_top (handler to_jwt cfg.live_kit_api_key cfg.live_kit_secret uuid room role)) []

unfoldable pub serve_comments :
    (Comment → Option String)
    → ℕ
    → Config
    → Option Fields
    → Service
    → Option (Service × Reply (Comment × ℤ))
unfolding cors set_headers post_comment
serve_comments marshal now cfg body s =
    cors cfg.cors_allow_origin (post_on_top (post_comment marshal now "POST" body s)) []

unfoldable pub serve_stream :
    Config → String → String → (Service → Service) → Bool → Service → Opening
unfolding cors set_headers open_stream
serve_stream cfg uuid room meanwhile can_flush s =
    cors cfg.cors_allow_origin (stream_on_top (open_stream uuid room meanwhile can_flush s)) []

unfoldable pub started : String ⊎ Config → String ⊎ Server
unfolding concat new_service
started (inl err) = inl (concat ("config: " ∷ err ∷ []))
started (inr cfg) =
    inr (record { config = cfg; service = new_service; addr = concat (":" ∷ cfg.http_port ∷ []) })

unfoldable pub start : (String → String) → String ⊎ Server
unfolding started load
start env = started (load env)
