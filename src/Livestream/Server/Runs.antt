-- ===== src/Livestream/Server/Runs.antt =====
-- livestream-poc/server/main.go: for which environments the server starts, and what it then answers.
use classic_cheese.Prelude.{
  ℕ, ◌≡◌, ◌≢◌, ◌⊎◌, inl, inr, refl, ap, ◌∙◌, String, String_discrete, Bool, [], ◌∷◌, Option, none,
  some, if_pos, if_neg,
}
use classic_cheese.Prelude.Text.{concat}
use classic_cheese.Http.{Reply, Headers}
use classic_cheese.Livestream.Config.{Config, get_env, loaded, load}
use classic_cheese.Livestream.Token.{AccessToken, IsAnswer, IsRequest, Grants, handler-Grants}
use classic_cheese.Livestream.Comments.Hub.{new_hub}
use classic_cheese.Livestream.Comments.Hub.Order.{IsValid, new_hub-IsValid}
use classic_cheese.Livestream.Comments.Service.{Comment, Service, Fields, new_service}
use classic_cheese.Livestream.Server.{
  Server, cors, on_top, serve_options, serve_token, serve_comments, serve_stream, started, start,
}
use classic_cheese.Livestream.Server.Origin.{
  Allows, PostAllows, StreamAllows, serve_options-Allows, serve_token-Allows, serve_comments-Allows,
  serve_stream-Allows,
}

module _ (env : String → String) where
  -- The variable's value, or the fallback if it is not set.
  abbrev pub Reads : String → String → String → Type 0
  Reads key fallback v = ((env key ≡ "") × (v ≡ fallback)) ⊎ ((env key ≢ "") × (v ≡ env key))

  -- What a token request gets: the token that is signed for it, behind the headers of `cors`.
  abbrev pub Signs : Config → Type 0
  Signs cfg =
      (to_jwt : AccessToken → Option String) (uuid room role : String)
      → IsRequest to_jwt (env "LIVEKIT_API_KEY") (env "LIVEKIT_API_SECRET") uuid room role
      → (t : AccessToken) × IsAnswer (to_jwt t) (serve_token to_jwt cfg uuid room role)
        × Grants to_jwt (env "LIVEKIT_API_KEY") (env "LIVEKIT_API_SECRET") uuid room role t

  pub record IsRunning (server : Server) : Type 0 where
    pub listens :
        (port : String) × Reads "HTTP_PORT" "8080" port × (server.addr ≡ concat (":" ∷ port ∷ []))
    pub no_rooms : server.service.hub.rooms ≡ []
    pub no_mailboxes : server.service.hub.heap ≡ []
    pub no_counts : (server.service.seqs ≡ []) × (server.service.counters ≡ [])
    pub in_order : IsValid server.service.hub
    pub signs : Signs server.config
    pub origin : Reads "CORS_ALLOW_ORIGIN" "*" server.config.cors_allow_origin
    pub preflight : Allows server.config.cors_allow_origin (serve_options server.config).headers
    pub token :
        (to_jwt : AccessToken → Option String) (uuid room role : String)
        → Allows server.config.cors_allow_origin
            (serve_token to_jwt server.config uuid room role).headers
    pub comments :
        (marshal : Comment → Option String) (now : ℕ) (body : Option Fields) (s : Service)
        → PostAllows server.config.cors_allow_origin
            (serve_comments marshal now server.config body s)
    pub stream :
        (uuid room : String) (meanwhile : Service → Service) (can_flush : Bool) (s : Service)
        → StreamAllows server.config.cors_allow_origin
            (serve_stream server.config uuid room meanwhile can_flush s)

  -- The server runs, or the first variable that is missing is named.
  pub data Outcome : Type 0 where
    runs :
        env "LIVEKIT_API_KEY" ≢ ""
        → env "LIVEKIT_API_SECRET" ≢ ""
        → (server : Server) → start env ≡ inr server
        → IsRunning server
        → Outcome
    no_key :
        env "LIVEKIT_API_KEY" ≡ ""
        → start env ≡ inl (concat ("config: " ∷ "LIVEKIT_API_KEY is not set" ∷ []))
        → Outcome
    no_secret :
        env "LIVEKIT_API_KEY" ≢ ""
        → env "LIVEKIT_API_SECRET" ≡ ""
        → start env ≡ inl (concat ("config: " ∷ "LIVEKIT_API_SECRET is not set" ∷ []))
        → Outcome

  get_env-Reads : (key fallback : String) → Reads key fallback (get_env env key fallback)
  unfolding get_env
  get_env-Reads key fallback = elim (String_discrete (env key) "") [
    | yes e ↦ inl (e, if_pos (String_discrete (env key) "") e _ _)
    | no n ↦ inr (n, if_neg (String_discrete (env key) "") n _ _)
  ]

  on_top-IsAnswer :
      (jwt : Option String) (reply : Reply (Unit {0})) (headers : Headers)
      → IsAnswer jwt reply
      → IsAnswer jwt (on_top reply headers)
  on_top-IsAnswer none reply headers h = h
  on_top-IsAnswer (some jwt) reply headers h = h

  loaded-Signs : Signs (loaded env)
  unfolding loaded serve_token cors
  loaded-Signs to_jwt uuid room role request =
      let (t, answer, grants) =
        handler-Grants to_jwt (env "LIVEKIT_API_KEY") (env "LIVEKIT_API_SECRET") uuid room role
          request in
      (t, on_top-IsAnswer (to_jwt t) _ _ answer, grants)

  loaded-IsRunning : IsRunning (record {
    config = loaded env;
    service = new_service;
    addr = concat (":" ∷ (loaded env).http_port ∷ []);
  })
  unfolding loaded new_service new_hub
  loaded-IsRunning = record {
    listens = (_, get_env-Reads "HTTP_PORT" "8080", refl);
    no_rooms = refl;
    no_mailboxes = refl;
    no_counts = (refl, refl);
    in_order = new_hub-IsValid;
    signs = loaded-Signs;
    origin = get_env-Reads "CORS_ALLOW_ORIGIN" "*";
    preflight = serve_options-Allows (loaded env);
    token = λ to_jwt uuid room role. serve_token-Allows to_jwt (loaded env) uuid room role;
    comments = λ marshal now body s. serve_comments-Allows marshal now (loaded env) body s;
    stream = λ uuid room meanwhile can_flush s.
        serve_stream-Allows (loaded env) uuid room meanwhile can_flush s;
  }

  -- The server starts exactly if the key and the secret of LiveKit are set, and otherwise names the
  -- first that is missing. Once started it listens on the port of the environment, or on 8080, with
  -- no room open and nothing counted; a request for a room in one of the two roles gets the token
  -- that is signed with the key and the secret of the environment, or 500 if the signing fails; and
  -- every answer of every route, refusals included, carries the origin of the environment, or "*",
  -- as the allowed one.
  pub start-Outcome : Outcome
  unfolding start load started loaded
  start-Outcome = elim (String_discrete (env "LIVEKIT_API_KEY") "") [
    | yes e ↦ no_key e (ap started (if_pos (String_discrete (env "LIVEKIT_API_KEY") "") e _ _))
    | no has_key ↦ elim (String_discrete (env "LIVEKIT_API_SECRET") "") [
      | yes e ↦ no_secret has_key e (
          ap started (
            if_neg (String_discrete (env "LIVEKIT_API_KEY") "") has_key _ _
            ∙ if_pos (String_discrete (env "LIVEKIT_API_SECRET") "") e _ _))
      | no has_secret ↦
          runs has_key has_secret _
            (ap started (
              if_neg (String_discrete (env "LIVEKIT_API_KEY") "") has_key _ _
              ∙ if_neg (String_discrete (env "LIVEKIT_API_SECRET") "") has_secret _ _))
            loaded-IsRunning
    ]
  ]
