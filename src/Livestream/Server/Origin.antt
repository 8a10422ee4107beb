-- ===== src/Livestream/Server/Origin.antt =====
-- livestream-poc/server/main.go: no handler behind `cors` undoes the header of the allowed origin.
use classic_cheese.Prelude.{
  ℕ, ◌≡◌, ◌≢◌, ◌||◌, refl, ◌∙◌, String, String_discrete, Bool, true, false, [], ◌∷◌, Option, none,
  some, ite, if_pos, if_neg, ne_by_test, if◌then◌else◌,
}
use classic_cheese.Prelude.Int.{ℤ}
use classic_cheese.Prelude.Lists.{All}
use classic_cheese.Prelude.Dict.{lookup, lookup-insert_self, lookup-insert_ne, All-insert}
use classic_cheese.Http.{Reply, Headers, http_error, set_header}
use classic_cheese.Livestream.Config.{Config}
use classic_cheese.Livestream.Token.{AccessToken, access_token, token_reply, handler, is_role}
use classic_cheese.Livestream.Comments.Service.{
  Comment, Service, Fields, Result, ok, err, add_comment,
}
use classic_cheese.Livestream.Comments.Handlers.{
  comment_reply, answer_comment, post_decoded, post_comment,
}
use classic_cheese.Livestream.Comments.Stream.{
  Opening, refused, opened, stream_headers, start_feed, open_stream,
}
use classic_cheese.Livestream.Server.{
  cors, set_headers, stream_on_top, post_on_top, serve_options, serve_token, serve_comments,
  serve_stream,
}

abbrev pub allow_origin : String
allow_origin = "Access-Control-Allow-Origin"

-- Headers that leave the one of the allowed origin alone.
abbrev Leaves : Headers → Type 0
Leaves = All (λ c. c.0 ≢ allow_origin)

lookup-set_headers :
    (own headers : Headers)
    → Leaves own
    → lookup String_discrete allow_origin (set_headers own headers)
      ≡ lookup String_discrete allow_origin headers
unfolding set_headers
lookup-set_headers [] headers h = refl
lookup-set_headers ((k, v) ∷ own) headers h =
    lookup-insert_ne String_discrete k allow_origin v (set_headers own headers) h.0
    ∙ lookup-set_headers own headers h.1

set_header-Leaves :
    (k v : String) (headers : Headers)
    → k ≢ allow_origin
    → Leaves headers
    → Leaves (set_header k v headers)
set_header-Leaves k v headers other =
    All-insert String_discrete (λ c. c.0 ≢ allow_origin) k v headers other

-- What `cors` sets is there for the handler, which may set other headers.
abbrev pub Allows : String → Headers → Type 0
Allows origin headers = lookup String_discrete allow_origin headers ≡ some origin

cors-Allows :
    (origin : String) (own : Headers)
    → Leaves own
    → Allows origin (cors origin (set_headers own) [])
unfolding cors
cors-Allows origin own h =
    lookup-set_headers own _ h
    ∙ lookup-insert_ne String_discrete "Access-Control-Allow-Headers" allow_origin _ _
        (ne_by_test "Access-Control-Allow-Headers" allow_origin refl)
    ∙ lookup-insert_ne String_discrete "Access-Control-Allow-Methods" allow_origin _ _
        (ne_by_test "Access-Control-Allow-Methods" allow_origin refl)
    ∙ lookup-insert_self String_discrete allow_origin origin []

content_type_ne : ◌≢◌ {A = String} "Content-Type" allow_origin
content_type_ne = ne_by_test "Content-Type" allow_origin refl

-- The headers of http.Error.
error-Leaves : Leaves (
    set_header "X-Content-Type-Options" "nosniff"
      (set_header "Content-Type" "text/plain; charset=utf-8" []))
error-Leaves =
    set_header-Leaves "X-Content-Type-Options" "nosniff" _
      (ne_by_test "X-Content-Type-Options" allow_origin refl)
      (set_header-Leaves "Content-Type" "text/plain; charset=utf-8" [] content_type_ne tt)

token_reply-Leaves :
    (to_jwt : AccessToken → Option String) (key secret uuid : String) (jwt : Option String)
    → Leaves (token_reply to_jwt key secret uuid jwt).headers
unfolding token_reply http_error
token_reply-Leaves to_jwt key secret uuid none = error-Leaves
token_reply-Leaves to_jwt key secret uuid (some jwt) =
    set_header-Leaves "Content-Type" _ [] content_type_ne tt

ite-Leaves :
    {X : Type 0} (d : Dec X) (x y : Reply (Unit {0}))
    → Leaves x.headers
    → Leaves y.headers
    → Leaves (ite d x y).headers
ite-Leaves (yes e) x y p q = p
ite-Leaves (no n) x y p q = q

handler-Leaves :
    (to_jwt : AccessToken → Option String) (key secret uuid room role : String)
    → Leaves (handler to_jwt key secret uuid room role).headers
unfolding handler http_error
handler-Leaves to_jwt key secret uuid room role =
    ite-Leaves (String_discrete room "") _ _ error-Leaves
      (answered (is_role "publisher" role || is_role "subscriber" role))
  where
    answered :
        (b : Bool)
        → Leaves
            (if b
              then token_reply to_jwt key secret uuid
                  (to_jwt (access_token to_jwt key secret uuid room (is_role "publisher" role)))
              else http_error [] "role must be \"publisher\" or \"subscriber\"" 400).headers
    answered true = token_reply-Leaves to_jwt key secret uuid _
    answered false = error-Leaves

comment_reply-Leaves : (r : Result (Comment × ℤ)) → Leaves (comment_reply r).headers
unfolding comment_reply http_error
comment_reply-Leaves (err e) = error-Leaves
comment_reply-Leaves (ok added) = set_header-Leaves "Content-Type" _ [] content_type_ne tt

stream_headers-Leaves : Leaves stream_headers
unfolding stream_headers
stream_headers-Leaves =
    set_header-Leaves "X-Accel-Buffering" "no" _ (ne_by_test "X-Accel-Buffering" allow_origin refl)
      (set_header-Leaves "Connection" "keep-alive" _ (ne_by_test "Connection" allow_origin refl) (
        set_header-Leaves "Cache-Control" "no-cache" _
          (ne_by_test "Cache-Control" allow_origin refl)
          (set_header-Leaves "Content-Type" "text/event-stream" [] content_type_ne tt)))

-- Whatever the service does, the reply to a comment and a stream's first headers leave it alone too.
abbrev PostLeaves : Option (Service × Reply (Comment × ℤ)) → Type 0
PostLeaves none = Unit
PostLeaves (some (s, reply)) = Leaves reply.headers

answer_comment-PostLeaves :
    (marshal : Comment → Option String) (now : ℕ) (r : Option (Service × Result (Comment × ℤ)))
    → PostLeaves (answer_comment marshal now r)
unfolding answer_comment
answer_comment-PostLeaves marshal now none = tt
answer_comment-PostLeaves marshal now (some (s, r)) = comment_reply-Leaves r

post_decoded-PostLeaves :
    (marshal : Comment → Option String) (now : ℕ) (body : Option Fields) (s : Service)
    → PostLeaves (post_decoded marshal now body s)
unfolding post_decoded http_error
post_decoded-PostLeaves marshal now none s = error-Leaves
post_decoded-PostLeaves marshal now (some f) s =
    answer_comment-PostLeaves marshal now (add_comment marshal now f s)

post_comment-PostLeaves :
    (marshal : Comment → Option String) (now : ℕ) (body : Option Fields) (s : Service)
    → PostLeaves (post_comment marshal now "POST" body s)
unfolding post_comment
post_comment-PostLeaves marshal now body s =
    rw (if_pos (String_discrete "POST" "POST") refl) (post_decoded-PostLeaves marshal now body s)

abbrev StreamLeaves : Opening → Type 0
StreamLeaves (refused reply) = Leaves reply.headers
StreamLeaves (opened s feed) = Leaves feed.headers

open_stream-StreamLeaves :
    (uuid room : String) (meanwhile : Service → Service) (can_flush : Bool) (s : Service)
    → StreamLeaves (open_stream uuid room meanwhile can_flush s)
unfolding open_stream start_feed http_error
open_stream-StreamLeaves uuid room meanwhile can_flush s = elim (String_discrete room "") [
  | yes e ↦ rw (if_pos (String_discrete room "") e) error-Leaves
  | no n ↦ rw (if_neg (String_discrete room "") n) (flushed can_flush)
]
  where
    flushed :
        (b : Bool)
        → StreamLeaves (
            if b
            then start_feed uuid room meanwhile s
            else refused (http_error [] "streaming unsupported" 500))
    flushed true = stream_headers-Leaves
    flushed false = error-Leaves

-- Where there is an answer, it has the header.
abbrev pub PostAllows : String → Option (Service × Reply (Comment × ℤ)) → Type 0
PostAllows origin none = Unit
PostAllows origin (some (s, reply)) = Allows origin reply.headers

abbrev pub StreamAllows : String → Opening → Type 0
StreamAllows origin (refused reply) = Allows origin reply.headers
StreamAllows origin (opened s feed) = Allows origin feed.headers

post-Allows :
    (origin : String) (r : Option (Service × Reply (Comment × ℤ)))
    → PostLeaves r
    → PostAllows origin (cors origin (post_on_top r) [])
unfolding cors
post-Allows origin none h = tt
post-Allows origin (some (s, reply)) h = cors-Allows origin reply.headers h

stream-Allows :
    (origin : String) (o : Opening)
    → StreamLeaves o
    → StreamAllows origin (cors origin (stream_on_top o) [])
unfolding cors
stream-Allows origin (refused reply) h = cors-Allows origin reply.headers h
stream-Allows origin (opened s feed) h = cors-Allows origin feed.headers h

-- The routes of the server.
pub serve_options-Allows : (cfg : Config) → Allows cfg.cors_allow_origin (serve_options cfg).headers
unfolding serve_options cors
serve_options-Allows cfg = cors-Allows cfg.cors_allow_origin [] tt

pub serve_token-Allows :
    (to_jwt : AccessToken → Option String) (cfg : Config) (uuid room role : String)
    → Allows cfg.cors_allow_origin (serve_token to_jwt cfg uuid room role).headers
unfolding serve_token cors
serve_token-Allows to_jwt cfg uuid room role =
    cors-Allows cfg.cors_allow_origin _
      (handler-Leaves to_jwt cfg.live_kit_api_key cfg.live_kit_secret uuid room role)

pub serve_comments-Allows :
    (marshal : Comment → Option String) (now : ℕ) (cfg : Config) (body : Option Fields)
    (s : Service)
    → PostAllows cfg.cors_allow_origin (serve_comments marshal now cfg body s)
unfolding serve_comments
serve_comments-Allows marshal now cfg body s =
    post-Allows cfg.cors_allow_origin _ (post_comment-PostLeaves marshal now body s)

pub serve_stream-Allows :
    (cfg : Config) (uuid room : String) (meanwhile : Service → Service) (can_flush : Bool)
    (s : Service)
    → StreamAllows cfg.cors_allow_origin (serve_stream cfg uuid room meanwhile can_flush s)
unfolding serve_stream
serve_stream-Allows cfg uuid room meanwhile can_flush s =
    stream-Allows cfg.cors_allow_origin _ (open_stream-StreamLeaves uuid room meanwhile can_flush s)
