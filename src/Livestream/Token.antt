-- ===== src/Livestream/Token.antt =====
-- livestream-poc/server/internal/token/token.go: `Handler`, which mints LiveKit tokens.
-- The signing of github.com/livekit/protocol/auth is an argument, a function of what the token says;
-- so is the identity that github.com/google/uuid makes.
use classic_cheese.Prelude.{
  ℕ, ◌*◌, ◌≡◌, ◌≢◌, ◌↔◌, refl, ap, sym, subst, ◌∙◌, String, Bool, true, false, ◌||◌, ◌∷◌, [],
  Option, none, some, ite, if_pos, if_neg, if◌then◌else◌, String_discrete, arith, ◌⊎◌, inl, inr,
}
use package.text.Mathlib.TextEquality.{eq_iff}
use classic_cheese.Prelude.Text.{concat}
use classic_cheese.Http.{
  Reply, text, http_error, set_header, status_ok, status_bad_request, status_internal_server_error,
}

-- A flag that is not set is `none`.
pub record VideoGrant : Type 0 where
  pub room_join : Bool
  pub room : String
  pub can_publish : Option Bool
  pub can_subscribe : Option Bool

pub record AccessToken : Type 0 where
  pub api_key : String
  pub api_secret : String
  pub identity : String
  pub valid_for : ℕ
  pub grant : VideoGrant

-- Six hours, in nanoseconds.
abbrev pub token_ttl : ℕ
token_ttl = 6 * 3600 * 1000000000

unfoldable pub is_role : String → String → Bool
is_role expected role = ite (String_discrete role expected) true false

subscriber_ne_publisher : ◌≢◌ {A = String} "subscriber" "publisher"
subscriber_ne_publisher = ground (arith, eq_iff "subscriber" "publisher")

-- The token as it was signed, or the failure to sign it.
abbrev pub IsAnswer : Option String → Reply (Unit {0}) → Type 0
IsAnswer none reply = (reply.status ≡ 500) × (reply.body ≡ text "failed to mint token\n")
IsAnswer (some jwt) reply = (reply.status ≡ 200) × (reply.body ≡ text jwt)

abbrev pub IsRefusal : String → Reply (Unit {0}) → Type 0
IsRefusal message reply = (reply.status ≡ 400) × (reply.body ≡ text message)

module _ (to_jwt : AccessToken → Option String) (api_key api_secret uuid : String) where
  unfoldable pub access_token : String → Bool → AccessToken
  access_token room is_host = record {
    api_key = api_key;
    api_secret = api_secret;
    identity = uuid;
    valid_for = token_ttl;
    grant = record {
      room_join = true;
      room = room;
      can_publish = some is_host;
      can_subscribe = some true;
    };
  }

  unfoldable pub token_reply : Option String → Reply (Unit {0})
  unfolding http_error
  token_reply none = http_error [] "failed to mint token" status_internal_server_error
  token_reply (some jwt) = record {
    status = status_ok;
    headers = set_header "Content-Type" "text/plain; charset=utf-8" [];
    body = text jwt;
  }

  unfoldable pub handler : String → String → Reply (Unit {0})
  unfolding is_role access_token token_reply
  handler room role =
      ite (String_discrete room "") (http_error [] "room is required" status_bad_request) (
        if is_role "publisher" role || is_role "subscriber" role
        then token_reply (to_jwt (access_token room (is_role "publisher" role)))
        else http_error [] "role must be \"publisher\" or \"subscriber\"" status_bad_request)

  -- What the token says, in terms of the request and of the server's credentials.
  abbrev pub Grants : String → String → AccessToken → Type 0
  Grants room role t =
      (t.grant.room ≡ room)
      × (t.grant.room_join ≡ true)
      × (t.grant.can_subscribe ≡ some true)
      × ((t.grant.can_publish ≡ some true) ↔ (role ≡ "publisher"))
      × (t.valid_for ≡ token_ttl)
      × (t.identity ≡ uuid)
      × (t.api_key ≡ api_key)
      × (t.api_secret ≡ api_secret)

  abbrev pub IsRequest : String → String → Type 0
  IsRequest room role = (room ≢ "") × ((role ≡ "publisher") ⊎ (role ≡ "subscriber"))

  access_token-Grants :
      (room role : String) (host : Bool)
      → ((host ≡ true) ↔ (role ≡ "publisher"))
      → Grants room role (access_token room host)
  unfolding access_token
  access_token-Grants room role host (to, from) =
      (refl, refl, refl, (λ e. to (ground arith), λ e. ap some (from e)), refl, refl, refl, refl)

  token_reply-IsAnswer : (jwt : Option String) → IsAnswer jwt (token_reply jwt)
  unfolding token_reply http_error concat
  token_reply-IsAnswer none = (refl, refl)
  token_reply-IsAnswer (some jwt) = (refl, refl)

  minted :
      (room role : String) (host : Bool)
      → handler room role ≡ token_reply (to_jwt (access_token room host))
      → IsAnswer (to_jwt (access_token room host)) (handler room role)
  minted room role host e =
      subst (IsAnswer (to_jwt (access_token room host))) (sym e) (token_reply-IsAnswer _)

  pub handler-Grants :
      (room role : String)
      → IsRequest room role
      → (t : AccessToken) × IsAnswer (to_jwt t) (handler room role) × Grants room role t
  unfolding handler is_role
  handler-Grants room role (named, inl publisher) = (
    access_token room true,
    minted room role true (
        rw
          (
            if_neg (String_discrete room "") named,
            if_pos (String_discrete role "publisher") publisher,
          )
          refl),
    access_token-Grants room role true (λ _. publisher, λ _. refl),
  )
  handler-Grants room role (named, inr subscriber) = (
    access_token room false,
    minted room role false (
        rw
          (
            if_neg (String_discrete room "") named,
            if_neg (String_discrete role "publisher") not_publisher,
            if_pos (String_discrete role "subscriber") subscriber,
          )
          refl),
    access_token-Grants room role false (λ e. cc, λ e. absurd (not_publisher e)),
  )
    where
      not_publisher : role ≢ "publisher"
      not_publisher e = subscriber_ne_publisher (sym subscriber ∙ e)

  refused :
      (message : String) (room role : String)
      → handler room role ≡ http_error [] message status_bad_request
      → IsRefusal (concat (message ∷ "\n" ∷ [])) (handler room role)
  unfolding http_error
  refused message room role e =
      subst (IsRefusal (concat (message ∷ "\n" ∷ []))) (sym e) (refl, refl)

  -- Any other request is answered by 400, whatever the signing would say: a request without a room is
  -- told that the room is required, and one for a room in another role which roles there are.
  pub handler_refuses :
      (room role : String)
      → ¬ IsRequest room role
      → ((room ≡ "") × IsRefusal "room is required\n" (handler room role))
        ⊎ ((room ≢ "")
            × IsRefusal "role must be \"publisher\" or \"subscriber\"\n" (handler room role))
  unfolding handler is_role concat
  handler_refuses room role h = elim (String_discrete room "") [
    | yes nameless ↦ inl (
      nameless,
      refused "room is required" room role (if_pos (String_discrete room "") nameless _ _),
    )
    | no named ↦ inr (
      named,
      refused "role must be \"publisher\" or \"subscriber\"" room role (
          rw
            (
              if_neg (String_discrete room "") named,
              if_neg (String_discrete role "publisher") (λ e. h (named, inl e)),
              if_neg (String_discrete role "subscriber") (λ e. h (named, inr e)),
            )
            refl),
    )
  ]
