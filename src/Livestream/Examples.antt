-- ===== src/Livestream/Examples.antt =====
-- Concrete requests for the token handler (livestream-poc/server/internal/token/token.go), signed by a
-- function that spells out the identity.
use classic_cheese.Prelude.{◌≡◌, ◌≢◌, ◌⊎◌, inl, inr, refl, String, Option, some, ne_by_test}
use classic_cheese.Livestream.Token.{AccessToken, handler, IsRefusal, IsRequest, handler_refuses}

abbrev sign : AccessToken → Option String
sign t = some t.identity

not_guest : ¬ IsRequest sign "key" "secret" "id-1" "kitchen" "guest"
not_guest (named, inl e) = ne_by_test "guest" "publisher" refl e
not_guest (named, inr e) = ne_by_test "guest" "subscriber" refl e

handler_refuses_example :
    ((◌≡◌ {A = String} "kitchen" "")
      × IsRefusal "room is required\n" (handler sign "key" "secret" "id-1" "kitchen" "guest"))
    ⊎ ((◌≢◌ {A = String} "kitchen" "")
        × IsRefusal "role must be \"publisher\" or \"subscriber\"\n"
            (handler sign "key" "secret" "id-1" "kitchen" "guest"))
handler_refuses_example = handler_refuses sign "key" "secret" "id-1" "kitchen" "guest" not_guest
