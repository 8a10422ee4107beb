-- ===== src/Leaderboard/Hub/Loops.antt =====
-- leaderboard-poc/cmd/api/hub.go, `Register`: one Redis subscription per channel.
use classic_cheese.Prelude.{
  ℕ, suc, ◌≡◌, refl, sym, ap, ◌∙◌, String, String_discrete, Bool, true, false, not, ◌||◌, List, [],
  ◌∷◌, Option, none, some, subst, ite, if_pos, if_neg, Bool-cases, inl, inr,
}
use classic_cheese.Prelude.Dict.{lookup, insert, lookup-insert_self, lookup-insert_ne}
use classic_cheese.Leaderboard.Hub.{
  Hub, Conns, World, Event, arrives, leaves, message_on, new_hub, is_subscribing, or_false,
  add_conn, mark_subscribing, register, unregister, delete_conn, write_all, broadcast, start_loop,
  happen, happen_all,
}

-- How many subscriptions a channel has.
unfoldable pub loops_of : String → List String → ℕ
loops_of channel [] = 0
loops_of channel (c ∷ cs) =
    let rest = loops_of channel cs in ite (String_discrete c channel) (suc rest) rest

-- Whether some client came to the channel.
unfoldable pub watched : String → List Event → Bool
watched channel [] = false
watched channel (arrives c conn ∷ es) =
    let rest = watched channel es in ite (String_discrete c channel) true rest
watched channel (leaves c conn ∷ es) = watched channel es
watched channel (message_on c fails ∷ es) = watched channel es

abbrev pub one_if : Bool → ℕ
one_if true = 1
one_if false = 0

-- The flag of each channel says how many subscriptions it has.
abbrev Counts : World → Type 0
Counts w = (channel : String) → loops_of channel w.loops ≡ one_if (is_subscribing channel w.hub)

-- What a client's arrival on `channel` does to the flag and the subscriptions of a channel.
abbrev Arrival : String → String → World → World → Type 0
Arrival r channel w w' =
    (Counts w → loops_of r w'.loops ≡ one_if (is_subscribing r w'.hub))
    × (is_subscribing r w'.hub ≡ ite (String_discrete channel r) true (is_subscribing r w.hub))

delete_conn-subscribing :
    (channel : String) (conn : ℕ) (set : Option Conns) (h : Hub)
    → (delete_conn channel conn set h).subscribing ≡ h.subscribing
unfolding delete_conn
delete_conn-subscribing channel conn none h = refl
delete_conn-subscribing channel conn (some set) h = refl

unregister-subscribing :
    (channel : String) (conn : ℕ) (h : Hub)
    → (unregister channel conn h).subscribing ≡ h.subscribing
unfolding unregister
unregister-subscribing channel conn h =
    delete_conn-subscribing channel conn (lookup String_discrete channel h.conns) h

write_all-subscribing :
    (fails : ℕ → Bool) (channel : String) (cs : List ℕ) (h : Hub)
    → (write_all fails channel cs h).subscribing ≡ h.subscribing
unfolding write_all
write_all-subscribing fails channel [] h = refl
write_all-subscribing fails channel (c ∷ cs) h = elim (Bool-cases (fails c)) [
  | inl e ↦ rw e (
      write_all-subscribing fails channel cs (unregister channel c h)
      ∙ unregister-subscribing channel c h)
  | inr e ↦ rw e (write_all-subscribing fails channel cs h)
]

-- Whoever leaves and whatever is sent, the flags stay.
unregister-flag :
    (r channel : String) (conn : ℕ) (h : Hub)
    → is_subscribing r (unregister channel conn h) ≡ is_subscribing r h
unfolding is_subscribing
unregister-flag r channel conn h =
    ap (λ m. or_false (lookup String_discrete r m)) (unregister-subscribing channel conn h)

broadcast-flag :
    (r channel : String) (fails : ℕ → Bool) (h : Hub)
    → is_subscribing r (broadcast fails channel h) ≡ is_subscribing r h
unfolding is_subscribing broadcast
broadcast-flag r channel fails h =
    ap (λ m. or_false (lookup String_discrete r m)) (write_all-subscribing fails channel _ h)

add_conn-flag :
    (r channel : String) (conn : ℕ) (h : Hub)
    → is_subscribing r (add_conn channel conn h) ≡ is_subscribing r h
unfolding is_subscribing add_conn
add_conn-flag r channel conn h = refl

-- If the flag is set, nothing changes; if not, it is set and a subscription started.
arrival :
    (r channel : String) (conn : ℕ) (w : World) (b : Bool)
    → is_subscribing channel w.hub ≡ b
    → Arrival r channel w (
        start_loop channel
          (mark_subscribing (not b) channel (add_conn channel conn w.hub), not b)
          w.loops)
unfolding start_loop mark_subscribing loops_of is_subscribing add_conn
arrival r channel conn w true e = (
  λ k. k r,
  elim (String_discrete channel r) [
    | yes p ↦
        subst (λ c. or_false (lookup String_discrete c w.hub.subscribing) ≡ true) p e
        ∙ sym (if_pos (String_discrete channel r) p _ _)
    | no n ↦ sym (if_neg (String_discrete channel r) n _ _)
  ],
)
arrival r channel conn w false e = elim (String_discrete channel r) [
  | yes p ↦
      let set =
        subst
          (λ c.
            lookup String_discrete c (insert String_discrete channel true w.hub.subscribing)
            ≡ some true)
          p (lookup-insert_self String_discrete channel true w.hub.subscribing) in
      (
        λ k.
            if_pos (String_discrete channel r) p _ _
            ∙ ap suc (subst (λ c. loops_of c w.loops ≡ 0) p (k channel ∙ ap one_if e))
            ∙ sym (ap (λ o. one_if (or_false o)) set),
        ap or_false set ∙ sym (if_pos (String_discrete channel r) p _ _),
      )
  | no n ↦
      let kept = lookup-insert_ne String_discrete channel r true w.hub.subscribing n in
      (
        λ k.
            if_neg (String_discrete channel r) n _ _
            ∙ k r
            ∙ sym (ap (λ o. one_if (or_false o)) kept),
        ap or_false kept ∙ sym (if_neg (String_discrete channel r) n _ _),
      )
]

happen-Counts : (e : Event) (w : World) → Counts w → Counts (happen e w)
unfolding happen register
happen-Counts (arrives channel conn) w k r =
    (arrival r channel conn w (is_subscribing channel (add_conn channel conn w.hub))
        (sym (add_conn-flag channel channel conn w.hub))).0
      k
happen-Counts (leaves channel conn) w k r =
    k r ∙ ap one_if (sym (unregister-flag r channel conn w.hub))
happen-Counts (message_on channel fails) w k r =
    k r ∙ ap one_if (sym (broadcast-flag r channel fails w.hub))

happen_all-Counts : (es : List Event) (w : World) → Counts w → Counts (happen_all es w)
unfolding happen_all
happen_all-Counts [] w k = k
happen_all-Counts (e ∷ es) w k = happen_all-Counts es (happen e w) (happen-Counts e w k)

or_shift : {P : Type 0} (d : Dec P) (a b : Bool) → (ite d true a || b) ≡ (a || ite d true b)
or_shift (yes p) true b = refl
or_shift (yes p) false b = refl
or_shift (no n) a b = refl

-- A channel is flagged if it was before or some client comes to it.
happen_all-flag :
    (r : String) (es : List Event) (w : World)
    → is_subscribing r (happen_all es w).hub ≡ (is_subscribing r w.hub || watched r es)
unfolding happen_all happen watched register
happen_all-flag r [] w = sym (or-false (is_subscribing r w.hub))
  where
    or-false : (b : Bool) → (b || false) ≡ b
    or-false true = refl
    or-false false = refl
happen_all-flag r (arrives channel conn ∷ es) w =
    happen_all-flag r es (happen (arrives channel conn) w)
    ∙ ap (λ b. b || watched r es)
        (arrival r channel conn w (is_subscribing channel (add_conn channel conn w.hub))
          (sym (add_conn-flag channel channel conn w.hub))).1
    ∙ or_shift (String_discrete channel r) (is_subscribing r w.hub) (watched r es)
happen_all-flag r (leaves channel conn ∷ es) w =
    happen_all-flag r es (happen (leaves channel conn) w)
    ∙ ap (λ b. b || watched r es) (unregister-flag r channel conn w.hub)
happen_all-flag r (message_on channel fails ∷ es) w =
    happen_all-flag r es (happen (message_on channel fails) w)
    ∙ ap (λ b. b || watched r es) (broadcast-flag r channel fails w.hub)

abbrev pub start : World
start = record { hub = new_hub; loops = [] }

-- After any arrivals, departures and messages, failed writes included, each channel that some client
-- has come to has exactly one subscription to Redis, and no other channel has one.
pub happen_all-loops :
    (es : List Event) (channel : String)
    → loops_of channel (happen_all es start).loops ≡ one_if (watched channel es)
unfolding loops_of is_subscribing lookup
happen_all-loops es channel =
    happen_all-Counts es start (λ r. refl) channel ∙ ap one_if (happen_all-flag channel es start)
