-- ===== src/Leaderboard/Api/Socket/Session.antt =====
-- leaderboard-poc/cmd/api/handlers.go, `handleWebSocket`: a connection watches its channel for as long as
-- its handler reads.
use classic_cheese.Prelude.{
  ℕ, ℕ_discrete, ◌≡◌, ◌≢◌, refl, ap, ◌∙◌, subst, String, String_discrete, Bool, true, false, List,
  [], ◌∷◌, none, some, if_pos, if_neg, if◌then◌else◌,
}
use classic_cheese.Prelude.Lists.{All}
use classic_cheese.Prelude.Dict.{lookup, insert, lookup-insert_self, lookup-insert_ne}
use classic_cheese.Leaderboard.Hub.{
  Hub, Conns, or_empty, World, Event, arrives, leaves, message_on, watchers, add_conn,
  mark_subscribing, register, unregister, broadcast, start_loop, happen, happen_all,
}
use classic_cheese.Leaderboard.Hub.Broadcast.{
  entry, unregister-entry, unregister-others, broadcast-entry,
}
use classic_cheese.Leaderboard.Api.Reads.{Query}
use classic_cheese.Leaderboard.Api.Socket.{
  Progress, refused, reading, returned, channel_of, read_on, handle_web_socket,
}

add_conn_self :
    (channel : String) (c : ℕ) (h : Hub) → entry channel c (add_conn channel c h) ≡ some tt
unfolding add_conn watchers
add_conn_self channel c h =
    ap (λ o. lookup ℕ_discrete c (or_empty o))
      (lookup-insert_self String_discrete channel _ h.conns)
    ∙ lookup-insert_self ℕ_discrete c tt (watchers channel h)

insert-keeps :
    (c d : ℕ) (set : Conns)
    → lookup ℕ_discrete c set ≡ some tt
    → lookup ℕ_discrete c (insert ℕ_discrete d tt set) ≡ some tt
insert-keeps c d set h = elim (ℕ_discrete d c) [
  | yes e ↦
      subst (λ n. lookup ℕ_discrete n (insert ℕ_discrete d tt set) ≡ some tt) e
        (lookup-insert_self ℕ_discrete d tt set)
  | no e ↦ lookup-insert_ne ℕ_discrete d c tt set e ∙ h
]

add_conn-keeps :
    (channel r : String) (c d : ℕ) (h : Hub)
    → entry r c h ≡ some tt
    → entry r c (add_conn channel d h) ≡ some tt
unfolding add_conn watchers
add_conn-keeps channel r c d h e = elim (String_discrete channel r) [
  | yes p ↦
      subst (λ n. entry n c h ≡ some tt → entry n c (add_conn channel d h) ≡ some tt) p
        (λ k.
          ap (λ o. lookup ℕ_discrete c (or_empty o))
            (lookup-insert_self String_discrete channel _ h.conns)
          ∙ insert-keeps c d (watchers channel h) k)
        e
  | no n ↦
      ap (λ o. lookup ℕ_discrete c (or_empty o))
        (lookup-insert_ne String_discrete channel r _ h.conns n)
      ∙ e
]

mark_subscribing-entry :
    (b : Bool) (channel r : String) (c : ℕ) (h : Hub)
    → entry r c (mark_subscribing b channel h) ≡ entry r c h
unfolding mark_subscribing watchers
mark_subscribing-entry true channel r c h = refl
mark_subscribing-entry false channel r c h = refl

start_loop-hub :
    (channel : String) (h : Hub) (b : Bool) (loops : List String)
    → (start_loop channel (h, b) loops).hub ≡ h
unfolding start_loop
start_loop-hub channel h true loops = refl
start_loop-hub channel h false loops = refl

arrives-entry :
    (channel r : String) (c d : ℕ) (w : World)
    → entry r c (happen (arrives channel d) w).hub ≡ entry r c (add_conn channel d w.hub)
unfolding happen register
arrives-entry channel r c d w =
    ap (entry r c) (start_loop-hub channel _ _ w.loops) ∙ mark_subscribing-entry _ channel r c _

-- The event is not the connection's own leaving, and no write to the connection fails in it.
abbrev pub Spares : ℕ → Event → Type 0
Spares conn (arrives channel d) = Unit
Spares conn (leaves channel d) = d ≢ conn
Spares conn (message_on channel fails) = fails conn ≡ false

happen-entry :
    (r : String) (conn : ℕ) (e : Event) (w : World)
    → Spares conn e
    → entry r conn w.hub ≡ some tt
    → entry r conn (happen e w).hub ≡ some tt
unfolding happen
happen-entry r conn (arrives channel d) w spared h =
    arrives-entry channel r conn d w ∙ add_conn-keeps channel r conn d w.hub h
happen-entry r conn (leaves channel d) w spared h = elim (String_discrete channel r) [
  | yes p ↦
      subst
        (λ n. entry n conn w.hub ≡ some tt → entry n conn (unregister channel d w.hub) ≡ some tt) p
        (λ k. unregister-entry channel d conn w.hub ∙ if_neg (ℕ_discrete d conn) spared _ _ ∙ k) h
  | no n ↦ unregister-others channel r d conn w.hub n ∙ h
]
happen-entry r conn (message_on channel fails) w spared h = elim (String_discrete channel r) [
  | yes p ↦
      subst
        (λ n. entry n conn w.hub ≡ some tt → entry n conn (broadcast fails channel w.hub) ≡ some tt)
        p
        (λ k.
          (broadcast-entry fails channel w.hub conn).0
          ∙ ap (λ b. if b then none else entry channel conn w.hub) spared
          ∙ k)
        h
  | no n ↦ (broadcast-entry fails channel w.hub conn).1 r n ∙ h
]

happen_all-entry :
    (r : String) (conn : ℕ) (es : List Event) (w : World)
    → All (Spares conn) es
    → entry r conn w.hub ≡ some tt
    → entry r conn (happen_all es w).hub ≡ some tt
unfolding happen_all
happen_all-entry r conn [] w spared h = h
happen_all-entry r conn (e ∷ es) w spared h =
    happen_all-entry r conn es (happen e w) spared.1 (happen-entry r conn e w spared.0 h)

-- A handler that did not start changes nothing; the connection of one that reads watches the channel; that
-- of one that has returned does not.
abbrev pub Watches : String → ℕ → Progress × World → Type 0
Watches channel conn (refused, w) = ⊥
Watches channel conn (reading, w) = entry channel conn w.hub ≡ some tt
Watches channel conn (returned, w) = entry channel conn w.hub ≡ none

read_on-Watches :
    (channel : String) (conn : ℕ) (rounds : List (List Event × Bool)) (w : World)
    → All (λ r. All (Spares conn) r.0) rounds
    → entry channel conn w.hub ≡ some tt
    → Watches channel conn (read_on channel conn rounds w)
unfolding read_on happen
read_on-Watches channel conn [] w spared h = h
read_on-Watches channel conn ((others, true) ∷ rounds) w spared h =
    read_on-Watches channel conn rounds (happen_all others w) spared.1
      (happen_all-entry channel conn others w spared.0 h)
read_on-Watches channel conn ((others, false) ∷ rounds) w spared h =
    unregister-entry channel conn conn (happen_all others w).hub
    ∙ if_pos (ℕ_discrete conn conn) refl _ _

-- A client whose request is upgraded watches the channel that the query names for as long as its handler
-- reads, whatever other clients and messages come meanwhile, and no longer once a read fails and the
-- handler has returned. (As long as nobody else unregisters the connection and no write to it fails.)
pub handle_web_socket-Watches :
    (q : Query) (conn : ℕ) (rounds : List (List Event × Bool)) (w : World)
    → All (λ r. All (Spares conn) r.0) rounds
    → Watches (channel_of q) conn (handle_web_socket q (some conn) rounds w)
unfolding handle_web_socket
handle_web_socket-Watches q conn rounds w spared =
    read_on-Watches (channel_of q) conn rounds (happen (arrives (channel_of q) conn) w) spared (
      arrives-entry (channel_of q) (channel_of q) conn conn w
      ∙ add_conn_self (channel_of q) conn w.hub)
