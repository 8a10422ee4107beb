-- ===== src/Leaderboard/Notifier/Announce.antt =====
-- leaderboard-poc/cmd/notifier/main.go, `handleEvent`: what is announced, and what a redelivered
-- message does.
use classic_cheese.Prelude.{
  String, String_discrete, ◌≡◌, ◌≢◌, refl, ◌∙◌, ap, sym, subst, [], ◌∷◌, Option, none, some, arith,
  ◌⊎◌, inl, inr, if_pos, if_neg, Option-cases,
}
use classic_cheese.Prelude.Lists.{All}
use classic_cheese.Prelude.Int.{ℤ, pos, ◌-ℤ◌, ◌≤ℤ◌, wrap64}
use classic_cheese.Prelude.Dict.{
  lookup, lookup-insert_self, lookup-insert_ne, insert-insert, All-lookup,
}
use classic_cheese.Prelude.Text.{concat}
use classic_cheese.Prelude.Decimal.{itoa}
use classic_cheese.Leaderboard.Models.{ScoreEvent, Notification}
use classic_cheese.Leaderboard.Redis.{
  Redis, Result, value, error, rank, publish, notification_channel, regional_key,
}
use classic_cheese.Leaderboard.Notifier.{
  Ranks, Handled, published, combo_key, previous, or_zero, set_rank, reason_of, notification,
  send_payload, announce, memory_key, on_rank, handle_event,
}
use classic_cheese.Leaderboard.Notifier.Reasons.{
  Enters, Climbs, IsRank, reason_of_lem, top10_ne_none, jump_ne_none,
}

-- Every rank in the memory is one that Redis gave.
abbrev pub Remembers : Ranks → Type 0
Remembers = All (λ c. IsRank c.1)

previous-known :
    (key : String) (ranks : Ranks)
    → Remembers ranks
    → (previous key ranks ≡ pos 0) ⊎ IsRank (previous key ranks)
unfolding previous
previous-known key ranks h = elim (Option-cases (lookup String_discrete key ranks)) [
  | inl e ↦ inl (ap or_zero e)
  | inr (r, e) ↦ inr (rw e (All-lookup String_discrete (λ c. IsRank c.1) key ranks h e))
]

-- A rank that was just heard of is no news.
reason_of-same :
    (threshold rank : ℤ) → pos 0 ≤ℤ threshold → IsRank rank → reason_of threshold rank rank ≡ ""
unfolding reason_of ◌-ℤ◌ wrap64
reason_of-same threshold rank h k = ground arith

-- What Redis answers for the user of the event.
abbrev pub rank_answer :
    {S F T : Type 0} → Redis S F → ScoreEvent T → S → Result (Option (ℤ × F)) × S
rank_answer redis event s =
    rank redis (regional_key event.region event.period_type event.period_key) (itoa event.user_id) s

module _ {S F T : Type 0} (redis : Redis S F) (marshal : Notification F T → Result String) (now : T)
    (threshold : ℤ) where
  -- What a notification says of the event, the rank and the one before.
  abbrev pub Says : ScoreEvent T → ℤ → ℤ → F → String → Notification F T → Type 0
  Says event r before x reason note =
      (note.user_id ≡ event.user_id)
      × (note.scope ≡ "regional")
      × (note.region ≡ event.region)
      × (note.period_type ≡ event.period_type)
      × (note.period_key ≡ event.period_key)
      × (note.rank ≡ r)
      × (note.previous_rank ≡ before)
      × (note.score ≡ x)
      × (note.reason ≡ reason)
      × (note.timestamp ≡ now)

  -- How PUBLISH on a channel ends the handling.
  abbrev pub EndsAs : Result (Unit {0}) × S → Handled S → Type 0
  EndsAs (value done, t) h = (h.failure ≡ none) × (h.state ≡ t)
  EndsAs (error e, t) h = (h.failure ≡ some e) × (h.state ≡ t)

  -- The payload goes to the channel of the event's region and period, which names them.
  abbrev pub IsSent : ScoreEvent T → S → Result String → Handled S → Type 0
  IsSent event s (error e) h = (h.failure ≡ some e) × (h.state ≡ s)
  IsSent event s (value payload) h =
      EndsAs
        (redis.publish_to
          (concat (
            "notifications:" ∷ "regional" ∷ ":" ∷ event.region ∷ ":" ∷ event.period_type ∷ ":"
            ∷ event.period_key ∷ []))
          payload s)
        h

  -- Where the memory keeps the rank of a user in a region and a period.
  abbrev place : ScoreEvent T → String
  place event = concat (
      itoa event.user_id
      ∷ ":"
      ∷ event.region
      ∷ ":"
      ∷ event.period_type
      ∷ ":"
      ∷ event.period_key
      ∷ [])

  -- What the memory says, 0 for nothing.
  abbrev before_of : ScoreEvent T → Ranks → ℤ
  before_of event ranks = or_zero (lookup String_discrete (place event) ranks)

  -- The rank is remembered there, and nothing else changes.
  abbrev pub Remembered : ScoreEvent T → Ranks → ℤ → Ranks → Type 0
  Remembered event ranks r ranks' =
      (lookup String_discrete (place event) ranks' ≡ some r)
      × ((k : String)
          → place event ≢ k
          → lookup String_discrete k ranks' ≡ lookup String_discrete k ranks)

  abbrev pub Sends : ScoreEvent T → Ranks → ℤ → F → S → String → Handled S → Type 0
  Sends event ranks r x s reason h =
      (note : Notification F T) × Says event r (before_of event ranks) x reason note
      × IsSent event s (marshal note) h

  -- The rank is remembered, and the notification is sent that the rank calls for, given the one
  -- before, or none.
  abbrev pub Announces : ScoreEvent T → Ranks → ℤ → F → S → Handled S → Type 0
  Announces event ranks r x s h =
      let before = before_of event ranks in
      Remembered event ranks r h.ranks
      × (Enters r before → Sends event ranks r x s "top10" h)
      × ((¬ Enters r before) → Climbs threshold r before → Sends event ranks r x s "rank_jump" h)
      × ((¬ Enters r before) → (¬ Climbs threshold r before) → (h.failure ≡ none) × (h.state ≡ s))

  published-EndsAs :
      (ranks : Ranks) (out : Result (Unit {0}) × S) → EndsAs out (published ranks out)
  unfolding published
  published-EndsAs ranks (value done, t) = (refl, refl)
  published-EndsAs ranks (error e, t) = (refl, refl)

  published-ranks :
      (ranks : Ranks) (out : Result (Unit {0}) × S) → (published ranks out).ranks ≡ ranks
  unfolding published
  published-ranks ranks (value done, t) = refl
  published-ranks ranks (error e, t) = refl

  send_payload-IsSent :
      (event : ScoreEvent T) (ranks : Ranks) (m : Result String) (s : S)
      → IsSent event s m (send_payload redis event ranks m s)
  unfolding send_payload publish notification_channel
  send_payload-IsSent event ranks (error e) s = (refl, refl)
  send_payload-IsSent event ranks (value payload) s = published-EndsAs ranks _

  send_payload-ranks :
      (event : ScoreEvent T) (ranks : Ranks) (m : Result String) (s : S)
      → (send_payload redis event ranks m s).ranks ≡ ranks
  unfolding send_payload
  send_payload-ranks event ranks (error e) s = refl
  send_payload-ranks event ranks (value payload) s = published-ranks ranks _

  announce-ranks :
      (event : ScoreEvent T) (ranks : Ranks) (r p : ℤ) (x : F) (reason : String) (s : S)
      → (announce redis marshal now event ranks r p x reason s).ranks ≡ ranks
  unfolding announce
  announce-ranks event ranks r p x reason s = elim (String_discrete reason "") [
    | yes e ↦ ap {A = Handled S} (λ h. h.ranks) (if_pos (String_discrete reason "") e _ _)
    | no n ↦
        ap {A = Handled S} (λ h. h.ranks) (if_neg (String_discrete reason "") n _ _)
        ∙ send_payload-ranks event ranks _ s
  ]

  set_rank-Remembered :
      (event : ScoreEvent T) (ranks : Ranks) (r : ℤ)
      → Remembered event ranks r (set_rank (memory_key event) r ranks)
  unfolding set_rank memory_key combo_key
  set_rank-Remembered event ranks r = (
    lookup-insert_self String_discrete _ r ranks,
    λ k other. lookup-insert_ne String_discrete _ k r ranks other,
  )

  notification-Sends :
      (event : ScoreEvent T) (ranks after : Ranks) (r : ℤ) (x : F) (s : S) (reason : String)
      (h : Handled S)
      → h
        ≡ send_payload redis event after
            (marshal (notification now event r (previous (memory_key event) ranks) x reason))
            s
      → Sends event ranks r x s reason h
  unfolding notification previous memory_key combo_key
  notification-Sends event ranks after r x s reason h e = (
    _,
    (refl, refl, refl, refl, refl, refl, refl, refl, refl, refl),
    subst (IsSent event s _) (sym e) (send_payload-IsSent event after _ s),
  )

  handle_event-ranked :
      (event : ScoreEvent T) (ranks : Ranks) (s s' : S) (r : ℤ) (x : F)
      → rank_answer redis event s ≡ (value (some (r, x)), s')
      → handle_event redis marshal now threshold event ranks s
        ≡ announce redis marshal now event
            (set_rank (memory_key event) r ranks)
            r
            (previous (memory_key event) ranks)
            x
            (reason_of threshold r (previous (memory_key event) ranks))
            s'
  unfolding handle_event on_rank
  handle_event-ranked event ranks s s' r x e =
      ap (on_rank redis marshal now threshold event ranks) e

  announce-reason :
      (event : ScoreEvent T) (ranks : Ranks) (r p : ℤ) (x : F) (s : S) (found reason : String)
      → found ≡ reason
      → reason ≢ ""
      → announce redis marshal now event ranks r p x found s
        ≡ send_payload redis event ranks (marshal (notification now event r p x reason)) s
  unfolding announce
  announce-reason event ranks r p x s found reason e ne =
      rw e (if_neg (String_discrete reason "") ne _ _)

  announce-nothing :
      (event : ScoreEvent T) (ranks : Ranks) (r p : ℤ) (x : F) (s : S) (found : String)
      → found ≡ ""
      → announce redis marshal now event ranks r p x found s
        ≡ record { failure = none; ranks = ranks; state = s }
  unfolding announce
  announce-nothing event ranks r p x s found e = rw e (if_pos (String_discrete "" "") refl _ _)

  -- If Redis ranks the user, the rank is remembered for the user in this region and period, and
  -- nothing else. If the user entered the top ten, a "top10" notification is published on the channel
  -- of the region and the period, and if not so and the user climbed by more than the threshold, a
  -- "rank_jump" one; it holds the user, the region, the period, the rank, the one before, the score
  -- and the time, and handling the event fails exactly as encoding or publishing it does. In all
  -- other cases nothing is sent. (The ranks remembered so far are positive 64-bit numbers.)
  pub handle_event-Announces :
      (event : ScoreEvent T) (ranks : Ranks) (s s' : S) (r : ℤ) (x : F)
      → Remembers ranks
      → IsRank r
      → rank_answer redis event s ≡ (value (some (r, x)), s')
      → Announces event ranks r x s' (handle_event redis marshal now threshold event ranks s)
  unfolding previous memory_key combo_key
  handle_event-Announces event ranks s s' r x known h e =
      let before = previous (memory_key event) ranks in
      let says =
        reason_of_lem threshold r before h (previous-known (memory_key event) ranks known) in
      let run = handle_event-ranked event ranks s s' r x e in
      let after = set_rank (memory_key event) r ranks in
      (
        subst (Remembered event ranks r)
            (sym (ap (λ k. k.ranks) run ∙ announce-ranks event after r before x _ s'))
            (set_rank-Remembered event ranks r),
        λ p.
            notification-Sends event ranks after r x s' "top10" _ (
              run ∙ announce-reason event after r before x s' _ "top10" (says.0.1 p) top10_ne_none),
        λ n c. notification-Sends event ranks after r x s' "rank_jump" _ (
            run
            ∙ announce-reason event after r before x s' _ "rank_jump" (says.1.1 (n, c))
                jump_ne_none),
        λ n c.
            let nothing = run ∙ announce-nothing event after r before x s' _ (says.2.1 (n, c)) in
            (ap (λ k. k.failure) nothing, ap (λ k. k.state) nothing),
      )

  previous-set_rank :
      (key : String) (r : ℤ) (ranks : Ranks) → previous key (set_rank key r ranks) ≡ r
  unfolding previous set_rank
  previous-set_rank key r ranks = ap or_zero (lookup-insert_self String_discrete key r ranks)

  set_rank-twice :
      (key : String) (r : ℤ) (ranks : Ranks)
      → set_rank key r (set_rank key r ranks) ≡ set_rank key r ranks
  unfolding set_rank
  set_rank-twice key r ranks = insert-insert String_discrete key r ranks

  -- Handling an event once its rank is in the memory, while Redis still gives this rank, sends
  -- nothing, leaves the memory and reports success, also if an earlier handling stored the rank and
  -- failed to send. (The threshold is not negative.)
  pub handle_event-again :
      (event : ScoreEvent T) (ranks : Ranks) (s s' : S) (r : ℤ) (x : F)
      → pos 0 ≤ℤ threshold
      → IsRank r
      → rank_answer redis event s ≡ (value (some (r, x)), s')
      → handle_event redis marshal now threshold event (set_rank (memory_key event) r ranks) s
        ≡ record { failure = none; ranks = set_rank (memory_key event) r ranks; state = s' }
  handle_event-again event ranks s s' r x t h e =
      let key = memory_key event in
      handle_event-ranked event (set_rank key r ranks) s s' r x e
      ∙ announce-nothing event (set_rank key r (set_rank key r ranks)) r
          (previous key (set_rank key r ranks)) x s' _
          (ap (reason_of threshold r) (previous-set_rank key r ranks)
            ∙ reason_of-same threshold r t h)
      ∙ ap (λ m. record { failure = none; ranks = m; state = s' }) (set_rank-twice key r ranks)
