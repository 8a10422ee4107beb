-- ===== src/Livestream/Comments/Calls/Solo.antt =====
-- A call of `AddComment` (service.go) that runs alone, step by step.
use classic_cheese.Prelude.{ℕ, ◌≡◌, refl, String, List, [], ◌∷◌, Option, none, some, arith}
use classic_cheese.Prelude.Int.{ℤ}
use classic_cheese.Livestream.Comments.Hub.{
  Event, Subscriber, Hub, targets, send, send_all, publish, ◌>>=◌,
}
use classic_cheese.Livestream.Comments.Service.{
  Comment, Service, Fields, add_one, count_event, publish_comment, add_valid,
}
use classic_cheese.Livestream.Comments.Hub.Order.{IsValid}
use classic_cheese.Livestream.Comments.Service.AddComment.{
  Added, comment_of, service_after, add_valid_lem, service_after-Added,
}
use classic_cheese.Livestream.Comments.Calls.{
  Stage, checked, numbered, telling, told, counting, returned, with_heap, start_telling, advance,
}

-- `Option` binds taken apart.
>>=-eq-some :
    {A B : Type 0} (m : Option A) (k : A → Option B) {b : B}
    → (m >>= k) ≡ some b
    → (a : A) × (m ≡ some a) × (k a ≡ some b)
>>=-eq-some none k e = absurd (ground arith)
>>=-eq-some (some a) k e = (a, refl, e)

module _ (marshal : Comment → Option String) (now : ℕ) (f : Fields) where
  -- Some steps of the call and of nothing else.
  pub data Runs : Stage → Service → Stage → Service → Type 0 where
    stop : {t : Stage} {s : Service} → Runs t s t s
    more :
        {t t' t'' : Stage} {s s' s'' : Service}
        → advance marshal now f t s ≡ some (s', t')
        → Runs t' s' t'' s''
        → Runs t s t'' s''

  Runs-trans :
      {t t' t'' : Stage} {s s' s'' : Service}
      → Runs t s t' s'
      → Runs t' s' t'' s''
      → Runs t s t'' s''
  Runs-trans stop q = q
  Runs-trans (more e p) q = more e (Runs-trans p q)

  tell_loop :
      (c : Comment) (ev : Event) (ps : List ℕ) (s : Service) (heap' : List Subscriber)
      → send_all ev ps s.hub.heap ≡ some heap'
      → Runs (telling c ev ps) s (told c) (with_heap s heap')
  unfolding send_all advance with_heap
  tell_loop c ev [] s heap' e =
      let same : s.hub.heap ≡ heap' = ground arith in rw (← same) (more refl stop)
  tell_loop c ev (p ∷ ps) s heap' e =
      let (heap, sent, rest) = >>=-eq-some (send ev p s.hub.heap) (send_all ev ps) e in
      more (rw (sent)) (tell_loop c ev ps (with_heap s heap) heap' rest)

  count_loop :
      (c : Comment) (n : ℤ) (ev : Event) (ps : List ℕ) (s : Service) (heap' : List Subscriber)
      → send_all ev ps s.hub.heap ≡ some heap'
      → Runs (counting c n ev ps) s (returned c n) (with_heap s heap')
  unfolding send_all advance with_heap
  count_loop c n ev [] s heap' e =
      let same : s.hub.heap ≡ heap' = ground arith in rw (← same) (more refl stop)
  count_loop c n ev (p ∷ ps) s heap' e =
      let (heap, sent, rest) = >>=-eq-some (send ev p s.hub.heap) (send_all ev ps) e in
      more (rw (sent)) (count_loop c n ev ps (with_heap s heap) heap' rest)

  tell :
      (c : Comment) (o : Option String) (s : Service) (hub' : Hub)
      → marshal c ≡ o
      → publish_comment o f.room s.hub ≡ some hub'
      → Runs (numbered c) s (told c) (record s { hub = hub' })
  unfolding publish_comment publish advance start_telling with_heap
  tell c none s hub' m e =
      let same : s.hub ≡ hub' = ground arith in
      rw (← same) (more {t' = told c} {s' = s} (rw m) stop)
  tell c (some json) s hub' m e =
      let ev : Event = record { name = "comment"; payload = json } in
      let (heap, sent, rest) =
        >>=-eq-some (send_all ev (targets s.hub f.room) s.hub.heap)
          (λ heap. some (record (s.hub) { heap = heap })) e in
      let same : record (s.hub) { heap = heap } ≡ hub' = ground arith in
      more {t' = telling c ev (targets s.hub f.room)} {s' = s} (rw m)
        (rw (← same) (tell_loop c ev (targets s.hub f.room) s heap sent))

  count_up :
      (c : Comment) (s : Service) (hub' : Hub)
      → publish f.room (count_event (add_one f.room s.counters).1) s.hub ≡ some hub'
      → Runs
          (told c)
          s
          (returned c (add_one f.room s.counters).1)
          (record s { hub = hub'; counters = (add_one f.room s.counters).0 })
  unfolding publish advance with_heap
  count_up c s hub' e =
      let n = (add_one f.room s.counters).1 in
      let (heap, sent, rest) =
        >>=-eq-some (send_all (count_event n) (targets s.hub f.room) s.hub.heap)
          (λ heap. some (record (s.hub) { heap = heap })) e in
      let same : record (s.hub) { heap = heap } ≡ hub' = ground arith in
      more refl (
        more refl (
          rw (← same) (
            count_loop c n (count_event n) (targets s.hub f.room)
              (record s { counters = (add_one f.room s.counters).0 }) heap sent)))

  add_valid-Runs :
      (s s' : Service) (c : Comment) (n : ℤ)
      → add_valid marshal now f s ≡ some (s', c, n)
      → Runs checked s (returned c n) s'
  unfolding add_valid advance
  add_valid-Runs s s' c n e =
      let c₀ : Comment = record {
        id = (add_one f.room s.seqs).1;
        author = f.author;
        text = f.text;
        ts = now;
      } in
      let n₀ = (add_one f.room s.counters).1 in
      let seqs = (add_one f.room s.seqs).0 in
      let counters = (add_one f.room s.counters).0 in
      let finish : Hub → Option (Service × Comment × ℤ) =
        λ hub'. some (record { hub = hub'; seqs = seqs; counters = counters }, c₀, n₀) in
      let (hub, told_all, e₁) =
        >>=-eq-some (publish_comment (marshal c₀) f.room s.hub)
          (λ hub. publish f.room (count_event n₀) hub >>= finish) e in
      let (hub', counted_all, e₂) = >>=-eq-some (publish f.room (count_event n₀) hub) finish e₁ in
      let same_s : record { hub = hub'; seqs = seqs; counters = counters } ≡ s' = ground arith in
      let same_c : c₀ ≡ c = ground arith in
      let same_n : n₀ ≡ n = ground arith in
      rw (← same_s, ← same_c, ← same_n)
        (more refl (
          Runs-trans (tell c₀ (marshal c₀) (record s { seqs = seqs }) hub refl told_all)
            (count_up c₀ (record s { seqs = seqs; hub = hub }) hub' counted_all)))

  abbrev pub RunsAdding : Service → Type 0
  RunsAdding s =
      (s' : Service) × (c : Comment) × (n : ℤ) × Runs checked s (returned c n) s'
      × Added marshal now f s s' c n

  -- A call, cut at its locks, comes to its end when no other step comes between its own, and has then
  -- done what a call owes: the comment bears the next id of the room and the text it was given, the
  -- count is the next one, both are stored, no other room's counters change, and the connections of
  -- the room, and no others, are offered the comment, if it can be encoded, and then the count.
  pub checked-RunsAdding : (s : Service) → IsValid s.hub → RunsAdding s
  checked-RunsAdding s v = (
    service_after marshal now f s,
    comment_of marshal now f s,
    (add_one f.room s.counters).1,
    add_valid-Runs s _ _ _ (add_valid_lem marshal now f s v),
    service_after-Added marshal now f s v,
  )
