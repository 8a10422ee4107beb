-- ===== src/Leaderboard/HistoryWriter/Delivery.antt =====
-- leaderboard-poc/cmd/historywriter/main.go: no event is lost.
use mathlib.Core.List.{
  Permᴰ, Mem, mem-append_left, mem-append_right, mem-cons, mem-append, eq-or-mem_of_mem-cons,
  not-mem-nil, mem-cons_of_mem,
}
use mathlib.Core.List.Permᴰ
use mathlib.Core.Logic.{◌∨₁◌}
use mathlib.Core.Logic.Or
use mathlib.Core.Option.{some-injective, some-ne-none}
use classic_cheese.Prelude.{
  String, ◌↔◌, ℕ, zero, suc, ◌+◌, ◌≤◌, ◌<◌, ◌≡◌, refl, sym, ap, subst, ◌⊎◌, inl, inr, true, false,
  List, [], ◌∷◌, ◌++◌, none, some, arith,
}
use classic_cheese.Prelude.Lists.{length, length-perm}
use classic_cheese.Leaderboard.Models.{ScoreEvent, Verdict, ack, nack}
use classic_cheese.Leaderboard.Redis.{Error, Result, value, error}
use classic_cheese.Leaderboard.Mysql.Events.{EventStatements, insert_score_event, wrapped}
use classic_cheese.Leaderboard.HistoryWriter.{
  Message, verdict_of, handle_delivery, settle, run_loop,
}

-- The rows of score_events, and how often inserting may still fail.
pub record EventView (S T : Type 0) : Type 0 where
  pub events : S → List (ScoreEvent T)
  pub faults : S → ℕ

-- An INSERT that succeeds adds its row. One that fails is one of finitely many, and adds it at most.
pub record IsRecording {S T : Type 0} (db : EventStatements S T) (v : EventView S T) : Type 0 where
  pub insert_value :
      (e : ScoreEvent T) (s t : S)
      → db.insert_event e s ≡ (value tt, t)
      → (v.events t ≡ v.events s ++ e ∷ []) × (v.faults t ≤ v.faults s)
  pub insert_error :
      (e : ScoreEvent T) (s t : S) (err : Error)
      → db.insert_event e s ≡ (error err, t)
      → ((v.events t ≡ v.events s) ⊎ (v.events t ≡ v.events s ++ e ∷ []))
        × (v.faults t < v.faults s)

module _ {S T : Type 0} (db : EventStatements S T) (v : EventView S T) where
  -- What one delivery does.
  abbrev After : ScoreEvent T → S → Verdict × S → Type 0
  After e s (ack, t) = (v.events t ≡ v.events s ++ e ∷ []) × (v.faults t ≤ v.faults s)
  After e s (nack b, t) =
      (b ≡ true)
      × ((v.events t ≡ v.events s) ⊎ (v.events t ≡ v.events s ++ e ∷ []))
      × (v.faults t < v.faults s)

  module _ (recording : IsRecording db v) where
    inserted-After :
        (e : ScoreEvent T) (s : S) (out : Result (Unit {0}) × S)
        → db.insert_event e s ≡ out
        → (text : String) → After e s (verdict_of db (wrapped text out))
    unfolding verdict_of wrapped
    inserted-After e s (value done, t) h text = recording.insert_value e s t h
    inserted-After e s (error err, t) h text =
        let (events, faults) = recording.insert_error e s t err h in (refl, events, faults)

    handle_delivery-After : (e : ScoreEvent T) (s : S) → After e s (handle_delivery db (some e) s)
    unfolding handle_delivery insert_score_event
    handle_delivery-After e s = inserted-After e s (db.insert_event e s) refl _

  -- The event is recorded, or still in the queue.
  abbrev pub Known : ScoreEvent T → S → List (Message T) → Type 0
  Known e s queue = Mem e (v.events s) ∨₁ Mem (some e) queue

  abbrev Same : S → List (Message T) → S → List (Message T) → Type 0
  Same s queue t queue' = (e : ScoreEvent T) → Known e t queue' ↔ Known e s queue

  appended :
      (e d : ScoreEvent T) (xs : List (ScoreEvent T)) → Mem e (xs ++ d ∷ []) → Mem e xs ∨₁ (e ≡ d)
  appended e d xs m =
      Or.elim (hlevel) (mem-append.0 m) (λ k. Or.inl k)
        (λ k.
          Or.elim (hlevel) (eq-or-mem_of_mem-cons k) (λ p. Or.inr p) (λ k. absurd (not-mem-nil k)))

  head_of : (e d : ScoreEvent T) (queue : List (Message T)) → e ≡ d → Mem (some e) (some d ∷ queue)
  head_of e d queue p = mem-cons.1 (Or.inl (ap some p))

  -- A recorded event leaves the queue for the table.
  ack-Same :
      (d : ScoreEvent T) (s t : S) (queue : List (Message T))
      → v.events t ≡ v.events s ++ d ∷ []
      → Same s (some d ∷ queue) t queue
  ack-Same d s t queue h e = (
    λ k.
        Or.elim (hlevel) k
          (λ m.
            Or.elim (hlevel) (appended e d (v.events s) (subst (Mem e) h m)) (λ m. Or.inl m)
              (λ p. Or.inr (head_of e d queue p)))
          (λ m. Or.inr (mem-cons_of_mem (some d) m)),
    λ k.
        Or.elim (hlevel) k (λ m. Or.inl (subst (Mem e) (sym h) (mem-append_left (d ∷ []) m)))
          (λ m.
            Or.elim (hlevel) (eq-or-mem_of_mem-cons m)
              (λ p. Or.inl (
                subst (Mem e) (sym h)
                  (mem-append_right (v.events s) (mem-cons.1 (Or.inl (some-injective e d p))))))
              (λ m. Or.inr m)),
  )

  requeue-Same :
      (d : ScoreEvent T) (s t : S) (queue queue' : List (Message T))
      → (v.events t ≡ v.events s) ⊎ (v.events t ≡ v.events s ++ d ∷ [])
      → Permᴰ queue' (some d ∷ queue)
      → Same s (some d ∷ queue) t queue'
  requeue-Same d s t queue queue' (inl h) p e = (
    λ k. Or.elim (hlevel) k (λ m. Or.inl (subst (Mem e) h m)) (λ m. Or.inr (Permᴰ.mem p m)),
    λ k.
        Or.elim (hlevel) k (λ m. Or.inl (subst (Mem e) (sym h) m))
          (λ m. Or.inr (Permᴰ.mem (Permᴰ.symm p) m)),
  )
  requeue-Same d s t queue queue' (inr h) p e = (
    λ k.
        Or.elim (hlevel) k
          (λ m.
            Or.elim (hlevel) (appended e d (v.events s) (subst (Mem e) h m)) (λ m. Or.inl m)
              (λ q. Or.inr (head_of e d queue q)))
          (λ m. Or.inr (Permᴰ.mem p m)),
    λ k.
        Or.elim (hlevel) k (λ m. Or.inl (subst (Mem e) (sym h) (mem-append_left (d ∷ []) m)))
          (λ m. Or.inr (Permᴰ.mem (Permᴰ.symm p) m)),
  )

  drop-Same : (s : S) (queue : List (Message T)) → Same s (none ∷ queue) s queue
  drop-Same s queue e = (
    λ k. Or.elim (hlevel) k (λ m. Or.inl m) (λ m. Or.inr (mem-cons_of_mem none m)),
    λ k.
        Or.elim (hlevel) k (λ m. Or.inl m)
          (λ m.
            Or.elim (hlevel) (eq-or-mem_of_mem-cons m) (λ p. absurd (some-ne-none e p))
              (λ m. Or.inr m)),
  )

  -- What the loop leaves: an empty queue, and in the table the events that were there and those that
  -- the messages carried, no others.
  pub record Drains (queue : List (Message T)) (s : S) (out : List (Message T) × S) : Type 0 where
    pub emptied : out.0 ≡ []
    pub recorded :
        (e : ScoreEvent T) → Mem e (v.events out.1) ↔ (Mem e (v.events s) ∨₁ Mem (some e) queue)

  Drains-nothing : (s : S) → Drains [] s ([], s)
  Drains-nothing s = record {
    emptied = refl;
    recorded = λ e. (λ m. Or.inl m, λ k. Or.elim (hlevel) k (λ m. m) (λ m. absurd (not-mem-nil m)));
  }

  trans_iff : {A B C : Type 0} → A ↔ B → B ↔ C → A ↔ C
  trans_iff p q = (λ a. q.0 (p.0 a), λ c. p.1 (q.1 c))

  Drains-step :
      (s t : S) (queue queue' : List (Message T)) (out : List (Message T) × S)
      → Same s queue t queue'
      → Drains queue' t out
      → Drains queue s out
  Drains-step s t queue queue' out same h = record {
    emptied = h.emptied;
    recorded = λ e. trans_iff (h.recorded e) (same e);
  }

  module _ (recording : IsRecording db v)
      (requeue : Message T → List (Message T) → List (Message T))
      (again : (m : Message T) (queue : List (Message T))
        → Permᴰ (requeue m queue) (m ∷ queue)) where
    -- The rest of the loop after a delivery of the event `d`.
    delivered :
        (n : ℕ) (d : ScoreEvent T) (queue : List (Message T)) (s : S) (out : Verdict × S)
        → After d s out
        → suc (length queue) + v.faults s ≤ suc n
        → ((queue' : List (Message T)) (t : S)
            → length queue' + v.faults t ≤ n
            → Drains queue' t (run_loop requeue db n queue' t))
        → Drains
            (some d ∷ queue)
            s
            (run_loop requeue db n (settle requeue out.0 (some d) queue) out.1)
    unfolding settle
    delivered n d queue s (ack, t) h enough rest =
        Drains-step s t (some d ∷ queue) queue _ (ack-Same d s t queue h.0)
          (rest queue t (omega (arith, h.1)))
    delivered n d queue s (nack true, t) h enough rest =
        let back = again (some d) queue in
        Drains-step s t (some d ∷ queue) (requeue (some d) queue) _
          (requeue-Same d s t queue (requeue (some d) queue) h.1 back)
          (rest (requeue (some d) queue) t (omega (arith, length-perm back, h.2)))
    delivered n d queue s (nack false, t) h enough rest = absurd (ground (arith, h.0))

    -- No event is lost: if inserting fails only finitely often, the loop empties the queue within as many
    -- deliveries as there are messages and failures, however often they come back, and then the table
    -- has every event that a message carried, at least once, beside those it had, and no others. (If a message that is
    -- requeued comes back, at any place of the queue.)
    pub run_loop-Drains :
        (n : ℕ) (queue : List (Message T)) (s : S)
        → length queue + v.faults s ≤ n
        → Drains queue s (run_loop requeue db n queue s)
    unfolding run_loop
    run_loop-Drains zero [] s enough = Drains-nothing s
    run_loop-Drains zero (m ∷ queue) s enough = absurd (omega arith)
    run_loop-Drains (suc n) [] s enough = Drains-nothing s
    run_loop-Drains (suc n) (none ∷ queue) s enough =
        Drains-step s s (none ∷ queue) queue _ (drop-Same s queue)
          (run_loop-Drains n queue s (omega arith))
    run_loop-Drains (suc n) (some d ∷ queue) s enough =
        delivered n d queue s (handle_delivery db (some d) s) (handle_delivery-After recording d s)
          (omega arith) (run_loop-Drains n)
