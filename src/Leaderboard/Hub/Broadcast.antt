-- ===== src/Leaderboard/Hub/Broadcast.antt =====
-- leaderboard-poc/cmd/api/hub.go, `broadcast`: who watches a channel after a message.
use classic_cheese.Prelude.{
  ℕ, ℕ_discrete, ◌≡◌, ◌≢◌, refl, sym, ap, ◌∙◌, String, String_discrete, Bool, true, false, ◌&&◌,
  ◌||◌, List, [], ◌∷◌, Option, none, some, map, ite, arith, Bool-cases, inl, inr, if◌then◌else◌,
  ◌==◌,
}
use classic_cheese.Prelude.Lists.{has}
use classic_cheese.Prelude.Dict.{lookup, erase, lookup-insert_self, lookup-insert_ne, lookup-erase}
use classic_cheese.Leaderboard.Hub.{
  Hub, Conns, or_empty, watchers, delete_conn, unregister, write_all, broadcast,
}

-- The entry of a connection among the watchers of a channel.
abbrev pub entry : String → ℕ → Hub → Option (Unit {0})
entry channel c h = lookup ℕ_discrete c (watchers channel h)

nobody : {P : Type 0} (d : Dec P) (o : Option (Unit {0})) → o ≡ none → o ≡ ite d none o
nobody (yes p) o e = e
nobody (no n) o e = refl

delete_conn-entry :
    (channel : String) (d c : ℕ) (h : Hub) (set : Option Conns)
    → lookup String_discrete channel h.conns ≡ set
    → entry channel c (delete_conn channel d set h) ≡ ite (ℕ_discrete d c) none (entry channel c h)
unfolding delete_conn watchers lookup
delete_conn-entry channel d c h none e =
    nobody (ℕ_discrete d c) _ (ap (λ o. lookup ℕ_discrete c (or_empty o)) e)
delete_conn-entry channel d c h (some set) e =
    rw (lookup-insert_self String_discrete channel (erase ℕ_discrete d set) h.conns, e)
      (lookup-erase ℕ_discrete d c set)

delete_conn-others :
    (channel r : String) (d c : ℕ) (h : Hub) (set : Option Conns)
    → channel ≢ r
    → entry r c (delete_conn channel d set h) ≡ entry r c h
unfolding delete_conn watchers
delete_conn-others channel r d c h none n = refl
delete_conn-others channel r d c h (some set) n =
    ap (λ o. lookup ℕ_discrete c (or_empty o))
      (lookup-insert_ne String_discrete channel r (erase ℕ_discrete d set) h.conns n)

pub unregister-entry :
    (channel : String) (d c : ℕ) (h : Hub)
    → entry channel c (unregister channel d h) ≡ ite (ℕ_discrete d c) none (entry channel c h)
unfolding unregister
unregister-entry channel d c h = delete_conn-entry channel d c h _ refl

pub unregister-others :
    (channel r : String) (d c : ℕ) (h : Hub)
    → channel ≢ r
    → entry r c (unregister channel d h) ≡ entry r c h
unfolding unregister
unregister-others channel r d c h n = delete_conn-others channel r d c h _ n

module _ (fails : ℕ → Bool) where
  failed_write :
      (channel : String) (c d : ℕ) (cs : List ℕ) (h : Hub)
      → fails d ≡ true
      → Dec (d ≡ c)
      → (if fails c && has c cs then none else entry channel c (unregister channel d h))
        ≡ (if fails c && (c == d || has c cs) then none else entry channel c h)
  failed_write channel c d cs h e (yes p) =
      ground (arith, sym (ap fails p) ∙ e, unregister-entry channel d c h)
  failed_write channel c d cs h e (no n) = ground (arith, unregister-entry channel d c h)

  good_write :
      (channel : String) (c d : ℕ) (cs : List ℕ) (h : Hub)
      → fails d ≡ false
      → Dec (d ≡ c)
      → (if fails c && has c cs then none else entry channel c h)
        ≡ (if fails c && (c == d || has c cs) then none else entry channel c h)
  good_write channel c d cs h e (yes p) = ground (arith, sym (ap fails p) ∙ e)
  good_write channel c d cs h e (no n) = ground arith

  write_all-entry :
      (channel : String) (c : ℕ) (cs : List ℕ) (h : Hub)
      → entry channel c (write_all fails channel cs h)
        ≡ (if fails c && has c cs then none else entry channel c h)
  unfolding write_all has
  write_all-entry channel c [] h = ground arith
  write_all-entry channel c (d ∷ cs) h = elim (Bool-cases (fails d)) [
    | inl e ↦ rw e (
        write_all-entry channel c cs (unregister channel d h)
        ∙ failed_write channel c d cs h e (ℕ_discrete d c))
    | inr e ↦ rw e (write_all-entry channel c cs h ∙ good_write channel c d cs h e (ℕ_discrete d c))
  ]

  write_all-others :
      (channel r : String) (c : ℕ) (cs : List ℕ) (h : Hub)
      → channel ≢ r
      → entry r c (write_all fails channel cs h) ≡ entry r c h
  unfolding write_all
  write_all-others channel r c [] h n = refl
  write_all-others channel r c (d ∷ cs) h n = elim (Bool-cases (fails d)) [
    | inl e ↦ rw e (
        write_all-others channel r c cs (unregister channel d h) n
        ∙ unregister-others channel r d c h n)
    | inr e ↦ rw e (write_all-others channel r c cs h n)
  ]

  -- Who watches the channel is written to.
  absent :
      (c : ℕ) (set : Conns) → has c (map (λ p. p.0) set) ≡ false → lookup ℕ_discrete c set ≡ none
  unfolding has lookup
  absent c [] e = refl
  absent c ((d, tt) ∷ set) e = ground (arith, absent c set)

  only_watchers :
      (c : ℕ) (set : Conns)
      → (if fails c && has c (map (λ p. p.0) set) then none else lookup ℕ_discrete c set)
        ≡ (if fails c then none else lookup ℕ_discrete c set)
  only_watchers c set = elim (Bool-cases (has c (map (λ p. p.0) set))) [
    | inl e ↦ ground arith
    | inr e ↦ ground (arith, absent c set e)
  ]

  -- After a message on a channel exactly those still watch it who did and whose write did not fail,
  -- and the other channels have the watchers they had.
  pub broadcast-entry :
      (channel : String) (h : Hub) (c : ℕ)
      → (entry channel c (broadcast fails channel h)
          ≡ (if fails c then none else entry channel c h))
        × ((r : String) → channel ≢ r → entry r c (broadcast fails channel h) ≡ entry r c h)
  unfolding broadcast
  broadcast-entry channel h c = (
    write_all-entry channel c _ h ∙ only_watchers c (watchers channel h),
    λ r n. write_all-others channel r c _ h n,
  )
