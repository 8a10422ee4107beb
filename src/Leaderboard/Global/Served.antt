-- ===== src/Leaderboard/Global/Served.antt =====
-- leaderboard-poc/cmd/api/handlers.go, GET /leaderboard/top of the global scope, after a cycle of
-- leaderboard-poc/cmd/aggregator/main.go.
use mathlib.Core.List.{Permᴰ}
use classic_cheese.Prelude.{
  ℕ, zero, suc, ◌+◌, ◌≤◌, ◌<◌, ◌≡◌, refl, sym, ap, ◌∙◌, subst, String, String_discrete, List, [],
  ◌∷◌, Option, none, some, arith, if_pos, Bool-cases, inl, inr,
}
use classic_cheese.Prelude.Lists.{length, take, take-map, length-take}
use classic_cheese.Prelude.Int.{ℤ, pos, negsuc, pos_part, ◌+ℤ◌, ◌-ℤ◌, IsInt64, two_63, wrap64}
use classic_cheese.Prelude.Text.{is_empty}
use classic_cheese.Prelude.Decimal.{itoa, atoi, atoi-itoa, atoi-IsInt64}
use classic_cheese.Http.{Reply, status_ok}
use classic_cheese.Leaderboard.Score.{Float64, IsScoreOrder}
use classic_cheese.Leaderboard.Sorting.{Sort, IsSort}
use classic_cheese.Leaderboard.Redis.{
  Redis, Error, value, Z, top_n, effective_n, replace_zset, global_key,
}
use classic_cheese.Leaderboard.Mysql.{Database}
use classic_cheese.Leaderboard.Aggregator.{
  ComboKey, Order, Merged, members_of, ranked, merge_entries, run_combo,
}
use classic_cheese.Leaderboard.Aggregator.Cycle.{
  entries_read, after_reads, merged-IsRanking, run_combo_writes,
}
use classic_cheese.Leaderboard.Aggregator.Ranking.{IsRanking}
use classic_cheese.Leaderboard.Api.{
  RankedEntry, Payload, entries, or_fallback, write_json, z_to_entries, entries_from, entry_of,
  add_entry, parse_int_default,
}
use classic_cheese.Leaderboard.Api.Reads.{
  Query, sorted_set, scope_of, reply_entries, reply_listed, top_scope, handle_leaderboard_top,
}
use classic_cheese.Leaderboard.Global.Sets.{IsSets}
use classic_cheese.Leaderboard.Global.Kept.{AreInts, replace_zset-IsRanking}

rank_lem : (i : ℕ) → suc i < two_63 → wrap64 (pos 1 +ℤ pos i) ≡ pos (suc i)
unfolding wrap64 ◌+ℤ◌
rank_lem i h = ground arith

module _ {F : Type 0} where
  -- One entry for each ranked user, in order, with the ranks from the (i + 1)-st on.
  abbrev pub AreEntriesOf : ℕ → List (ℤ × F) → List (RankedEntry F) → Type 0
  AreEntriesOf i [] [] = Unit
  AreEntriesOf i [] (e ∷ es) = ⊥
  AreEntriesOf i (r ∷ rs) [] = ⊥
  AreEntriesOf i (r ∷ rs) (e ∷ es) =
      (e.rank ≡ pos (suc i)) × (e.user_id ≡ r.0) × (e.score ≡ r.1) × AreEntriesOf (suc i) rs es

  take-AreInts : (n : ℕ) (rs : List (ℤ × F)) → AreInts rs → AreInts (take n rs)
  take-AreInts zero rs h = tt
  take-AreInts (suc n) [] h = tt
  take-AreInts (suc n) (r ∷ rs) h = (h.0, take-AreInts n rs h.1)

  entries_from-AreEntriesOf :
      (atoi_error : String → Error) (i : ℕ) (rs : List (ℤ × F))
      → AreInts rs
      → i + length rs < two_63
      → (es : List (RankedEntry F)) × (entries_from atoi_error (pos 1) i (members_of rs) ≡ value es)
        × AreEntriesOf i rs es
  unfolding entries_from members_of entry_of add_entry
  entries_from-AreEntriesOf atoi_error i [] ints small = ([], refl, tt)
  entries_from-AreEntriesOf atoi_error i (r ∷ rs) ints small =
      let (es, made, are) = entries_from-AreEntriesOf atoi_error (suc i) rs ints.1 (omega arith) in
      (
        record { rank = wrap64 (pos 1 +ℤ pos i); user_id = r.0; score = r.1 } ∷ es,
        ap
              (λ named.
                entry_of atoi_error (wrap64 (pos 1 +ℤ pos i))
                  (record { score = r.1; member = itoa r.0 }) named
                  (entries_from atoi_error (pos 1) (suc i) (members_of rs)))
              (atoi-itoa r.0 ints.0)
            ∙ ap (add_entry atoi_error _) made,
        (rank_lem i (omega arith), refl, refl, are),
      )

-- The number of members that `TopN` asks for.
effective_n_lem :
    (n : ℤ)
    → IsInt64 n
    → (m : ℕ) × (effective_n n ≡ pos (suc m)) × (wrap64 (effective_n n -ℤ pos 1) ≡ pos m)
unfolding effective_n wrap64 ◌-ℤ◌
effective_n_lem (negsuc n) h = (9, ground arith, ground arith)
effective_n_lem (pos zero) h = (9, ground arith, ground arith)
effective_n_lem (pos (suc m)) h = (m, ground arith, ground arith)

parse_int_default-IsInt64 : (raw : String) (d : ℤ) → IsInt64 d → IsInt64 (parse_int_default raw d)
unfolding parse_int_default
parse_int_default-IsInt64 raw d h = elim (Bool-cases (is_empty raw)) [
  | inl e ↦ rw e h
  | inr e ↦ rw e (or_fallback-IsInt64 (atoi raw) refl)
]
  where
    or_fallback-IsInt64 : (o : Option ℤ) → atoi raw ≡ o → IsInt64 (or_fallback d o)
    or_fallback-IsInt64 none e = h
    or_fallback-IsInt64 (some x) e = atoi-IsInt64 raw x e

module _ {S F : Type 0} (redis : Redis S F) (db : Database S) (float : Float64 F)
    (parse_float : String → F) (sort : Sort (RankedEntry F)) (atoi_error : String → Error)
    (members : String → S → List (Z F)) (sets : IsSets redis float members) where
  -- The reply lists the first `n` of the ranking.
  abbrev pub RepliesTop : ℤ → List (ℤ × F) → Option (Reply (Payload F)) → Type 0
  RepliesTop n ranking reply =
      (es : List (RankedEntry F)) × AreEntriesOf 0 (take (pos_part (effective_n n)) ranking) es
      × (reply ≡ some (write_json status_ok (entries es)))

  listed :
      (n : ℤ) (ranking : List (ℤ × F)) (key : String) (zs : List (Z F)) (s t : S)
      → IsInt64 n
      → AreInts ranking
      → length ranking ≤ 50
      → members key s ≡ members_of ranking
      → top_n redis key n s ≡ (value zs, t)
      → RepliesTop n ranking
          (reply_listed redis db float parse_float sort atoi_error (pos 1) (value zs, t)).0
  unfolding top_n members_of reply_listed reply_entries z_to_entries
  listed n ranking key zs s t small ints few kept read =
      let (m, count, stop) = effective_n_lem n small in
      let found =
        sets.ranged key m s t zs
          (ap (λ b. redis.zrevrange_with_scores key (pos 0) b s) (sym stop) ∙ read) in
      let shown : zs ≡ members_of (take (pos_part (effective_n n)) ranking) =
        found
        ∙ ap (λ k. take k (members key s)) (sym (ap pos_part count))
        ∙ ap (take (pos_part (effective_n n))) kept
        ∙ take-map (pos_part (effective_n n)) _ ranking in
      let (es, made, are) =
        entries_from-AreEntriesOf atoi_error 0 (take (pos_part (effective_n n)) ranking)
          (take-AreInts _ ranking ints)
          (omega (arith, length-take (pos_part (effective_n n)) ranking)) in
      (
        es,
        are,
        ap (λ r. some (reply_entries r)) (ap (entries_from atoi_error (pos 1) 0) shown ∙ made),
      )

  asked :
      (q : Query) (combo : ComboKey) (s : S)
      → q "scope" ≡ "global"
      → q "period_type" ≡ combo.period_type
      → q "period_key" ≡ combo.period_key
      → handle_leaderboard_top redis db float parse_float sort atoi_error q s
        ≡ top_scope redis db float parse_float sort atoi_error q
            (parse_int_default (q "n") (pos 10))
            (sorted_set (global_key combo.period_type combo.period_key))
            s
  unfolding handle_leaderboard_top scope_of
  asked q combo s scope type key =
      ap
        (λ c.
          top_scope redis db float parse_float sort atoi_error q
            (parse_int_default (q "n") (pos 10)) c s)
        (if_pos (String_discrete (q "scope") "global") scope _ _
          ∙ ap (λ p. sorted_set (global_key p (q "period_key"))) type
          ∙ ap (λ k. sorted_set (global_key combo.period_type k)) key)

  module _ (merge_sort : Sort (ℤ × F)) (order : Order F) (o : IsScoreOrder float)
      (sort_laws : IsSort merge_sort) (visits_all : (m : Merged F) → Permᴰ (order.merged m) m) where
    -- The ranking that the cycle writes.
    abbrev pub cycle_ranking : ComboKey → List String → S → List (ℤ × F)
    cycle_ranking combo regions s =
        ranked float merge_sort
          (order.merged (merge_entries float (entries_read redis combo regions s) []))

    -- What the aggregator merged is what the API serves: once a cycle has written the global leaderboard
    -- of a period, and as long as nobody else writes to it, GET /leaderboard/top of the global scope
    -- replies, when Redis answers, the first users of a ranking of the entries that the cycle read, as
    -- many as are asked for, with the ranks 1, 2, 3, ... and with the users and scores of the ranking. (If
    -- DEL empties a sorted set, ZADD adds to it in the order of the scores and ZREVRANGE reads it, in
    -- a pipeline during which nobody else writes to it, scores are ordered, the sort meets its contract
    -- and the merged map is visited in some order.)
    pub run_combo-top :
        (combo : ComboKey) (regions : List String) (q : Query) (replies : List F) (zs : List (Z F))
        (s t u : S)
        → (replace_zset redis
            (global_key combo.period_type combo.period_key)
            (members_of (cycle_ranking combo regions s))
            (after_reads redis combo regions s)).0
          ≡ value replies
        → members (global_key combo.period_type combo.period_key) t
          ≡ members
              (global_key combo.period_type combo.period_key)
              (run_combo redis float merge_sort order combo regions s)
        → q "scope" ≡ "global"
        → q "period_type" ≡ combo.period_type
        → q "period_key" ≡ combo.period_key
        → top_n redis
            (global_key combo.period_type combo.period_key)
            (parse_int_default (q "n") (pos 10))
            t
          ≡ (value zs, u)
        → (ranking : List (ℤ × F)) × IsRanking float (entries_read redis combo regions s) ranking
          × RepliesTop
              (parse_int_default (q "n") (pos 10))
              ranking
              (handle_leaderboard_top redis db float parse_float sort atoi_error q t).0
    unfolding top_scope
    run_combo-top combo regions q replies zs s t u written same scope type key read =
        let place = global_key combo.period_type combo.period_key in
        let after = after_reads redis combo regions s in
        let out = replace_zset redis place (members_of (cycle_ranking combo regions s)) after in
        let (kept, holds, is, ints) =
          replace_zset-IsRanking redis float members sets (entries_read redis combo regions s)
            (cycle_ranking combo regions s) place after out.1 replies
            (merged-IsRanking redis float merge_sort order o sort_laws visits_all
              (entries_read redis combo regions s))
            (ap (λ r. (r, out.1)) written) in
        let ran = run_combo_writes redis float merge_sort order combo regions s in
        let n = parse_int_default (q "n") (pos 10) in
        (
          kept,
          is,
          subst (λ r. RepliesTop n kept r.0)
              (sym (
                asked q combo t scope type key
                ∙ ap (reply_listed redis db float parse_float sort atoi_error (pos 1)) read))
              (listed n kept place zs t u (parse_int_default-IsInt64 (q "n") (pos 10) (omega arith))
                ints is.bounded (same ∙ ap (members place) ran ∙ holds) read),
        )
