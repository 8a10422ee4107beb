-- ===== src/Leaderboard/Redis.antt =====
-- leaderboard-poc/internal/redisclient/redisclient.go: the key scheme and the access patterns.
-- The server and go-redis are a record of commands. A command turns the state of the world, where
-- other clients write too, into its result and the state after it; `redis.Nil` is one of its errors.
pub mod Keys
pub mod Results
use classic_cheese.Prelude.{String, List, [], ◌∷◌, Option, map, if◌then◌else◌}
use classic_cheese.Prelude.Lists.{get_or}
use classic_cheese.Prelude.Int.{ℤ, pos, ◌+ℤ◌, ◌-ℤ◌, leb_ℤ, ltb_ℤ, wrap64}
use classic_cheese.Prelude.Text.{concat}
use classic_cheese.Prelude.Decimal.{itoa}
use classic_cheese.Leaderboard.Score.{Float64}

pub data Error : Type 0 where
  nil : Error
  failed : String → Error

-- `err.Error()`.
unfoldable pub message : Error → String
message nil = "redis: nil"
message (failed text) = text

pub data Result (A : Type 0) : Type 0 where
  value : A → Result A
  error : Error → Result A

-- `redis.Z`.
pub record Z (F : Type 0) : Type 0 where
  pub score : F
  pub member : String

pub data Command (F : Type 0) : Type 0 where
  del : String → Command F
  zadd : String → List (Z F) → Command F
  zincrby : String → F → String → Command F
  incrby : String → ℤ → Command F

-- `exec` sends a pipeline; its value lists the numbers that the commands reply.
pub record Redis (S F : Type 0) : Type 0 where
  pub zrevrank : String → String → S → Result ℤ × S
  pub zscore : String → String → S → Result F × S
  pub zrevrange_with_scores : String → ℤ → ℤ → S → Result (List (Z F)) × S
  pub mget : List String → S → Result (List (Option String)) × S
  pub exec : List (Command F) → S → Result (List F) × S
  pub publish_to : String → String → S → Result (Unit {0}) × S

unfoldable pub regional_key : String → String → String → String
unfolding concat
regional_key region period_type period_key =
    concat ("lb:regional:" ∷ region ∷ ":" ∷ period_type ∷ ":" ∷ period_key ∷ [])

unfoldable pub global_key : String → String → String
unfolding concat
global_key period_type period_key = concat ("lb:global:" ∷ period_type ∷ ":" ∷ period_key ∷ [])

unfoldable pub user_score_key : ℤ → String → String → String
unfolding concat itoa
user_score_key user_id period_type period_key =
    concat ("user_score:" ∷ itoa user_id ∷ ":" ∷ period_type ∷ ":" ∷ period_key ∷ [])

unfoldable pub notification_channel : String → String → String → String → String
unfolding concat
notification_channel scope region period_type period_key =
    concat ("notifications:" ∷ scope ∷ ":" ∷ region ∷ ":" ∷ period_type ∷ ":" ∷ period_key ∷ [])

-- The first index that `Around` asks for.
unfoldable pub around_start : ℤ → ℤ → ℤ
unfolding wrap64 ◌-ℤ◌
around_start rank count =
    let start = wrap64 (rank -ℤ count) in if ltb_ℤ start (pos 0) then pos 0 else start

unfoldable pub effective_n : ℤ → ℤ
effective_n n = if leb_ℤ n (pos 0) then pos 10 else n

module _ {S F : Type 0} (redis : Redis S F) where
  unfoldable pub top_n : String → ℤ → S → Result (List (Z F)) × S
  unfolding effective_n wrap64 ◌-ℤ◌
  top_n key n s = redis.zrevrange_with_scores key (pos 0) (wrap64 (effective_n n -ℤ pos 1)) s

  -- `none` is `ok = false`.
  unfoldable pub ranked_with : ℤ → Result F × S → Result (Option (ℤ × F)) × S
  unfolding wrap64 ◌+ℤ◌
  ranked_with z_rank (value z_score, s) =
      (value (Option.some (wrap64 (z_rank +ℤ pos 1), z_score)), s)
  ranked_with z_rank (error e, s) = (error e, s)

  unfoldable pub rank_of : String → String → Result ℤ × S → Result (Option (ℤ × F)) × S
  unfolding ranked_with
  rank_of key member (value z_rank, s) = ranked_with z_rank (redis.zscore key member s)
  rank_of key member (error nil, s) = (value Option.none, s)
  rank_of key member (error (failed text), s) = (error (failed text), s)

  unfoldable pub rank : String → String → S → Result (Option (ℤ × F)) × S
  unfolding rank_of
  rank key member s = rank_of key member (redis.zrevrank key member s)

  unfoldable pub around_of : String → ℤ → Result ℤ × S → Result (List (Z F)) × S
  unfolding around_start wrap64 ◌+ℤ◌
  around_of key count (value rank, s) =
      redis.zrevrange_with_scores key (around_start rank count) (wrap64 (rank +ℤ count)) s
  around_of key count (error nil, s) = (value [], s)
  around_of key count (error (failed text), s) = (error (failed text), s)

  unfoldable pub around : String → String → ℤ → S → Result (List (Z F)) × S
  unfolding around_of
  around key member count s = around_of key count (redis.zrevrank key member s)

  unfoldable pub replace_commands : String → List (Z F) → List (Command F)
  replace_commands key [] = del key ∷ []
  replace_commands key (z ∷ zs) = del key ∷ zadd key (z ∷ zs) ∷ []

  unfoldable pub replace_zset : String → List (Z F) → S → Result (List F) × S
  unfolding replace_commands
  replace_zset key members s = redis.exec (replace_commands key members) s

  unfoldable pub mget_user_scores : List ℤ → String → String → S → Result (List (Option String)) × S
  unfolding user_score_key
  mget_user_scores user_ids period_type period_key s =
      redis.mget (map (λ id. user_score_key id period_type period_key) user_ids) s

  unfoldable pub publish : String → String → S → Result (Unit {0}) × S
  publish channel payload s = redis.publish_to channel payload s

  module _ (float : Float64 F) where
    unfoldable pub increment_commands : String → ℤ → String → String → ℤ → List (Command F)
    unfolding regional_key user_score_key itoa
    increment_commands region user_id period_type period_key delta =
        zincrby (regional_key region period_type period_key) (float.of_int delta) (itoa user_id)
        ∷ incrby (user_score_key user_id period_type period_key) delta
        ∷ []

    unfoldable pub incremented : ℤ → String → Result (List F) × S → Result F × S
    unfolding concat itoa message
    incremented user_id zset_key (value replies, s) =
        (value (get_or replies 0 (float.of_int (pos 0))), s)
    incremented user_id zset_key (error e, s) = (
      error (
          failed (
            concat (
              "incrementing score for user "
              ∷ itoa user_id
              ∷ " in "
              ∷ zset_key
              ∷ ": "
              ∷ message e
              ∷ []))),
      s,
    )

    unfoldable pub increment_score : String → ℤ → String → String → ℤ → S → Result F × S
    unfolding increment_commands incremented regional_key
    increment_score region user_id period_type period_key delta s =
        incremented user_id (regional_key region period_type period_key)
          (redis.exec (increment_commands region user_id period_type period_key delta) s)
