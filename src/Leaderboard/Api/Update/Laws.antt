-- ===== src/Leaderboard/Api/Update/Laws.antt =====
-- What POST /score/update of leaderboard-poc relies on: the effect of ZINCRBY and INCRBY, and that the
-- three periods have keys of their own.
use Prim.Native.String.{◌++◌ as str_append}
use classic_cheese.Prelude.{◌≡◌, ◌≢◌, sym, ap, ◌∙◌, String, List, [], ◌∷◌}
use classic_cheese.Prelude.Lists.{get_or}
use classic_cheese.Prelude.Int.{ℤ, pos, ◌+ℤ◌}
use classic_cheese.Prelude.Text.{concat}
use classic_cheese.Prelude.Split.{split_at, cancel_left, after_mark}
use classic_cheese.Prelude.Decimal.{itoa}
use classic_cheese.Leaderboard.Score.{Float64}
use classic_cheese.Leaderboard.Models.{ScoreEvent}
use classic_cheese.Leaderboard.Models.Period.{Date}
use classic_cheese.Leaderboard.Redis.{Redis, value, zincrby, incrby, regional_key, user_score_key}
use classic_cheese.Leaderboard.Redis.Keys.{HasNoColon, colon}

-- Two views of the state: the score of a member of a sorted set, and the number that a key holds, 0
-- for one that is not there.
pub record Views (S F : Type 0) : Type 0 where
  pub score_at : String → String → S → F
  pub number_at : String → S → ℤ
  pub plus : F → F → F

-- A pipeline of ZINCRBY and INCRBY that succeeds adds to its member and to its key and to nothing
-- else, and replies the new score first; an event for the broker changes no score.
pub record IsLedger {S F : Type 0} (redis : Redis S F) (float : Float64 F)
    (emit : ScoreEvent Date → S → S) (views : Views S F) : Type 0 where
  pub incremented :
      (zset key member : String) (x : F) (n : ℤ) (s s' : S) (replies : List F)
      → redis.exec (zincrby zset x member ∷ incrby key n ∷ []) s ≡ (value replies, s')
      → (views.score_at zset member s' ≡ views.plus (views.score_at zset member s) x)
        × (get_or replies 0 (float.of_int (pos 0)) ≡ views.score_at zset member s')
        × (views.number_at key s' ≡ views.number_at key s +ℤ n)
  pub other_scores :
      (zset key member : String) (x : F) (n : ℤ) (s s' : S) (replies : List F)
      → redis.exec (zincrby zset x member ∷ incrby key n ∷ []) s ≡ (value replies, s')
      → (k m : String) → ¬ ((k ≡ zset) × (m ≡ member))
      → views.score_at k m s' ≡ views.score_at k m s
  pub other_numbers :
      (zset key member : String) (x : F) (n : ℤ) (s s' : S) (replies : List F)
      → redis.exec (zincrby zset x member ∷ incrby key n ∷ []) s ≡ (value replies, s')
      → (k : String) → k ≢ key
      → views.number_at k s' ≡ views.number_at k s
  pub emitted_scores :
      (e : ScoreEvent Date) (s : S) (k m : String)
      → views.score_at k m (emit e s) ≡ views.score_at k m s
  pub emitted_numbers :
      (e : ScoreEvent Date) (s : S) (k : String)
      → views.number_at k (emit e s) ≡ views.number_at k s

-- The first part that two texts of the form "part:rest" agree on.
first_part :
    (p q x y : String)
    → HasNoColon p
    → HasNoColon q
    → str_append p (str_append ":" x) ≡ str_append q (str_append ":" y)
    → p ≡ q
first_part p q x y hp hq e =
    (split_at colon p q x y hp hq
      (ap (str_append p) (sym (after_mark colon x)) ∙ e ∙ ap (str_append q) (after_mark colon y))).0

-- One region has different keys for different period types, and so has one user.
pub regional_key-types :
    (region p q k l : String)
    → HasNoColon p
    → HasNoColon q
    → regional_key region p k ≡ regional_key region q l
    → p ≡ q
unfolding regional_key concat
regional_key-types region p q k l hp hq e =
    first_part p q _ _ hp hq
      (cancel_left ":" _ _ (cancel_left region _ _ (cancel_left "lb:regional:" _ _ e)))

pub user_score_key-types :
    (user_id : ℤ) (p q k l : String)
    → HasNoColon p
    → HasNoColon q
    → user_score_key user_id p k ≡ user_score_key user_id q l
    → p ≡ q
unfolding user_score_key concat
user_score_key-types user_id p q k l hp hq e =
    first_part p q _ _ hp hq
      (cancel_left ":" _ _ (cancel_left (itoa user_id) _ _ (cancel_left "user_score:" _ _ e)))
