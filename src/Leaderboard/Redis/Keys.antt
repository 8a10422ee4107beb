-- ===== src/Leaderboard/Redis/Keys.antt =====
-- leaderboard-poc/internal/redisclient/redisclient.go: the keys tell the leaderboards apart.
use Prim.Native.Char.{Char}
use Prim.Native.String.{◌++◌ as str_append}
use classic_cheese.Prelude.{◌≡◌, sym, ap, ◌∙◌, String, [], ◌∷◌}
use classic_cheese.Prelude.Text.{concat}
use classic_cheese.Prelude.Split.{Lacks, split_at, cancel_left, append_nothing, after_mark}
use classic_cheese.Leaderboard.Redis.{regional_key}

abbrev pub colon : Char
colon = ":"

-- No character is a colon.
abbrev pub HasNoColon : String → Type 0
HasNoColon = Lacks colon

-- Three parts, of which the first two hold no colon.
three_parts :
    (a b c a' b' c' : String)
    → HasNoColon a
    → HasNoColon b
    → HasNoColon a'
    → HasNoColon b'
    → concat (a ∷ ":" ∷ b ∷ ":" ∷ c ∷ []) ≡ concat (a' ∷ ":" ∷ b' ∷ ":" ∷ c' ∷ [])
    → (a ≡ a') × (b ≡ b') × (c ≡ c')
unfolding concat
three_parts a b c a' b' c' ha hb ha' hb' e =
    let (p, rest) =
      split_at colon a a' (str_append b (str_append ":" (str_append c "")))
        (str_append b' (str_append ":" (str_append c' ""))) ha ha'
        (ap (str_append a)
            (sym (after_mark colon (str_append b (str_append ":" (str_append c "")))))
          ∙ e
          ∙ ap (str_append a')
              (after_mark colon (str_append b' (str_append ":" (str_append c' ""))))) in
    let (q, last) = split_at colon b b' (str_append c "") (str_append c' "") hb hb' (
      ap (str_append b) (sym (after_mark colon (str_append c "")))
      ∙ rest
      ∙ ap (str_append b') (after_mark colon (str_append c' ""))) in
    (p, q, sym (append_nothing c) ∙ last ∙ append_nothing c')

-- Two leaderboards of regions have the same key only if they are of the same region and the same
-- period. (As long as regions and period types hold no colon.)
pub regional_key_inj :
    (region period_type period_key region' period_type' period_key' : String)
    → HasNoColon region
    → HasNoColon period_type
    → HasNoColon region'
    → HasNoColon period_type'
    → regional_key region period_type period_key ≡ regional_key region' period_type' period_key'
    → (region ≡ region') × (period_type ≡ period_type') × (period_key ≡ period_key')
unfolding regional_key
regional_key_inj r t k r' t' k' hr ht hr' ht' e =
    three_parts r t k r' t' k' hr ht hr' ht' (cancel_left "lb:regional:" _ _ e)
