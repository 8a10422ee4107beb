-- ===== src/Leaderboard/Models/Period/Keys.antt =====
-- leaderboard-poc/internal/models/models.go: which times share a period key.
use Prim.Native.Char.{Char}
use Prim.Native.String.{◌++◌ as str_append}
use Prim.Native.String.append
use classic_cheese.Prelude.{
  ℕ, ◌/◌, ◌≡◌, ◌↔◌, refl, sym, ap, ◌∙◌, String, String_discrete, [], ◌∷◌, arith, ◌≢◌, if_pos,
  if_neg, ne_by_test,
}
use classic_cheese.Prelude.Text.{concat}
use classic_cheese.Prelude.Split.{Lacks, split_at, append_nothing, after_mark, cancel_left}
use classic_cheese.Prelude.Decimal.{pad, pad_inj, pad-Lacks}
use classic_cheese.Leaderboard.Models.Period.{
  Date, day_number, iso_week, daily_key, weekly_text, weekly_key, monthly_key, period_key,
}
use classic_cheese.Leaderboard.Models.Period.Calendar.{IsDate, iso_week-same, pair_eq}

abbrev dash : Char
dash = "-"

pad-no_dash : (w n : ℕ) → Lacks dash (pad w n)
pad-no_dash w n = pad-Lacks dash w n (omega arith)

-- A number, a dash, and the rest.
dash_parts :
    (w m n : ℕ) (x y : String)
    → str_append (pad w m) (str_append "-" x) ≡ str_append (pad w n) (str_append "-" y)
    → (m ≡ n) × (x ≡ y)
dash_parts w m n x y e =
    let (p, q) = split_at dash (pad w m) (pad w n) x y (pad-no_dash w m) (pad-no_dash w n) (
      ap (str_append (pad w m)) (sym (after_mark dash x))
      ∙ e
      ∙ ap (str_append (pad w n)) (after_mark dash y)) in
    (pad_inj w m n p, q)

last_part : (w m n : ℕ) → str_append (pad w m) "" ≡ str_append (pad w n) "" → m ≡ n
last_part w m n e = pad_inj w m n (sym (append_nothing (pad w m)) ∙ e ∙ append_nothing (pad w n))

daily_key_inj : (a b : Date) → daily_key a ≡ daily_key b → a ≡ b
unfolding daily_key concat
daily_key_inj a b e =
    let (year, rest) = dash_parts 4 a.year b.year _ _ e in
    let (month, last) = dash_parts 2 a.month b.month _ _ rest in
    let day = last_part 2 a.day b.day last in ground arith

monthly_key_inj :
    (a b : Date) → monthly_key a ≡ monthly_key b → (a.year ≡ b.year) × (a.month ≡ b.month)
unfolding monthly_key concat
monthly_key_inj a b e =
    let (year, rest) = dash_parts 4 a.year b.year _ _ e in (year, last_part 2 a.month b.month rest)

before_week : (x : String) → str_append "-W" x ≡ str_append "-" (str_append "W" x)
before_week x = append.cons dash "W" x ∙ sym (after_mark dash (str_append "W" x))

weekly_text_inj : (p q : ℕ × ℕ) → weekly_text p ≡ weekly_text q → p ≡ q
unfolding weekly_text concat
weekly_text_inj (y, w) (z, v) e =
    let (year, rest) =
      dash_parts 4 y z (str_append "W" (str_append (pad 2 w) ""))
        (str_append "W" (str_append (pad 2 v) ""))
        (ap (str_append (pad 4 y)) (sym (before_week (str_append (pad 2 w) "")))
          ∙ e
          ∙ ap (str_append (pad 4 z)) (before_week (str_append (pad 2 v) ""))) in
    pair_eq year (last_part 2 w v (cancel_left "W" _ _ rest))

weekly_ne_daily : ◌≢◌ {A = String} "weekly" "daily"
weekly_ne_daily = ne_by_test "weekly" "daily" refl

monthly_ne_daily : ◌≢◌ {A = String} "monthly" "daily"
monthly_ne_daily = ne_by_test "monthly" "daily" refl

monthly_ne_weekly : ◌≢◌ {A = String} "monthly" "weekly"
monthly_ne_weekly = ne_by_test "monthly" "weekly" refl

pub daily : (d : Date) → period_key "daily" d ≡ daily_key d
unfolding period_key
daily d = if_pos (String_discrete "daily" "daily") refl _ _

pub weekly : (d : Date) → period_key "weekly" d ≡ weekly_key d
unfolding period_key
weekly d =
    if_neg (String_discrete "weekly" "daily") weekly_ne_daily _ _
    ∙ if_pos (String_discrete "weekly" "weekly") refl _ _

pub monthly : (d : Date) → period_key "monthly" d ≡ monthly_key d
unfolding period_key
monthly d =
    if_neg (String_discrete "monthly" "daily") monthly_ne_daily _ _
    ∙ if_neg (String_discrete "monthly" "weekly") monthly_ne_weekly _ _
    ∙ if_pos (String_discrete "monthly" "monthly") refl _ _

-- An equation between keys, moved to what the keys are equal to.
moved : {A : Type 0} {k l m n : String} → k ≡ m → l ≡ n → (m ≡ n) ↔ A → (k ≡ l) ↔ A
moved p q (to, from) = (λ e. to (sym p ∙ e ∙ q), λ a. p ∙ from a ∙ sym q)

monthly_key-same :
    (a b : Date) → a.year ≡ b.year → a.month ≡ b.month → monthly_key a ≡ monthly_key b
unfolding monthly_key
monthly_key-same a b y m =
    ap (λ t. concat (pad 4 t ∷ "-" ∷ pad 2 a.month ∷ [])) y
    ∙ ap (λ t. concat (pad 4 b.year ∷ "-" ∷ pad 2 t ∷ [])) m

abbrev pub SameKey : String → Date → Date → Type 0
SameKey period_type a b = period_key period_type a ≡ period_key period_type b

-- Two times have the same daily key exactly if they are on the same day, the same weekly key exactly
-- if they are in the same week from Monday to Sunday, and the same monthly key exactly if they are in
-- the same month of the same year. (For dates from the year 1 on.)
pub period_key-same :
    (a b : Date)
    → IsDate a
    → IsDate b
    → (SameKey "daily" a b ↔ (a ≡ b))
      × (SameKey "weekly" a b ↔ (day_number a / 7 ≡ day_number b / 7))
      × (SameKey "monthly" a b ↔ ((a.year ≡ b.year) × (a.month ≡ b.month)))
unfolding weekly_key
period_key-same a b va vb =
    let weeks = iso_week-same a b va vb in
    (
      moved (daily a) (daily b) (daily_key_inj a b, λ e. ap daily_key e),
      moved (weekly a) (weekly b) (
        λ e. weeks.0 (weekly_text_inj (iso_week a) (iso_week b) e),
        λ e. ap weekly_text (weeks.1 e),
      ),
      moved (monthly a) (monthly b) (monthly_key_inj a b, λ e. monthly_key-same a b e.0 e.1),
    )
