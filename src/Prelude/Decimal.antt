-- ===== src/Prelude/Decimal.antt =====
-- strconv.Itoa, strconv.FormatInt in base ten and strconv.Atoi.
use Prim.Native.Char.{Char, code}
use mathlib.Core.Option.{some-injective}
use classic_cheese.Prelude.{
  ℕ, zero, suc, ◌+◌, ◌-◌, ◌*◌, ◌/◌, ◌%◌, ◌≤◌, ◌<◌, ◌≡◌, refl, ap, subst, ◌∙◌, true, false, String,
  Bool, ◌&&◌, Option, none, some, arith, ltb, leb, ◌==◌, if◌then◌else◌, Bool-cases, inl, inr,
}
use Prim.Native.String.{len}
use classic_cheese.Prelude.Split.{Lacks}
use classic_cheese.Prelude.Int.{ℤ, pos, negsuc, two_63, IsInt64}

unfoldable pub digit : ℕ → Char
digit n =
    if n == 0
    then "0"
    else if n == 1
    then "1"
    else if n == 2
    then "2"
    else if n == 3
    then "3"
    else if n == 4
    then "4"
    else if n == 5
    then "5"
    else if n == 6
    then "6"
    else if n == 7
    then "7"
    else if n == 8
    then "8"
    else "9"

-- The digits of `n` in front of `rest`, the lowest one first.
unfoldable pub digits_before : ℕ → ℕ → String → String
digits_before zero n rest = rest
digits_before (suc fuel) n rest =
    let here = String.◌∷◌ (digit (n % 10)) rest in
    let more = digits_before fuel (n / 10) here in if ltb n 10 then here else more

unfoldable pub itoa : ℤ → String
unfolding digits_before digit
itoa (pos n) = digits_before (suc n) n String.[]
itoa (negsuc n) = String.◌∷◌ "-" (digits_before (suc (suc n)) (suc n) String.[])

unfoldable pub is_digit : Char → Bool
is_digit c = leb 48 (code c) && leb (code c) 57

unfoldable pub parse_digits : ℕ → String → Option ℕ
parse_digits acc String.[] = some acc
parse_digits acc (String.◌∷◌ c s) =
    let rest = parse_digits (acc * 10 + (code c - 48)) s in if is_digit c then rest else none

-- At least one digit.
unfoldable pub parse_unsigned : String → Option ℕ
parse_unsigned String.[] = none
parse_unsigned (String.◌∷◌ c s) = parse_digits 0 (String.◌∷◌ c s)

unfoldable pub positive : Option ℕ → Option ℤ
positive none = none
positive (some n) = if ltb n two_63 then some (pos n) else none

unfoldable pub negate : ℕ → ℤ
negate zero = pos 0
negate (suc n) = negsuc n

unfoldable pub negative : Option ℕ → Option ℤ
negative none = none
negative (some n) = if leb n two_63 then some (negate n) else none

-- `none` stands for a syntax error and for a value that does not fit 64 bits.
unfoldable pub atoi : String → Option ℤ
unfolding is_digit parse_digits parse_unsigned positive negate negative
atoi String.[] = none
atoi (String.◌∷◌ c s) =
    if code c == b'-'
    then negative (parse_unsigned s)
    else if code c == b'+'
    then positive (parse_unsigned s)
    else positive (parse_unsigned (String.◌∷◌ c s))

code-digit : (n : ℕ) → n < 10 → code (digit n) ≡ 48 + n
unfolding digit
code-digit zero h = refl
code-digit (suc zero) h = refl
code-digit (suc (suc zero)) h = refl
code-digit (suc (suc (suc zero))) h = refl
code-digit (suc (suc (suc (suc zero)))) h = refl
code-digit (suc (suc (suc (suc (suc zero))))) h = refl
code-digit (suc (suc (suc (suc (suc (suc zero)))))) h = refl
code-digit (suc (suc (suc (suc (suc (suc (suc zero))))))) h = refl
code-digit (suc (suc (suc (suc (suc (suc (suc (suc zero)))))))) h = refl
code-digit (suc (suc (suc (suc (suc (suc (suc (suc (suc zero))))))))) h = refl
code-digit (suc (suc (suc (suc (suc (suc (suc (suc (suc (suc n)))))))))) h = absurd (omega arith)

parse-digit :
    (acc n : ℕ) (s : String)
    → n < 10
    → parse_digits acc (String.◌∷◌ (digit n) s) ≡ parse_digits (acc * 10 + n) s
unfolding parse_digits is_digit
parse-digit acc n s h =
    let shift : 48 + n - 48 ≡ n = omega arith in
    let low : leb 48 (48 + n) ≡ true = ground arith in
    let high : leb (48 + n) 57 ≡ true = ground arith in rw (code-digit n h, low, high, shift)

parse-digits_before :
    (fuel n : ℕ) (rest : String)
    → n < fuel
    → parse_digits 0 (digits_before fuel n rest) ≡ parse_digits n rest
unfolding digits_before
parse-digits_before zero n rest h = absurd (omega arith)
parse-digits_before (suc fuel) n rest h = elim (Bool-cases (ltb n 10)) [
  | inl e ↦
      let low : 0 * 10 + n % 10 ≡ n = ground arith in
      rw e (parse-digit 0 (n % 10) rest (omega arith) ∙ ap (λ k. parse_digits k rest) low)
  | inr e ↦
      let whole : n / 10 * 10 + n % 10 ≡ n = omega arith in
      rw e (
        parse-digits_before fuel (n / 10) _ (ground arith)
        ∙ parse-digit (n / 10) (n % 10) rest (omega arith)
        ∙ ap (λ k. parse_digits k rest) whole)
]

-- A text whose first character is a digit.
abbrev StartsDigit : String → Type 0
StartsDigit String.[] = ⊥
StartsDigit (String.◌∷◌ c s) = (48 ≤ code c) × (code c ≤ 57)

digit-StartsDigit : (n : ℕ) (s : String) → n < 10 → StartsDigit (String.◌∷◌ (digit n) s)
digit-StartsDigit n s h = rw (code-digit n h) (omega arith)

digits_before-StartsDigit :
    (fuel n : ℕ) (rest : String) → n < fuel → StartsDigit (digits_before fuel n rest)
unfolding digits_before
digits_before-StartsDigit zero n rest h = absurd (omega arith)
digits_before-StartsDigit (suc fuel) n rest h = elim (Bool-cases (ltb n 10)) [
  | inl e ↦ rw e (digit-StartsDigit (n % 10) rest (omega arith))
  | inr e ↦ rw e (digits_before-StartsDigit fuel (n / 10) _ (ground arith))
]

parse_unsigned-StartsDigit : (s : String) → StartsDigit s → parse_unsigned s ≡ parse_digits 0 s
unfolding parse_unsigned
parse_unsigned-StartsDigit String.[] h = absurd h
parse_unsigned-StartsDigit (String.◌∷◌ c s) h = refl

parse-itoa : (n : ℕ) → parse_unsigned (digits_before (suc n) n String.[]) ≡ some n
unfolding parse_digits
parse-itoa n =
    parse_unsigned-StartsDigit _ (digits_before-StartsDigit (suc n) n String.[] (omega arith))
    ∙ parse-digits_before (suc n) n String.[] (omega arith)

atoi-StartsDigit : (s : String) → StartsDigit s → atoi s ≡ positive (parse_unsigned s)
unfolding atoi
atoi-StartsDigit String.[] h = absurd h
atoi-StartsDigit (String.◌∷◌ c s) h =
    let minus : (code c == b'-') ≡ false = ground arith in
    let plus : (code c == b'+') ≡ false = ground arith in rw (minus, plus)

-- Every `int` is read back from its decimal text.
pub atoi-itoa : (x : ℤ) → IsInt64 x → atoi (itoa x) ≡ some x
unfolding itoa atoi
atoi-itoa (pos n) h =
    let small : ltb n two_63 ≡ true = ground arith in
    atoi-StartsDigit _ (digits_before-StartsDigit (suc n) n String.[] (omega arith))
    ∙ rw (parse-itoa n) (rw small)
atoi-itoa (negsuc n) h =
    let small : leb (suc n) two_63 ≡ true = ground arith in rw (parse-itoa (suc n)) (rw small)

positive-IsInt64 : (o : Option ℕ) (x : ℤ) → positive o ≡ some x → IsInt64 x
unfolding positive
positive-IsInt64 none x h = absurd (ground arith)
positive-IsInt64 (some n) x h = elim (Bool-cases (ltb n two_63)) [
  | inl e ↦ subst IsInt64 (some-injective (pos n) x (rw e at h)) (ground arith)
  | inr e ↦ absurd (ground arith)
]

negate-IsInt64 : (n : ℕ) → n ≤ two_63 → IsInt64 (negate n)
unfolding negate
negate-IsInt64 zero h = omega arith
negate-IsInt64 (suc n) h = h

negative-IsInt64 : (o : Option ℕ) (x : ℤ) → negative o ≡ some x → IsInt64 x
unfolding negative
negative-IsInt64 none x h = absurd (ground arith)
negative-IsInt64 (some n) x h = elim (Bool-cases (leb n two_63)) [
  | inl e ↦
      subst IsInt64 (some-injective (negate n) x (rw e at h)) (negate-IsInt64 n (ground arith))
  | inr e ↦ absurd (ground arith)
]

-- Atoi gives an `int`.
pub atoi-IsInt64 : (s : String) (x : ℤ) → atoi s ≡ some x → IsInt64 x
unfolding atoi
atoi-IsInt64 String.[] x h = absurd (ground arith)
atoi-IsInt64 (String.◌∷◌ c s) x h = elim (Bool-cases (code c == b'-')) [
  | inl e ↦ negative-IsInt64 (parse_unsigned s) x (rw e at h)
  | inr e ↦ elim (Bool-cases (code c == b'+')) [
    | inl f ↦ positive-IsInt64 (parse_unsigned s) x (rw (e, f) at h)
    | inr f ↦ positive-IsInt64 (parse_unsigned (String.◌∷◌ c s)) x (rw (e, f) at h)
  ]
]

pub itoa_inj : (x y : ℤ) → IsInt64 x → IsInt64 y → itoa x ≡ itoa y → x ≡ y
itoa_inj x y hx hy e = ground (arith, atoi-itoa x hx, atoi-itoa y hy)

-- `%0wd` of package fmt, for a number that is not negative.
unfoldable pub zeros : ℕ → String → String
zeros zero s = s
zeros (suc k) s = String.◌∷◌ "0" (zeros k s)

unfoldable pub pad : ℕ → ℕ → String
unfolding zeros itoa
pad w n = let s = itoa (pos n) in zeros (w - len s) s

parse-zeros : (k : ℕ) (s : String) → parse_digits 0 (zeros k s) ≡ parse_digits 0 s
unfolding zeros digit
parse-zeros zero s = refl
parse-zeros (suc k) s = parse-digit 0 0 (zeros k s) (omega arith) ∙ parse-zeros k s

parse-pad : (w n : ℕ) → parse_digits 0 (pad w n) ≡ some n
unfolding pad itoa parse_digits
parse-pad w n = parse-zeros _ _ ∙ parse-digits_before (suc n) n String.[] (omega arith)

-- A padded number is read back.
pub pad_inj : (w m n : ℕ) → pad w m ≡ pad w n → m ≡ n
pad_inj w m n e = ground (arith, parse-pad w m, parse-pad w n)

-- Every character is a digit.
abbrev AllDigits : String → Type 0
AllDigits String.[] = Unit
AllDigits (String.◌∷◌ c s) = (48 ≤ code c) × AllDigits s

digits_before-AllDigits :
    (fuel n : ℕ) (rest : String) → AllDigits rest → AllDigits (digits_before fuel n rest)
unfolding digits_before
digits_before-AllDigits zero n rest h = h
digits_before-AllDigits (suc fuel) n rest h =
    let here : AllDigits (String.◌∷◌ (digit (n % 10)) rest) =
      (rw (code-digit (n % 10) (omega arith)) (omega arith), h) in
    elim (Bool-cases (ltb n 10)) [
      | inl e ↦ rw e here
      | inr e ↦ rw e (digits_before-AllDigits fuel (n / 10) _ here)
    ]

zeros-AllDigits : (k : ℕ) (s : String) → AllDigits s → AllDigits (zeros k s)
unfolding zeros
zeros-AllDigits zero s h = h
zeros-AllDigits (suc k) s h = (omega arith, zeros-AllDigits k s h)

AllDigits-Lacks : (d : Char) (s : String) → code d < 48 → AllDigits s → Lacks d s
AllDigits-Lacks d String.[] k h = tt
AllDigits-Lacks d (String.◌∷◌ c s) k h =
    ((λ e. ground (arith, ap code e)), AllDigits-Lacks d s k h.1)

-- There is no sign and no dash in it.
pub pad-Lacks : (d : Char) (w n : ℕ) → code d < 48 → Lacks d (pad w n)
unfolding pad itoa
pad-Lacks d w n k =
    AllDigits-Lacks d _ k (zeros-AllDigits _ _ (digits_before-AllDigits (suc n) n String.[] tt))
