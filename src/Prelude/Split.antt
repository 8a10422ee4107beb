-- ===== src/Prelude/Split.antt =====
-- Where a text splits: at the first place of a character that the front does not have.
use Prim.Native.Char.{Char, code}
use Prim.Native.String.{String, ◌++◌ as str_append}
use Prim.Native.String.append
use mathlib.Core.Path.{◌≡◌, refl, sym, ap, ◌∙◌}
use mathlib.Core.Logic.{◌≢◌}
use mathlib.Core.Bool.{Bool, true, not, ◌&&◌}
use native.Mathlib.Omega.{arith}
use classic_cheese.Prelude.Tests.{◌==◌}

-- The character does not occur.
abbrev pub Lacks : Char → String → Type 0
Lacks d String.[] = Unit
Lacks d (String.◌∷◌ c s) = (c ≢ d) × Lacks d s

head_or : Char → String → Char
head_or d String.[] = d
head_or d (String.◌∷◌ c s) = c

tail_of : String → String
tail_of String.[] = String.[]
tail_of (String.◌∷◌ c s) = s

-- What stands before the first such character, and what follows it.
pub split_at :
    (mark : Char) (s t x y : String)
    → Lacks mark s
    → Lacks mark t
    → str_append s (String.◌∷◌ mark x) ≡ str_append t (String.◌∷◌ mark y)
    → (s ≡ t) × (x ≡ y)
unfolding head_or tail_of
split_at mark String.[] String.[] x y h k e =
    (refl, ap tail_of (sym (append.nil (String.◌∷◌ mark x)) ∙ e ∙ append.nil (String.◌∷◌ mark y)))
split_at mark String.[] (String.◌∷◌ d t) x y h k e = absurd (
    k.0 (
      sym (
        ap (head_or d)
          (sym (append.nil (String.◌∷◌ mark x)) ∙ e ∙ append.cons d t (String.◌∷◌ mark y)))))
split_at mark (String.◌∷◌ c s) String.[] x y h k e = absurd (
    h.0 (
      ap (head_or c)
        (sym (append.cons c s (String.◌∷◌ mark x)) ∙ e ∙ append.nil (String.◌∷◌ mark y))))
split_at mark (String.◌∷◌ c s) (String.◌∷◌ d t) x y h k e =
    let whole : String.◌∷◌ c (str_append s (String.◌∷◌ mark x))
        ≡ String.◌∷◌ d (str_append t (String.◌∷◌ mark y)) =
      sym (append.cons c s (String.◌∷◌ mark x)) ∙ e ∙ append.cons d t (String.◌∷◌ mark y) in
    let (p, q) = split_at mark s t x y h.1 k.1 (ap tail_of whole) in
    (ap (λ a. String.◌∷◌ a s) (ap (head_or c) whole) ∙ ap (String.◌∷◌ d) p, q)

pub cancel_left : (p x y : String) → str_append p x ≡ str_append p y → x ≡ y
unfolding tail_of
cancel_left String.[] x y e = sym (append.nil x) ∙ e ∙ append.nil y
cancel_left (String.◌∷◌ c p) x y e =
    cancel_left p x y (ap tail_of (sym (append.cons c p x) ∙ e ∙ append.cons c p y))

pub append_nothing : (s : String) → str_append s "" ≡ s
append_nothing String.[] = append.nil ""
append_nothing (String.◌∷◌ c s) = append.cons c s "" ∙ ap (String.◌∷◌ c) (append_nothing s)

-- A text of one character in front.
pub after_mark : (c : Char) (x : String) → str_append (String.◌∷◌ c "") x ≡ String.◌∷◌ c x
after_mark c x = append.cons c "" x ∙ ap (String.◌∷◌ c) (append.nil x)

unfoldable pub lacks : Char → String → Bool
lacks d String.[] = true
lacks d (String.◌∷◌ c s) = not (code c == code d) && lacks d s

-- For texts that are written out, the test computes.
pub Lacks-by_test : (d : Char) (s : String) → lacks d s ≡ true → Lacks d s
unfolding lacks
Lacks-by_test d String.[] h = tt
Lacks-by_test d (String.◌∷◌ c s) h =
    ((λ e. ground (arith, ap code e)), Lacks-by_test d s (ground arith))
