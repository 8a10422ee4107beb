-- ===== src/Prelude/Text.antt =====
-- Texts the way package strings sees them: `trim_space` cuts white space.
use Prim.Native.Char.{Char, code}
use Prim.Native.String.{String, ◌++◌ as str_append}
use mathlib.Core.List.{List, [], ◌∷◌}
use mathlib.Core.Bool.{Bool, true, false, ◌&&◌, ◌||◌}
use mathlib.Core.Logic.{inl, inr, ◌≢◌, ◌↔◌}
use mathlib.Core.Path.{◌≡◌, refl}
use classic_cheese.Prelude.Tests.{leb, ◌==◌, if◌then◌else◌, Bool-cases}

-- The pieces of a `Sprintf` of texts.
unfoldable pub concat : List String → String
concat [] = ""
concat (s ∷ ss) = str_append s (concat ss)

-- unicode.IsSpace.
unfoldable pub is_space : Char → Bool
is_space c =
    let n = code c in
    (leb 9 n && leb n 13)
    || n == 32
    || n == 0x85
    || n == 0xa0
    || n == 0x1680
    || (leb 0x2000 n && leb n 0x200a)
    || n == 0x2028
    || n == 0x2029
    || n == 0x202f
    || n == 0x205f
    || n == 0x3000

unfoldable pub is_empty : String → Bool
is_empty String.[] = true
is_empty (String.◌∷◌ c s) = false

cons-ne-empty : (c : Char) (s : String) → String.◌∷◌ c s ≢ ""
cons-ne-empty c s e = cc

pub is_empty_iff : (s : String) → (is_empty s ≡ true) ↔ (s ≡ "")
unfolding is_empty
is_empty_iff String.[] = (λ _. refl, λ _. refl)
is_empty_iff (String.◌∷◌ c s) = (λ e. cc, λ e. absurd (cons-ne-empty c s e))

unfoldable pub trim_left : String → String
trim_left String.[] = String.[]
trim_left (String.◌∷◌ c s) = let rest = trim_left s in if is_space c then rest else String.◌∷◌ c s

-- A white space in front of nothing but white space falls away.
unfoldable pub keep_unless_blank : Char → String → String
keep_unless_blank c String.[] = if is_space c then String.[] else String.◌∷◌ c String.[]
keep_unless_blank c (String.◌∷◌ d s) = String.◌∷◌ c (String.◌∷◌ d s)

unfoldable pub trim_right : String → String
unfolding keep_unless_blank
trim_right String.[] = String.[]
trim_right (String.◌∷◌ c s) = keep_unless_blank c (trim_right s)

-- strings.TrimSpace.
unfoldable pub trim_space : String → String
unfolding trim_left trim_right is_space
trim_space s = trim_right (trim_left s)

-- The first character, if there is one, is no white space.
abbrev IsSolid : String → Type 0
IsSolid String.[] = Unit
IsSolid (String.◌∷◌ c s) = is_space c ≡ false

trim_left-IsSolid : (s : String) → IsSolid (trim_left s)
unfolding trim_left
trim_left-IsSolid String.[] = tt
trim_left-IsSolid (String.◌∷◌ c s) = elim (Bool-cases (is_space c)) [
  | inl e ↦ rw e (trim_left-IsSolid s)
  | inr e ↦ rw e e
]

trim_left_fixed : (s : String) → IsSolid s → trim_left s ≡ s
unfolding trim_left
trim_left_fixed String.[] h = refl
trim_left_fixed (String.◌∷◌ c s) h = rw h

keep-IsSolid : (c : Char) (s : String) → is_space c ≡ false → IsSolid (keep_unless_blank c s)
unfolding keep_unless_blank
keep-IsSolid c String.[] h = rw h h
keep-IsSolid c (String.◌∷◌ d s) h = h

trim_right-IsSolid : (s : String) → IsSolid s → IsSolid (trim_right s)
unfolding trim_right
trim_right-IsSolid String.[] h = tt
trim_right-IsSolid (String.◌∷◌ c s) h = keep-IsSolid c (trim_right s) h

trim_right-keep :
    (c : Char) (s : String)
    → trim_right s ≡ s
    → trim_right (keep_unless_blank c s) ≡ keep_unless_blank c s
unfolding trim_right keep_unless_blank
trim_right-keep c String.[] h = elim (Bool-cases (is_space c)) [
  | inl e ↦ rw e
  | inr e ↦ rw e (rw e)
]
trim_right-keep c (String.◌∷◌ d s) h = rw h

trim_right_idem : (s : String) → trim_right (trim_right s) ≡ trim_right s
unfolding trim_right
trim_right_idem String.[] = refl
trim_right_idem (String.◌∷◌ c s) = trim_right-keep c (trim_right s) (trim_right_idem s)

-- Trimming a trimmed text changes nothing.
pub trim_space_idem : (s : String) → trim_space (trim_space s) ≡ trim_space s
unfolding trim_space
trim_space_idem s =
    rw (trim_left_fixed (trim_right (trim_left s)) (trim_right-IsSolid _ (trim_left-IsSolid s)))
      (trim_right_idem (trim_left s))
