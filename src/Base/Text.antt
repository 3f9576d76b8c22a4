-- ===== src/Base/Text.antt =====
-- Text as the list of its bytes, with the two functions of Go's package strings that the program
-- normalises its inputs by. They are written for ASCII: a letter or a space outside ASCII is kept.
use Prim.Native.Char.{code}
use Prim.Native.String.{String}
use erebrus_gateway.Base.Tests.{leb, ◌==◌, if◌then◌else◌}
use Prim.Native.Nat.{ℕ, ◌+◌}
use mathlib.Core.Path.{◌≡◌, refl}
use mathlib.Core.Bool.{Bool, true, false, ◌&&◌, ◌||◌}
use native.Mathlib.Omega.{arith}
use mathlib.Core.List.{List, [], ◌∷◌, map}

abbrev pub Text : Type 0
Text = List ℕ

-- The code points of a literal.
abbrev pub codes : String → Text
codes String.[] = []
codes (String.◌∷◌ c s) = code c ∷ codes s

abbrev pub text_eq : Text → Text → Bool
text_eq [] [] = true
text_eq (a ∷ s) (b ∷ t) = a == b && text_eq s t
text_eq _ _ = false

pub text_eq_self : (t : Text) → text_eq t t ≡ true
text_eq_self [] = refl
text_eq_self (c ∷ t) = ground (arith, text_eq_self t)

abbrev is_upper : ℕ → Bool
is_upper c = leb b'A' c && leb c b'Z'

abbrev lower : ℕ → ℕ
lower c = if is_upper c then c + 32 else c

-- strings.ToLower
unfoldable pub to_lower : Text → Text
to_lower = map lower

-- tab, newline, vertical tab, form feed, carriage return, space
abbrev is_space : ℕ → Bool
is_space c = leb 9 c && leb c 13 || c == 32

unfoldable pub trim_left : Text → Text
trim_left [] = []
trim_left (c ∷ cs) = let rest = trim_left cs in if is_space c then rest else c ∷ cs

abbrev is_empty : Text → Bool
is_empty [] = true
is_empty (_ ∷ _) = false

unfoldable pub trim_right : Text → Text
trim_right [] = []
trim_right (c ∷ cs) =
    let rest = trim_right cs in if is_space c && is_empty rest then [] else c ∷ rest

-- strings.TrimSpace
unfoldable pub trim_space : Text → Text
unfolding trim_left trim_right
trim_space t = trim_right (trim_left t)

-- strings.ToLower(strings.TrimSpace(t))
unfoldable pub normalize : Text → Text
unfolding to_lower trim_space
normalize t = to_lower (trim_space t)

normalize_mixed : normalize (codes "  Active ") ≡ codes "active"
unfolding normalize
normalize_mixed = refl

-- The first entry of a table of names whose name is a text.
abbrev pub named : {A : Type 0} → List (String × A) → A → Text → A
named [] d t = d
named ((s, a) ∷ rest) d t = if text_eq t (codes s) then a else named rest d t
