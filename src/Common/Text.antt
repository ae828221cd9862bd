-- ===== src/Common/Text.antt =====
-- Python's text methods that the program calls: `strip`, `lower`, `startswith` with
-- `removeprefix`, `in`, and `x or y` on texts. `lower` acts on the ASCII capitals; a cased letter
-- outside ASCII is left alone.
use Prim.Native.Nat.{ℕ, zero, suc, ◌-◌}
use Prim.Native.Char.{Char, code}
use Prim.Native.String.{String, [], ◌∷◌, compare, ◌++◌}
use mathlib.Core.Bool.{Bool, true, ◌&&◌, ◌||◌}
use mathlib.Core.Option.{Option, none, some}
use text.Mathlib.Text.{is_le}
use mini_enterprise_rag_agen.Common.Tests.{leb, eqb, ◌==◌, if◌then◌else◌}

-- `s + t` on texts.
infixl 65 ◌+++◌
abbrev pub ◌+++◌ : String → String → String
s +++ t = s ++ t

-- `str.isspace` of one code point, all of Unicode.
unfoldable pub is_space : ℕ → Bool
is_space n =
    (leb 9 n && leb n 13)
    || (leb 28 n && leb n 32)
    || eqb n 0x85
    || eqb n 0xa0
    || eqb n 0x1680
    || (leb 0x2000 n && leb n 0x200a)
    || eqb n 0x2028
    || eqb n 0x2029
    || eqb n 0x202f
    || eqb n 0x205f
    || eqb n 0x3000

unfoldable pub lstrip : String → String
lstrip [] = []
lstrip (c ∷ s) = let rest = lstrip s in if is_space (code c) then rest else c ∷ s

unfoldable pub rstrip : String → String
rstrip [] = []
rstrip (c ∷ s) = let rest = rstrip s in if is_space (code c) && rest == "" then "" else c ∷ rest

unfoldable pub strip : String → String
unfolding lstrip rstrip is_space
strip s = rstrip (lstrip s)

pub nth_char : ℕ → String → Char → Char
nth_char n [] d = d
nth_char zero (c ∷ s) d = c
nth_char (suc n) (c ∷ s) d = nth_char n s d

pub lower_char : Char → Char
lower_char c =
    if leb 65 (code c) && leb (code c) 90
    then nth_char (code c - 65) "abcdefghijklmnopqrstuvwxyz" c
    else c

pub lower_all : String → String
lower_all [] = []
lower_all (c ∷ s) = lower_char c ∷ lower_all s

unfoldable pub lower : String → String
unfolding lower_all lower_char nth_char
lower s = lower_all s

-- `s.removeprefix(p)` where `s.startswith(p)`.
pub strip_prefix_from : String → String → Option String
strip_prefix_from [] s = some s
strip_prefix_from (c ∷ p) [] = none
strip_prefix_from (c ∷ p) (d ∷ s) =
    let rest = strip_prefix_from p s in if eqb (code c) (code d) then rest else none

unfoldable pub strip_prefix? : String → String → Option String
unfolding strip_prefix_from
strip_prefix? p s = strip_prefix_from p s

-- `p in s` on texts.
unfoldable pub contains : String → String → Bool
unfolding strip_prefix_from
contains p [] = p == ""
contains p (c ∷ s) = elim (strip_prefix_from p (c ∷ s)) [ none ↦ contains p s | some rest ↦ true ]

-- `s.endswith(p)`.
unfoldable pub ends_with : String → String → Bool
ends_with p [] = p == ""
ends_with p (c ∷ s) = p == c ∷ s || ends_with p s

-- `x or y` on texts.
abbrev pub or_else : String → String → String
or_else x y = if x == "" then y else x

-- `str(x or "")` of an optional text, and `x or y`.
abbrev pub text_or : Option String → String → String
text_or none y = y
text_or (some x) y = or_else x y

-- `x <= y` on texts, by code points.
abbrev pub text_leb : String → String → Bool
text_leb x y = is_le (compare x y)

-- `s.split(".", 1)` where there is a dot.
pub split_dot_from : String → Option (String × String)
split_dot_from [] = none
split_dot_from (c ∷ s) =
    let rest = split_dot_from s in
    if eqb (code c) b'.'
    then some ("", s)
    else elim rest [ none ↦ none | some (a, b) ↦ some (c ∷ a, b) ]

unfoldable pub split_dot : String → Option (String × String)
unfolding split_dot_from
split_dot s = split_dot_from s

-- `s.split("-", 1)` where there is a dash.
unfoldable pub split_dash : String → Option (String × String)
split_dash [] = none
split_dash (c ∷ s) =
    let rest = split_dash s in
    if eqb (code c) b'-'
    then some ("", s)
    else elim rest [ none ↦ none | some (a, b) ↦ some (c ∷ a, b) ]
