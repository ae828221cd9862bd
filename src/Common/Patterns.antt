-- ===== src/Common/Patterns.antt =====
-- The two regular expressions that the program matches whole texts with, as patterns: a `d` stands
-- for `\d`, which matches any of Unicode's decimal digits, and other characters for themselves.
use Prim.Native.Char.{code}
use Prim.Native.String.{String, [], ◌∷◌}
use mathlib.Core.Bool.{Bool, true, false, ◌&&◌}
use mini_enterprise_rag_agen.Common.Tests.{eqb, if◌then◌else◌}
use mini_enterprise_rag_agen.Common.Digits.{is_decimal}

-- `re.fullmatch`.
unfoldable pub full_match : String → String → Bool
full_match [] [] = true
full_match [] (c ∷ s) = false
full_match (p ∷ pattern_) [] = false
full_match (p ∷ pattern_) (c ∷ s) =
    (if eqb (code p) b'd' then is_decimal (code c) else eqb (code p) (code c))
    && full_match pattern_ s
