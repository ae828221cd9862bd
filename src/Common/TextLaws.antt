-- ===== src/Common/TextLaws.antt =====
-- Laws of `strip`.
use Prim.Native.String.{String, [], ◌∷◌}
use Prim.Native.Char.{code}
use mathlib.Core.Path.{◌≡◌, refl, ap, ◌∙◌}
use mathlib.Core.Bool.{◌&&◌}
use mathlib.Core.Logic.{inl, inr}
use native.Mathlib.Omega.{arith}
use text.Mathlib.TextEquality.{eq_iff}
use mini_enterprise_rag_agen.Common.Tests.{Bool-cases, ◌==◌}
use mini_enterprise_rag_agen.Common.Text.{is_space, lstrip, rstrip, strip, or_else}

rstrip-rstrip : (s : String) → rstrip (rstrip s) ≡ rstrip s
unfolding rstrip
rstrip-rstrip [] = refl
rstrip-rstrip (c ∷ s) = elim (Bool-cases (is_space (code c) && rstrip s == "")) [
  | inl e ↦ rw (e, rstrip)
  | inr e ↦ rw (e, rstrip) (rw (rstrip-rstrip s, e))
]

lstrip-rstrip-lstrip : (s : String) → lstrip (rstrip (lstrip s)) ≡ rstrip (lstrip s)
unfolding lstrip rstrip
lstrip-rstrip-lstrip [] = refl
lstrip-rstrip-lstrip (c ∷ s) = elim (Bool-cases (is_space (code c))) [
  | inl e ↦ rw e (lstrip-rstrip-lstrip s)
  | inr e ↦ rw e (rw e (rw e))
]

pub strip-strip : (s : String) → strip (strip s) ≡ strip s
unfolding strip
strip-strip s = ap rstrip (lstrip-rstrip-lstrip s) ∙ rstrip-rstrip (lstrip s)

pub or_else-nil : (x : String) → or_else x "" ≡ x
or_else-nil x = ground (arith, eq_iff x "")
