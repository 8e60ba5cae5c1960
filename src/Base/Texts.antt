-- ===== src/Base/Texts.antt =====
-- `trim` on texts, and texts that are blank.
use Prim.Native.Nat.{ℕ}
use Prim.Native.Char.{code}
use Prim.Native.String.{String}
use mathlib.Core.Bool.{Bool, not, ◌&&◌, ◌||◌}
use agentic_harness.Base.Tests.{◌==◌, leb, ◌=ₛ◌, if◌then◌else◌}

-- The white space of `String.prototype.trim`.
unfoldable pub is_space : ℕ → Bool
is_space c =
    (leb 9 c && leb c 13)
    || c == 32
    || c == 0xa0
    || c == 0x1680
    || (leb 0x2000 c && leb c 0x200a)
    || c == 0x2028
    || c == 0x2029
    || c == 0x202f
    || c == 0x205f
    || c == 0x3000
    || c == 0xfeff

unfoldable pub trim_start : String → String
unfolding is_space
trim_start String.[] = String.[]
trim_start (String.◌∷◌ c s) =
    let rest = trim_start s in if is_space (code c) then rest else String.◌∷◌ c s

unfoldable pub trim_end : String → String
unfolding is_space
trim_end String.[] = String.[]
trim_end (String.◌∷◌ c s) =
    let rest = trim_end s in
    if is_space (code c) && rest =ₛ String.[] then String.[] else String.◌∷◌ c rest

unfoldable pub trim : String → String
unfolding trim_start trim_end
trim s = trim_end (trim_start s)

-- `!String(value ?? "").trim()`
unfoldable pub is_blank : String → Bool
unfolding trim
is_blank s = trim s =ₛ ""

-- A text that is empty is falsy.
abbrev pub is_truthy : String → Bool
is_truthy s = not (s =ₛ "")
