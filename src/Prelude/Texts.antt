-- ===== src/Prelude/Texts.antt =====
-- Python's white space and lines: `str.strip` and `str.splitlines`.
use Prim.Native.Nat.{ℕ}
use Prim.Native.Char.{Char, code}
use Prim.Native.String.{String}
use mathlib.Core.Bool.{Bool, true, false, ◌&&◌, ◌||◌}
use mathlib.Core.List.{List, [], ◌∷◌}
use cuda_fractal_engine_stat.Prelude.Tests.{leb, ◌==◌, if◌then◌else◌}

between : ℕ → ℕ → ℕ → Bool
between low high n = leb low n && leb n high

-- `character.isspace()`.
unfoldable pub is_space : Char → Bool
unfolding between
is_space c =
    between 9 13 (code c)
    || between 28 32 (code c)
    || code c == 0x85
    || code c == 0xa0
    || code c == 0x1680
    || between 0x2000 0x200a (code c)
    || between 0x2028 0x2029 (code c)
    || code c == 0x202f
    || code c == 0x205f
    || code c == 0x3000

-- The separators of `str.splitlines`.
unfoldable pub is_line_end : Char → Bool
unfolding between
is_line_end c =
    between 10 13 (code c)
    || between 28 30 (code c)
    || code c == 0x85
    || between 0x2028 0x2029 (code c)

abbrev pub is_empty_text : String → Bool
is_empty_text String.[] = true
is_empty_text (String.◌∷◌ c s) = false

unfoldable pub strip_left : String → String
unfolding is_space
strip_left String.[] = String.[]
strip_left (String.◌∷◌ c s) = let rest = strip_left s in if is_space c then rest else String.◌∷◌ c s

unfoldable pub strip_right : String → String
unfolding is_space
strip_right String.[] = String.[]
strip_right (String.◌∷◌ c s) =
    let rest = strip_right s in
    if is_empty_text rest && is_space c then String.[] else String.◌∷◌ c rest

unfoldable pub strip : String → String
unfolding strip_left strip_right
strip s = strip_right (strip_left s)

abbrev pub starts_line_feed : String → Bool
starts_line_feed String.[] = false
starts_line_feed (String.◌∷◌ c s) = code c == 10

abbrev pub on_first : Char → List String → List String
on_first c [] = String.◌∷◌ c String.[] ∷ []
on_first c (line ∷ lines) = String.◌∷◌ c line ∷ lines

unfoldable pub split_lines : String → List String
unfolding is_line_end
split_lines String.[] = []
split_lines (String.◌∷◌ c s) =
    let rest = split_lines s in
    if code c == 13 && starts_line_feed s
    then rest
    else if is_line_end c
    then "" ∷ rest
    else on_first c rest
