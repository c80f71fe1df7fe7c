-- ===== src/Common/Text.antt =====
-- `str.upper`, `str.lower` and `str.strip` of Python, on the ASCII letters and white space. The program's texts are
-- symbols, directions and regimes, which are ASCII; other characters stay as they are.
use Prim.Native.Char.{Char, code}
use Prim.Native.String.{String}
use mathlib.Core.Bool.{Bool, true, false, ◌&&◌, ◌||◌}
use mathlib.Core.List.{List, [], ◌∷◌}
use aether_quantum_engine.Common.Tests.{nat_beq, leb, if◌then◌else◌}

abbrev letters : List (Char × Char)
letters =
    ("a", "A")
    ∷ ("b", "B")
    ∷ ("c", "C")
    ∷ ("d", "D")
    ∷ ("e", "E")
    ∷ ("f", "F")
    ∷ ("g", "G")
    ∷ ("h", "H")
    ∷ ("i", "I")
    ∷ ("j", "J")
    ∷ ("k", "K")
    ∷ ("l", "L")
    ∷ ("m", "M")
    ∷ ("n", "N")
    ∷ ("o", "O")
    ∷ ("p", "P")
    ∷ ("q", "Q")
    ∷ ("r", "R")
    ∷ ("s", "S")
    ∷ ("t", "T")
    ∷ ("u", "U")
    ∷ ("v", "V")
    ∷ ("w", "W")
    ∷ ("x", "X")
    ∷ ("y", "Y")
    ∷ ("z", "Z")
    ∷ []

upper_char : List (Char × Char) → Char → Char
upper_char [] c = c
upper_char ((low, up) ∷ rest) c = if nat_beq (code low) (code c) then up else upper_char rest c

lower_char : List (Char × Char) → Char → Char
lower_char [] c = c
lower_char ((low, up) ∷ rest) c = if nat_beq (code up) (code c) then low else lower_char rest c

-- `s.upper()`
unfoldable pub upper : String → String
unfolding upper_char
upper String.[] = String.[]
upper (String.◌∷◌ c s) = String.◌∷◌ (upper_char letters c) (upper s)

-- `s.lower()`
unfoldable pub lower : String → String
unfolding lower_char
lower String.[] = String.[]
lower (String.◌∷◌ c s) = String.◌∷◌ (lower_char letters c) (lower s)

is_space : Char → Bool
is_space c = nat_beq (code c) 32 || (leb 9 (code c) && leb (code c) 13)

lstrip : String → String
lstrip String.[] = String.[]
lstrip (String.◌∷◌ c s) = let rest = lstrip s in if is_space c then rest else String.◌∷◌ c s

is_empty : String → Bool
is_empty String.[] = true
is_empty (String.◌∷◌ c s) = false

rstrip : String → String
rstrip String.[] = String.[]
rstrip (String.◌∷◌ c s) =
    let rest = rstrip s in if is_space c && is_empty rest then String.[] else String.◌∷◌ c rest

-- `s.strip()`
unfoldable pub strip : String → String
unfolding is_space lstrip is_empty rstrip
strip s = rstrip (lstrip s)
