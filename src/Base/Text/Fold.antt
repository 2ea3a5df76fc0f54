-- ===== src/Base/Text/Fold.antt =====
-- `strings.ToLower`, `TrimSpace` and `strconv.Atoi` of Go's library, as far as the program reads
-- their results.
use Prim.Native.Nat.{ℕ, suc, ◌+◌, ◌-◌, ◌*◌, ◌^◌}
pub mod Numerals
pub mod Codes
use Prim.Native.Char.{Char, code}
use Prim.Native.String.{String}
use mathlib.Core.Path.{◌≡◌, refl}
use mathlib.Core.Bool.{Bool, true, false, ◌&&◌, ◌||◌}
use mathlib.Core.Option.{Option, none, some}
use mathlib.Core.List.{List, [], ◌∷◌}
use virtwork.Base.Tests.{leb, eqb, if◌then◌else◌}
use virtwork.Base.Int.{ℤ, pos, negsuc}

-- The code points of a text.
abbrev pub codes : String → List ℕ
codes String.[] = []
codes (String.◌∷◌ c s) = code c ∷ codes s

-- The lower case of a code point, where that is ASCII: besides A to Z only U+0130 and U+212A have
-- one. Any other code point is left as it is, so the result is equal to an ASCII text exactly if
-- Go's is.
lower_code : ℕ → ℕ
lower_code c =
    if leb b'A' c && leb c b'Z'
    then c + 32
    else if eqb c 0x130
    then b'i'
    else if eqb c 0x212a
    then b'k'
    else c

unfoldable pub to_lower : String → List ℕ
unfolding lower_code
to_lower String.[] = []
to_lower (String.◌∷◌ c s) = lower_code (code c) ∷ to_lower s

-- The upper case of a code point, where that is ASCII: besides a to z only U+0131 and U+017F have
-- one.
upper_code : ℕ → ℕ
upper_code c =
    if leb b'a' c && leb c b'z'
    then c - 32
    else if eqb c 0x131
    then b'I'
    else if eqb c 0x17f
    then b'S'
    else c

unfoldable pub to_upper : String → List ℕ
unfolding upper_code
to_upper String.[] = []
to_upper (String.◌∷◌ c s) = upper_code (code c) ∷ to_upper s

-- equality of texts that are given by their code points
unfoldable pub same_codes : List ℕ → List ℕ → Bool
same_codes [] [] = true
same_codes (x ∷ a) (y ∷ b) = eqb x y && same_codes a b
same_codes _ _ = false

-- `unicode.IsSpace`
is_space : ℕ → Bool
is_space c =
    (leb 9 c && leb c 13)
    || eqb c 32
    || eqb c 0x85
    || eqb c 0xa0
    || eqb c 0x1680
    || (leb 0x2000 c && leb c 0x200a)
    || eqb c 0x2028
    || eqb c 0x2029
    || eqb c 0x202f
    || eqb c 0x205f
    || eqb c 0x3000

trim_left : String → String
trim_left String.[] = ""
trim_left (String.◌∷◌ c s) = if is_space (code c) then trim_left s else String.◌∷◌ c s

-- drops a character that is white space and has nothing but dropped text behind it
abbrev keep_unless_last : Char → String → String
keep_unless_last c String.[] = if is_space (code c) then "" else String.◌∷◌ c ""
keep_unless_last c (String.◌∷◌ d s) = String.◌∷◌ c (String.◌∷◌ d s)

trim_right : String → String
trim_right String.[] = ""
trim_right (String.◌∷◌ c s) = keep_unless_last c (trim_right s)

unfoldable pub trim_space : String → String
unfolding trim_left trim_right is_space
trim_space s = trim_right (trim_left s)

-- the number that digits spell behind `acc`; `none` at any other character
read_digits : ℕ → String → Option ℕ
read_digits acc String.[] = some acc
read_digits acc (String.◌∷◌ c s) =
    if leb b'0' (code c) && leb (code c) b'9'
    then read_digits (acc * 10 + (code c - b'0')) s
    else none

magnitude : String → Option ℕ
magnitude String.[] = none
magnitude (String.◌∷◌ c s) = read_digits 0 (String.◌∷◌ c s)

-- the int64 that a magnitude stands for
abbrev positive : Option ℕ → Option ℤ
positive none = none
positive (some n) = if leb n (2 ^ 63 - 1) then some (pos n) else none

abbrev negative : Option ℕ → Option ℤ
negative none = none
negative (some ℕ.zero) = some (pos 0)
negative (some (suc n)) = if leb (suc n) (2 ^ 63) then some (negsuc n) else none

unfoldable pub atoi : String → Option ℤ
unfolding magnitude read_digits
atoi String.[] = none
atoi (String.◌∷◌ c s) =
    if eqb (code c) b'-'
    then negative (magnitude s)
    else if eqb (code c) b'+'
    then positive (magnitude s)
    else positive (magnitude (String.◌∷◌ c s))
