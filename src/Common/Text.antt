-- ===== src/Common/Text.antt =====
-- Texts as lists of code points, and the character classes of the patterns in the source.
use Prim.Native.Nat.{ℕ, ◌+◌, ◌-◌, ◌/◌, ◌%◌}
use Prim.Native.Char.{Char, code}
use Prim.Native.String.{String}
use mathlib.Core.Path.{◌≡◌, refl}
use mathlib.Core.Logic.{◌↔◌}
use native.Mathlib.Omega.{arith}
use mathlib.Core.Bool.{Bool, true, false, ◌&&◌, ◌||◌}
use mathlib.Core.List.{List, [], ◌∷◌, map}
use hyper_trader.Common.Tests.{ltb, leb, ◌==◌, if◌then◌else◌}
use hyper_trader.Common.Lists.{length, all, find}
use mathlib.Core.Option.{none, some}

abbrev pub codes : String → List ℕ
codes String.[] = []
codes (String.◌∷◌ c s) = code c ∷ codes s

-- The UTF-16 code units of a text, which are what JavaScript counts, and what a pattern without the
-- flag `u` matches.
abbrev pub utf16_units : List ℕ → List ℕ
utf16_units [] = []
utf16_units (c ∷ s) =
    let rest = utf16_units s in
    if ltb c 0x10000
    then c ∷ rest
    else (0xd800 + (c - 0x10000) / 0x400) ∷ (0xdc00 + (c - 0x10000) % 0x400) ∷ rest

-- `\d`, `[0-9a-f]`, `[0-9a-fA-F]`
unfoldable pub is_digit : ℕ → Bool
is_digit c = leb b'0' c && leb c b'9'

unfoldable pub is_lower_hex : ℕ → Bool
unfolding is_digit
is_lower_hex c = is_digit c || (leb b'a' c && leb c b'f')

unfoldable pub is_hex : ℕ → Bool
unfolding is_lower_hex
is_hex c = is_lower_hex c || (leb b'A' c && leb c b'F')

-- `toLowerCase` on ASCII text.
unfoldable pub to_lower : ℕ → ℕ
to_lower c = if leb b'A' c && leb c b'Z' then c + 32 else c

-- `^prefix[class]{n}$` over code points.
unfoldable pub strip_prefix : List ℕ → List ℕ → List ℕ × Bool
strip_prefix [] s = (s, true)
strip_prefix (p ∷ ps) [] = ([], false)
strip_prefix (p ∷ ps) (c ∷ s) = let (rest, found) = strip_prefix ps s in (rest, (p == c) && found)

unfoldable pub matches_fixed : String → (ℕ → Bool) → ℕ → String → Bool
unfolding strip_prefix
matches_fixed start class n s =
    let (rest, found) = strip_prefix (codes start) (codes s) in
    found && ((length rest == n) && all class rest)

-- `^[class]{lo,hi}$`
unfoldable pub matches_bounded : (ℕ → Bool) → ℕ → ℕ → String → Bool
matches_bounded class lo hi s =
    let n = length (codes s) in leb lo n && (leb n hi && all class (codes s))

-- The order that SQLite's BINARY collation puts ASCII texts in.
unfoldable pub lex_lt : List ℕ → List ℕ → Bool
lex_lt [] [] = false
lex_lt [] (_ ∷ _) = true
lex_lt (_ ∷ _) [] = false
lex_lt (a ∷ as') (b ∷ bs) = ltb a b || ((a == b) && lex_lt as' bs)

-- `s.toLowerCase()`, as code points.
abbrev pub lowered : String → List ℕ
lowered s = map to_lower (codes s)

abbrev pub codes_eq : List ℕ → List ℕ → Bool
codes_eq [] [] = true
codes_eq (a ∷ as') (b ∷ bs) = (a == b) && codes_eq as' bs
codes_eq _ _ = false

pub codes_eq_iff : (xs ys : List ℕ) → (codes_eq xs ys ≡ true) ↔ (xs ≡ ys)
codes_eq_iff [] [] = (λ e. refl, λ e. refl)
codes_eq_iff [] (b ∷ bs) = (λ e. cc, λ e. cc)
codes_eq_iff (a ∷ as') [] = (λ e. cc, λ e. cc)
codes_eq_iff (a ∷ as') (b ∷ bs) =
    (λ e. ground (arith, (codes_eq_iff as' bs).0), λ e. ground (arith, (codes_eq_iff as' bs).1))

-- `s.toLowerCase()` as a text again, letter by letter.
small_letters : List (ℕ × Char)
small_letters =
    (b'A', "a")
    ∷ (b'B', "b")
    ∷ (b'C', "c")
    ∷ (b'D', "d")
    ∷ (b'E', "e")
    ∷ (b'F', "f")
    ∷ (b'G', "g")
    ∷ (b'H', "h")
    ∷ (b'I', "i")
    ∷ (b'J', "j")
    ∷ (b'K', "k")
    ∷ (b'L', "l")
    ∷ (b'M', "m")
    ∷ (b'N', "n")
    ∷ (b'O', "o")
    ∷ (b'P', "p")
    ∷ (b'Q', "q")
    ∷ (b'R', "r")
    ∷ (b'S', "s")
    ∷ (b'T', "t")
    ∷ (b'U', "u")
    ∷ (b'V', "v")
    ∷ (b'W', "w")
    ∷ (b'X', "x")
    ∷ (b'Y', "y")
    ∷ (b'Z', "z")
    ∷ []

lower_char : Char → Char
unfolding small_letters
lower_char c = elim (find (λ letter. letter.0 == code c) small_letters) [
  | none ↦ c
  | some letter ↦ letter.1
]

unfoldable pub lower_text : String → String
unfolding lower_char
lower_text String.[] = ""
lower_text (String.◌∷◌ c s) = String.◌∷◌ (lower_char c) (lower_text s)
