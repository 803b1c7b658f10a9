-- ===== src/Prelude/Text.antt =====
-- `str.lower` and `str.strip` on ASCII texts, and truth of a text.
use Prim.Native.Char.{Char, code}
use Prim.Native.Nat.{ℕ, zero, suc, ◌+◌, ◌%◌, ◌/◌}
use Prim.Native.String.{String}
use mathlib.Core.Path.{◌≡◌, refl}
use mathlib.Core.Bool.{Bool, true, false, ◌||◌, ◌&&◌}
use mathlib.Core.Option.{Option, none, some}
use aegis_platform_server_te.Prelude.Tests.{◌==◌, ltb, leb, if◌then◌else◌}

-- A text is falsy when it is empty.
abbrev pub is_empty : String → Bool
is_empty String.[] = true
is_empty (String.◌∷◌ c s) = false

-- `f"{s}{t}"`.
abbrev pub concat : String → String → String
concat String.[] t = t
concat (String.◌∷◌ c s) t = String.◌∷◌ c (concat s t)

-- `s or default`.
abbrev pub or_text : String → String → String
or_text s default = if is_empty s then default else s

-- `(s or "")` for an optional text.
abbrev pub text_or_empty : Option String → String
text_or_empty none = ""
text_or_empty (some s) = s

-- `s.startswith(prefix)`.
abbrev pub starts_with : String → String → Bool
starts_with s String.[] = true
starts_with String.[] (String.◌∷◌ c p) = false
starts_with (String.◌∷◌ d s) (String.◌∷◌ c p) = if code d == code c then starts_with s p else false

-- `part in s`.
abbrev pub contains : String → String → Bool
contains String.[] part = is_empty part
contains (String.◌∷◌ c s) part = starts_with (String.◌∷◌ c s) part || contains s part

is_space : Char → Bool
is_space c = code c == 32 || (leb 9 (code c) && leb (code c) 13)

-- The letter of the second alphabet that stands where `c` does in the first.
translate : Char → String → String → Char
translate c (String.◌∷◌ x xs) (String.◌∷◌ y ys) = if code c == code x then y else translate c xs ys
translate c _ _ = c

lower_char : Char → Char
unfolding translate
lower_char c = translate c "ABCDEFGHIJKLMNOPQRSTUVWXYZ" "abcdefghijklmnopqrstuvwxyz"

unfoldable pub lower : String → String
unfolding lower_char
lower String.[] = String.[]
lower (String.◌∷◌ c s) = String.◌∷◌ (lower_char c) (lower s)

upper_char : Char → Char
unfolding translate
upper_char c = translate c "abcdefghijklmnopqrstuvwxyz" "ABCDEFGHIJKLMNOPQRSTUVWXYZ"

unfoldable pub upper : String → String
unfolding upper_char
upper String.[] = String.[]
upper (String.◌∷◌ c s) = String.◌∷◌ (upper_char c) (upper s)

unfoldable pub lstrip : String → String
unfolding is_space
lstrip String.[] = String.[]
lstrip (String.◌∷◌ c s) = if is_space c then lstrip s else String.◌∷◌ c s

unfoldable pub rstrip : String → String
unfolding is_space
rstrip String.[] = String.[]
rstrip (String.◌∷◌ c s) =
    let rest = rstrip s in if is_space c && is_empty rest then String.[] else String.◌∷◌ c rest

unfoldable pub strip : String → String
unfolding lstrip rstrip
strip s = rstrip (lstrip s)

strip_example : strip " Pro " ≡ "Pro"
unfolding strip
strip_example = refl

lower_example : lower "StarTer" ≡ "starter"
unfolding lower
lower_example = refl

-- The character of a text at a position.
char_at : String → ℕ → Char
char_at (String.◌∷◌ c s) zero = c
char_at (String.◌∷◌ c s) (suc n) = char_at s n
char_at String.[] n = "0"

decimal_digits : ℕ → ℕ → String → String
unfolding char_at
decimal_digits zero n rest = rest
decimal_digits (suc fuel) n rest =
    let s = String.◌∷◌ (char_at "0123456789" (n % 10)) rest in
    let more = decimal_digits fuel (n / 10) s in if ltb n 10 then s else more

-- `str(n)` of a natural number, which has no more digits than `n + 1`.
unfoldable pub decimal : ℕ → String
unfolding decimal_digits
decimal n = decimal_digits (n + 1) n String.[]

decimal_example : decimal 4070 ≡ "4070"
unfolding decimal
decimal_example = refl
