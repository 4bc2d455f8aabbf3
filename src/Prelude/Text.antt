-- ===== src/Prelude/Text.antt =====
-- What the program does with a Python `str`: its length in characters, `strip`, membership.
use Prim.Native.Nat.{ℕ}
use Prim.Native.Char.{Char, code}
use Prim.Native.String.{String}
use mathlib.Core.Path.{◌≡◌, refl}
use mathlib.Core.Bool.{Bool, true, false, not, ◌&&◌, ◌||◌}
use mathlib.Core.List.{List, [], ◌∷◌}
use text.Mathlib.Text.{◌==◌}
use v91_core_system.Prelude.Tests.{leb, eqb, if◌then◌else◌}
use v91_core_system.Prelude.Lists.{length, any, all}

-- The code points of a text.
abbrev pub codes : String → List ℕ
codes String.[] = []
codes (String.◌∷◌ c s) = code c ∷ codes s

-- `len(s)`
abbrev pub count_chars : String → ℕ
count_chars s = length (codes s)

-- `s.isascii()`
abbrev pub is_ascii : String → Bool
is_ascii s = all (λ c. leb c 127) (codes s)

-- `str.isspace` of one character: the white space that `strip` removes.
unfoldable pub is_space : ℕ → Bool
is_space c =
    (leb 9 c && leb c 13)
    || (leb 28 c && leb c 32)
    || eqb c 133
    || eqb c 160
    || eqb c 5760
    || (leb 8192 c && leb c 8202)
    || eqb c 8232
    || eqb c 8233
    || eqb c 8239
    || eqb c 8287
    || eqb c 12288

-- `not s.strip()`: nothing is left of the text.
unfoldable pub is_blank : String → Bool
unfolding is_space
is_blank s = not (any (λ c. not (is_space c)) (codes s))

-- `s.strip()`
abbrev pub lstrip : String → String
lstrip String.[] = String.[]
lstrip (String.◌∷◌ c s) = if is_space (code c) then lstrip s else String.◌∷◌ c s

abbrev pub rstrip : String → String
rstrip String.[] = String.[]
rstrip (String.◌∷◌ c s) =
    let rest = rstrip s in if is_space (code c) && rest == "" then String.[] else String.◌∷◌ c rest

abbrev pub strip : String → String
strip s = rstrip (lstrip s)

-- `s.endswith(c)` and `s[:-1]`, for a text `c` of one character.
abbrev pub ends_with : String → String → Bool
ends_with c String.[] = false
ends_with c (String.◌∷◌ a String.[]) = String.◌∷◌ a String.[] == c
ends_with c (String.◌∷◌ a (String.◌∷◌ b s)) = ends_with c (String.◌∷◌ b s)

abbrev pub drop_last : String → String
drop_last String.[] = String.[]
drop_last (String.◌∷◌ a String.[]) = String.[]
drop_last (String.◌∷◌ a (String.◌∷◌ b s)) = String.◌∷◌ a (drop_last (String.◌∷◌ b s))

-- `s.lstrip(c)`, for a text `c` of one character.
abbrev pub lstrip_of : String → String → String
lstrip_of c String.[] = String.[]
lstrip_of c (String.◌∷◌ a s) = if String.◌∷◌ a String.[] == c then lstrip_of c s else String.◌∷◌ a s

-- The character of the second text that stands where the first text has `c`, or `c` itself.
abbrev translate : String → String → Char → Char
translate (String.◌∷◌ a xs) (String.◌∷◌ b bs) c =
    if eqb (code a) (code c) then b else translate xs bs c
translate _ _ c = c

-- `s.lower()`, for the letters of ASCII; the program compares the result with ASCII words.
abbrev pub lower : String → String
lower String.[] = String.[]
lower (String.◌∷◌ c s) =
    String.◌∷◌ (translate "ABCDEFGHIJKLMNOPQRSTUVWXYZ" "abcdefghijklmnopqrstuvwxyz" c) (lower s)

-- A character that ends a line for `s.splitlines()`.
abbrev pub is_line_end : ℕ → Bool
is_line_end c =
    (leb 10 c && leb c 13) || (leb 28 c && leb c 30) || eqb c 133 || eqb c 8232 || eqb c 8233

-- The lines with `c` put before the first.
abbrev add_char : Char → List String → List String
add_char c [] = String.◌∷◌ c String.[] ∷ []
add_char c (l ∷ ls) = String.◌∷◌ c l ∷ ls

-- `s.splitlines()`: "\r\n" is one end, and no line follows the last end.
abbrev pub splitlines : String → List String
splitlines String.[] = []
splitlines (String.◌∷◌ c String.[]) =
    if is_line_end (code c) then "" ∷ [] else String.◌∷◌ c String.[] ∷ []
splitlines (String.◌∷◌ c (String.◌∷◌ d s)) =
    let rest = splitlines (String.◌∷◌ d s) in
    if eqb (code c) 13 && eqb (code d) 10
    then rest
    else if is_line_end (code c)
    then "" ∷ rest
    else add_char c rest

-- `s in {…}`
abbrev pub one_of : String → List String → Bool
one_of s = any (λ t. t == s)

blank_test : is_blank " \t " ≡ true
unfolding is_blank
blank_test = refl

not_blank_test : is_blank " a " ≡ false
unfolding is_blank
not_blank_test = refl

strip_test : strip " 7 % " ≡ "7 %"
unfolding is_space
strip_test = refl

drop_last_test : drop_last "7%" ≡ "7"
drop_last_test = refl

lower_test : lower "RunninG-1" ≡ "running-1"
lower_test = refl

splitlines_test : splitlines "a\nbc\n\nd\n" ≡ "a" ∷ "bc" ∷ "" ∷ "d" ∷ []
splitlines_test = refl

-- `s + t`
abbrev pub join : String → String → String
join String.[] t = t
join (String.◌∷◌ c s) t = String.◌∷◌ c (join s t)

join_test : join "ab" "c" ≡ "abc"
join_test = refl
