-- ===== src/Prelude/Text.antt =====
-- Python's `str`: the methods of text that the program uses. Letters outside ASCII are left alone
-- by `lower`; `is_space` lists all the white space that `strip` removes.
use Prim.Native.Nat.{ℕ, zero, suc, ◌+◌, ◌-◌, ◌*◌, ◌/◌, ◌%◌, ◌≤◌}
use Prim.Native.Char.{Char, code}
use Prim.Native.String.{String, char_at, ◌++◌, compare}
use Prim.Native.Nat.{Ordering}
use mathlib.Core.Path.{◌≡◌, refl}
use mathlib.Core.Bool.{Bool, true, false, ◌&&◌, ◌||◌}
use mathlib.Core.Option.{Option, none, some}
use tg_auto_msg.Prelude.Tests.{leb, ◌==◌, if◌then◌else◌}
use native.Mathlib.Omega.{arith}
use text.Mathlib.TextLemmas.{nil-append, cons-append}
use tg_auto_msg.Prelude.Int.{ℤ, pos, negsuc}
pub use text.Mathlib.Text.{◌==◌ as str_eq, starts_with}
pub use text.Mathlib.TextEquality.{eq_iff}

-- `not s`
abbrev pub is_blank : String → Bool
is_blank String.[] = true
is_blank (String.◌∷◌ c s) = false

abbrev pub is_space : Char → Bool
is_space c =
    leb 9 (code c) && leb (code c) 13
    || leb 28 (code c) && leb (code c) 32
    || code c == 0x85
    || code c == 0xa0
    || code c == 0x1680
    || leb 0x2000 (code c) && leb (code c) 0x200a
    || code c == 0x2028
    || code c == 0x2029
    || code c == 0x202f
    || code c == 0x205f
    || code c == 0x3000

strip_left : String → String
strip_left String.[] = ""
strip_left (String.◌∷◌ c s) = if is_space c then strip_left s else String.◌∷◌ c s

strip_right : String → String
strip_right String.[] = ""
strip_right (String.◌∷◌ c s) =
    let r = strip_right s in if is_blank r && is_space c then "" else String.◌∷◌ c r

-- `s.strip()`
unfoldable pub strip : String → String
unfolding strip_left strip_right
strip s = strip_left (strip_right s)

abbrev lower_char : Char → Char
lower_char c =
    if leb 65 (code c) && leb (code c) 90
    then char_at "abcdefghijklmnopqrstuvwxyz" (code c - 65)
    else c

-- `s.lower()`
unfoldable pub lower : String → String
lower String.[] = ""
lower (String.◌∷◌ c s) = String.◌∷◌ (lower_char c) (lower s)

abbrev upper_char : Char → Char
upper_char c =
    if leb 97 (code c) && leb (code c) 122
    then char_at "ABCDEFGHIJKLMNOPQRSTUVWXYZ" (code c - 97)
    else c

-- `s.upper()`, of letters in ASCII.
unfoldable pub upper : String → String
upper String.[] = ""
upper (String.◌∷◌ c s) = String.◌∷◌ (upper_char c) (upper s)

-- `s > t`, by code points.
abbrev pub str_gt : String → String → Bool
str_gt s t = elim (compare s t) [ Ordering.gt ↦ true | _ ↦ false ]

-- `len(s)`: the code points.
abbrev pub str_len : String → ℕ
str_len String.[] = 0
str_len (String.◌∷◌ c s) = suc (str_len s)

-- `s[:n]`
abbrev pub str_take : ℕ → String → String
str_take zero s = ""
str_take (suc n) String.[] = ""
str_take (suc n) (String.◌∷◌ c s) = String.◌∷◌ c (str_take n s)

-- `s.replace("\n", " ")`
unfoldable pub replace_newlines : String → String
replace_newlines String.[] = ""
replace_newlines (String.◌∷◌ c s) =
    String.◌∷◌ (if code c == 10 then " " else c) (replace_newlines s)

-- `word in s`
pub str_contains : String → String → Bool
str_contains word String.[] = is_blank word
str_contains word (String.◌∷◌ c s) = starts_with (String.◌∷◌ c s) word || str_contains word s

show_digits : ℕ → ℕ → String → String
show_digits zero n acc = acc
show_digits (suc f) n acc =
    let rest = show_digits f (n / 10) (String.◌∷◌ (char_at "0123456789" (n % 10)) acc) in
    if n / 10 == 0 then String.◌∷◌ (char_at "0123456789" (n % 10)) acc else rest

-- `str(n)`. A number has at most `n + 1` digits.
pub show_ℕ : ℕ → String
unfolding show_digits
show_ℕ n = show_digits (suc n) n ""

unfoldable pub show_ℤ : ℤ → String
unfolding show_ℕ
show_ℤ (pos n) = show_ℕ n
show_ℤ (negsuc n) = String.◌∷◌ "-" (show_ℕ (suc n))

-- The digits of `int(s)`, a single `_` allowed between two of them: `before` tells whether the
-- last character was a digit.
parse_digits : Bool → ℕ → String → Option ℕ
parse_digits before acc String.[] = if before then some acc else none
parse_digits before acc (String.◌∷◌ c s) =
    let digit = parse_digits true (acc * 10 + (code c - 48)) s in
    let underscore = parse_digits false acc s in
    if leb 48 (code c) && leb (code c) 57
    then digit
    else if code c == 95 && before
    then underscore
    else none

parse_signed : String → Option ℤ
unfolding parse_digits
parse_signed String.[] = none
parse_signed (String.◌∷◌ c s) =
    if code c == 45
    then elim (parse_digits false 0 s) [
      | none ↦ none
      | some zero ↦ some (pos 0)
      | some (suc n) ↦ some (negsuc n)
    ]
    else elim (parse_digits false 0 (if code c == 43 then s else String.◌∷◌ c s)) [
      | none ↦ none
      | some n ↦ some (pos n)
    ]

-- `int(s)` of a text, in ASCII digits; `none` is ValueError.
unfoldable pub int_of_str : String → Option ℤ
unfolding parse_signed strip
int_of_str s = parse_signed (strip s)

int_of_str-test : int_of_str " -1_002 " ≡ some (negsuc 1001)
unfolding int_of_str
int_of_str-test = refl

lower-strip-test : lower (strip "  SuperGroup ") ≡ "supergroup"
unfolding lower strip
lower-strip-test = refl

show_ℤ-test : show_ℤ (negsuc 1001) ≡ "-1002"
unfolding show_ℤ
show_ℤ-test = refl

str_contains-test : str_contains "key" "bad auth_key here" ≡ true
unfolding str_contains
str_contains-test = refl

pub str_len-append : (s t : String) → str_len (s ++ t) ≡ str_len s + str_len t
str_len-append String.[] t = rw nil-append (omega arith)
str_len-append (String.◌∷◌ c s) t = rw cons-append (omega (arith, str_len-append s t))

pub str_len-str_take-le : (n : ℕ) (s : String) → str_len (str_take n s) ≤ n
str_len-str_take-le zero s = omega arith
str_len-str_take-le (suc n) String.[] = omega arith
str_len-str_take-le (suc n) (String.◌∷◌ c s) = omega (arith, str_len-str_take-le n s)
