-- ===== src/Json.antt =====
-- The values of the JSON columns as the code reads them: by truth, by `str()` and by `int()`.
use tg_auto_msg.Prelude.{
  Bool, true, false, Option, none, some, String, if◌then◌else◌, not, or_else, arith, ◌≡◌,
}
use tg_auto_msg.Prelude.Int.{ℤ, pos, nonzero}
use tg_auto_msg.Prelude.Text.{str_eq, is_blank, show_ℤ, int_of_str}
use tg_auto_msg.Prelude.Dict.{Dict, lookup, insert, lookup-insert}

-- A real carries its truncation, its truth and its `str()`; a list or an object its truth and its
-- `str()`. The code reads nothing else of them.
pub data Value : Type 0 where
  null : Value
  bool : Bool → Value
  num : ℤ → Value
  real : (truncated : ℤ) (truth : Bool) (shown : String) → Value
  text : String → Value
  nested : (truth : Bool) (shown : String) → Value

abbrev pub truthy : Value → Bool
truthy null = false
truthy (bool b) = b
truthy (num z) = nonzero z
truthy (real z t s) = t
truthy (text s) = not (is_blank s)
truthy (nested t s) = t

-- `str(v)`
pub py_str : Value → String
unfolding show_ℤ
py_str null = "None"
py_str (bool true) = "True"
py_str (bool false) = "False"
py_str (num z) = show_ℤ z
py_str (real z t s) = s
py_str (text s) = s
py_str (nested t s) = s

-- `int(v)`; `none` is the exception.
unfoldable pub py_int : Value → Option ℤ
unfolding int_of_str
py_int null = none
py_int (bool true) = some (pos 1)
py_int (bool false) = some (pos 0)
py_int (num z) = some z
py_int (real z t s) = some z
py_int (text s) = int_of_str s
py_int (nested t s) = none

-- `str(v or "")`
unfoldable pub str_or_empty : Value → String
unfolding py_str
str_or_empty v = if truthy v then py_str v else ""

-- `v in (None, "")`
abbrev pub is_absent : Value → Bool
is_absent null = true
is_absent (text s) = is_blank s
is_absent _ = false

-- `d.get(key)`
unfoldable pub get : String → Dict Value → Value
get k d = or_else (lookup k d) null

pub get-insert :
    (k j : String) (v : Value) (d : Dict Value)
    → get j (insert k v d) ≡ (if str_eq k j then v else get j d)
unfolding get
get-insert k j v d = ground (arith, lookup-insert k j v d)
