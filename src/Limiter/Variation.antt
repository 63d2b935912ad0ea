-- ===== src/Limiter/Variation.antt =====
-- backend/bot/safety/rate_limiter.py: the invisible characters that tell two sends of a text apart.
-- The random draws are parameters, and so are the spans that the patterns of the module `re` match.
pub mod Visible
use Prim.Native.Char.{Char, code}
use Prim.Native.String.{◌++◌}
use tg_auto_msg.Prelude.{
  ℕ, zero, suc, ◌+◌, min, Bool, true, false, ◌&&◌, not, List, [], ◌∷◌, String, if◌then◌else◌, ltb,
  leb, ◌==◌, any, keep, length, is_empty,
}
use tg_auto_msg.Prelude.Text.{is_blank, str_len}

-- ZERO_WIDTH_CHARS
abbrev pub zero_width_chars : List Char
zero_width_chars = "\u{200b}" ∷ "\u{200c}" ∷ "\u{200d}" ∷ "\u{feff}" ∷ []

abbrev pub is_zero_width : Char → Bool
is_zero_width c = any (λ z. code z == code c) zero_width_chars

-- `''.join(chars)`
abbrev pub joined : List Char → String
joined [] = ""
joined (c ∷ cs) = String.◌∷◌ c (joined cs)

-- `chars.insert(pos, c)`, at the end where the list is shorter.
abbrev pub insert_at : ℕ → Char → String → String
insert_at zero c s = String.◌∷◌ c s
insert_at (suc n) c String.[] = String.◌∷◌ c ""
insert_at (suc n) c (String.◌∷◌ d s) = String.◌∷◌ d (insert_at n c s)

abbrev pub insert_all : List ℕ → Char → String → String
insert_all [] c s = s
insert_all (n ∷ ns) c s = insert_all ns c (insert_at n c s)

-- `sorted(ns, reverse=True)`
abbrev sorted_in : ℕ → List ℕ → List ℕ
sorted_in n [] = n ∷ []
sorted_in n (m ∷ ms) = if leb m n then n ∷ m ∷ ms else m ∷ sorted_in n ms

abbrev pub sorted_down : List ℕ → List ℕ
sorted_down [] = []
sorted_down (n ∷ ns) = sorted_in n (sorted_down ns)

abbrev pub range_from : ℕ → ℕ → List ℕ
range_from n zero = []
range_from n (suc count) = n ∷ range_from (suc n) count

abbrev pub is_inside : ℕ → ℕ × ℕ → Bool
is_inside pos (first, last) = ltb first pos && ltb pos last

-- `_safe_invisible_insert_positions`; `spans` are the matches of all patterns.
pub safe_invisible_insert_positions : (String → List (ℕ × ℕ)) → String → List ℕ
safe_invisible_insert_positions spans text =
    if is_empty (spans text)
    then range_from 0 (str_len text)
    else keep (λ pos. not (any (is_inside pos) (spans text))) (range_from 0 (str_len text))

-- The draws: `num_chars` of `randint(1, 3)`, and `sample` and `choice` of the module `random`.
module _ (num_chars : ℕ) (sample : List Char → ℕ → List Char)
    (sample_positions : List ℕ → ℕ → List ℕ) (choice : List Char → Char)
    (spans : String → List (ℕ × ℕ)) where
  pub add_zero_width_chars : String → String
  add_zero_width_chars text =
      if is_blank text then text else text ++ joined (sample zero_width_chars num_chars)

  abbrev pub varied : String → List ℕ → String
  varied result candidates =
      if is_empty candidates
      then result
      else insert_all (sorted_down (sample_positions candidates (min 2 (length candidates))))
          (choice zero_width_chars) result

  pub add_invisible_variation : String → String
  add_invisible_variation text =
      let result = add_zero_width_chars text in
      if is_blank text then text else varied result (safe_invisible_insert_positions spans result)
