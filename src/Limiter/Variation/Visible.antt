-- ===== src/Limiter/Variation/Visible.antt =====
-- What a reader sees of a varied text.
use Prim.Native.Char.{Char}
use Prim.Native.String.{◌++◌}
use text.Mathlib.TextLemmas.{nil-append, cons-append}
use tg_auto_msg.Prelude.{
  ℕ, zero, suc, ◌+◌, ◌≤◌, ◌≡◌, refl, ap, ◌∙◌, inl, inr, min, true, List, [], ◌∷◌, String, arith,
  if◌then◌else◌, length, is_empty, Bool-cases, All,
}
use tg_auto_msg.Prelude.Text.{is_blank, str_len, str_len-append}
use tg_auto_msg.Limiter.Variation.{
  zero_width_chars, is_zero_width, joined, insert_at, insert_all, sorted_in, sorted_down,
  safe_invisible_insert_positions, add_zero_width_chars, varied, add_invisible_variation,
}

-- The text without its zero-width characters.
abbrev pub visible : String → String
visible String.[] = ""
visible (String.◌∷◌ c s) = if is_zero_width c then visible s else String.◌∷◌ c (visible s)

visible-insert_at :
    (n : ℕ) (c : Char) (s : String) → is_zero_width c ≡ true → visible (insert_at n c s) ≡ visible s
visible-insert_at zero c s h = rw h refl
visible-insert_at (suc n) c String.[] h = rw h refl
visible-insert_at (suc n) c (String.◌∷◌ d s) h = rw (visible-insert_at n c s h) refl

visible-insert_all :
    (ns : List ℕ) (c : Char) (s : String)
    → is_zero_width c ≡ true
    → visible (insert_all ns c s) ≡ visible s
visible-insert_all [] c s h = refl
visible-insert_all (n ∷ ns) c s h =
    visible-insert_all ns c (insert_at n c s) h ∙ visible-insert_at n c s h

visible-joined : (cs : List Char) → All (λ c. is_zero_width c ≡ true) cs → visible (joined cs) ≡ ""
visible-joined [] h = refl
visible-joined (c ∷ cs) h = rw (h.0) (visible-joined cs h.1)

visible-append : (s t : String) → visible t ≡ "" → visible (s ++ t) ≡ visible s
visible-append String.[] t h = rw nil-append h
visible-append (String.◌∷◌ c s) t h = rw (cons-append c s t) (rw (visible-append s t h) refl)

len-insert_at : (n : ℕ) (c : Char) (s : String) → str_len (insert_at n c s) ≡ suc (str_len s)
len-insert_at zero c s = refl
len-insert_at (suc n) c String.[] = refl
len-insert_at (suc n) c (String.◌∷◌ d s) = ap suc (len-insert_at n c s)

len-insert_all :
    (ns : List ℕ) (c : Char) (s : String) → str_len (insert_all ns c s) ≡ length ns + str_len s
len-insert_all [] c s = omega arith
len-insert_all (n ∷ ns) c s =
    omega (arith, len-insert_all ns c (insert_at n c s), len-insert_at n c s)

len-sorted_in : (n : ℕ) (ns : List ℕ) → length (sorted_in n ns) ≡ suc (length ns)
len-sorted_in n [] = refl
len-sorted_in n (m ∷ ms) = ground (arith, len-sorted_in n ms)

len-sorted_down : (ns : List ℕ) → length (sorted_down ns) ≡ length ns
len-sorted_down [] = refl
len-sorted_down (n ∷ ns) = omega (arith, len-sorted_in n (sorted_down ns), len-sorted_down ns)

len-joined : (cs : List Char) → str_len (joined cs) ≡ length cs
len-joined [] = refl
len-joined (c ∷ cs) = ap suc (len-joined cs)

module _ (num_chars : ℕ) (sample : List Char → ℕ → List Char)
    (sample_positions : List ℕ → ℕ → List ℕ) (choice : List Char → Char)
    (spans : String → List (ℕ × ℕ)) (some_chars : (1 ≤ num_chars) × (num_chars ≤ 3))
    (sampled : (All (λ c. is_zero_width c ≡ true) (sample zero_width_chars num_chars))
      × (length (sample zero_width_chars num_chars) ≡ num_chars))
    (positions : (candidates : List ℕ) (n : ℕ) → length (sample_positions candidates n) ≤ n)
    (chosen : is_zero_width (choice zero_width_chars) ≡ true) where
  tail_added :
      (text : String)
      → let result = text ++ joined (sample zero_width_chars num_chars) in
        (visible result ≡ visible text)
        × (str_len text + 1 ≤ str_len result)
        × (str_len result ≤ str_len text + 3)
  tail_added text =
      let tail = joined (sample zero_width_chars num_chars) in
      let (all, count) = sampled in
      let size = str_len-append text tail in
      let drawn = len-joined (sample zero_width_chars num_chars) in
      (
        visible-append text tail (visible-joined _ all),
        omega (arith, size, drawn, count),
        omega (arith, size, drawn, count),
      )

  varied_lem :
      (result : String) (candidates : List ℕ)
      → let after = varied num_chars sample sample_positions choice spans result candidates in
        (visible after ≡ visible result)
        × (str_len result ≤ str_len after)
        × (str_len after ≤ str_len result + 2)
  varied_lem result candidates = elim (Bool-cases (is_empty candidates)) [
    | inl none_safe ↦ rw none_safe (refl, omega arith, omega arith)
    | inr safe ↦
        let ns = sample_positions candidates (min 2 (length candidates)) in
        let few = positions candidates (min 2 (length candidates)) in
        let size = len-insert_all (sorted_down ns) (choice zero_width_chars) result in
        let count = len-sorted_down ns in
        rw safe (
          visible-insert_all (sorted_down ns) (choice zero_width_chars) result chosen,
          omega (arith, size),
          omega (arith, size, count, few),
        )
  ]

  -- If the draws are of zero-width characters, one to three, and of at most as many positions as
  -- asked for, a varied text is the text itself but for zero-width characters. Unless it is
  -- empty, it is longer by one to five characters.
  pub variation_invisible :
      (text : String)
      → let after = add_invisible_variation num_chars sample sample_positions choice spans text in
        (visible after ≡ visible text)
        × ((if is_blank text then 0 else str_len text + 1) ≤ str_len after)
        × (str_len after ≤ str_len text + 5)
  unfolding add_invisible_variation add_zero_width_chars
  variation_invisible String.[] = (refl, omega arith, omega arith)
  variation_invisible (String.◌∷◌ c s) =
      let text = String.◌∷◌ c s in
      let (read, more, most) = tail_added text in
      let result = text ++ joined (sample zero_width_chars num_chars) in
      let (same, least, longest) =
        varied_lem result (safe_invisible_insert_positions spans result) in
      (same ∙ read, omega (arith, more, least), omega (arith, most, longest))
