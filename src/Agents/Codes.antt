-- ===== src/Agents/Codes.antt =====
-- The codes of a batch's cards (backend/h5_backend/services/admin_panel/batch_service.py): as many as
-- are asked for, none of them taken.
use tg_auto_msg.Prelude.{
  ℕ, suc, zero, not, Option, none, some, List, [], ◌∷◌, ◌++◌, String, if◌then◌else◌, ltb, ◌==◌,
  keep, length,
}
use tg_auto_msg.Prelude.Text.{str_gt}
use tg_auto_msg.Agents.Rbac.{lists}

-- `codes.add(code)`
abbrev pub add_code : String → List String → List String
add_code code codes = if lists code codes then codes else codes ++ (code ∷ [])

abbrev insert_code : String → List String → List String
insert_code c [] = c ∷ []
insert_code c (d ∷ ds) = if str_gt c d then d ∷ insert_code c ds else c ∷ d ∷ ds

-- `sorted(codes)`
abbrev pub sorted : List String → List String
sorted [] = []
sorted (c ∷ cs) = insert_code c (sorted cs)

-- `code n` is the n-th code that the random source gives.
module _ (code : ℕ → String) where
  -- Draws until there are `quantity` codes, `turns` times at most; the count of draws goes on.
  abbrev pub draw_codes : ℕ → ℕ → List String → ℕ → List String × ℕ
  draw_codes zero quantity codes n = (codes, n)
  draw_codes (suc turns) quantity codes n =
      let more = draw_codes turns quantity (add_code (code n) codes) (suc n) in
      if ltb (length codes) quantity then more else (codes, n)

  -- The loop that puts other codes for those that a card has already. `none` where the turns do not
  -- suffice; `draws` bounds the inner loop, which the source leaves unbounded.
  abbrev pub replace_taken : ℕ → ℕ → List String → ℕ → List String → ℕ → Option (List String × ℕ)
  replace_taken zero draws taken quantity codes n = none
  replace_taken (suc turns) draws taken quantity codes n =
      let fresh = keep (λ c. not (lists c taken)) codes in
      let (filled, next) = draw_codes draws quantity fresh n in
      let again = replace_taken turns draws taken quantity filled next in
      if length fresh == length codes
      then some (codes, n)
      else if ltb (length filled) quantity
      then none
      else again
