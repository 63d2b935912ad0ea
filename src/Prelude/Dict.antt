-- ===== src/Prelude/Dict.antt =====
-- A Python dict with text keys, in insertion order.
use Prim.Native.String.{String}
use mathlib.Core.Path.{◌≡◌, refl, subst}
use mathlib.Core.Logic.{inl, inr}
use mathlib.Core.Option.{Option, none, some}
use mathlib.Core.List.{List, [], ◌∷◌}
use native.Mathlib.Omega.{arith}
use tg_auto_msg.Prelude.Tests.{if◌then◌else◌, Bool-cases}
use tg_auto_msg.Prelude.Lists.{All}
use text.Mathlib.TextPositions.{eq_refl}
use tg_auto_msg.Prelude.Text.{str_eq, eq_iff}

abbrev pub Dict {ℓ} : Type ℓ → Type ℓ
Dict V = List (String × V)

module _ {ℓ} {V : Type ℓ} where
  unfoldable pub lookup : String → Dict V → Option V
  lookup k [] = none
  lookup k ((j, v) ∷ d) = if str_eq j k then some v else lookup k d

  -- `d[k] = v`
  unfoldable pub insert : String → V → Dict V → Dict V
  insert k v [] = (k, v) ∷ []
  insert k v ((j, w) ∷ d) = if str_eq j k then (j, v) ∷ d else (j, w) ∷ insert k v d

  -- `d.pop(k, None)`
  pub erase : String → Dict V → Dict V
  erase k [] = []
  erase k ((j, w) ∷ d) = if str_eq j k then erase k d else (j, w) ∷ erase k d

  pub lookup-insert :
      (k j : String) (v : V) (d : Dict V)
      → lookup j (insert k v d) ≡ (if str_eq k j then some v else lookup j d)
  unfolding lookup insert
  lookup-insert k j v [] = refl
  lookup-insert k j v ((i, w) ∷ d) =
      ground (arith, eq_iff k j, eq_iff i k, eq_iff i j, lookup-insert k j v d)

  pub lookup-erase :
      (k j : String) (d : Dict V) → lookup j (erase k d) ≡ (if str_eq k j then none else lookup j d)
  unfolding lookup erase
  lookup-erase k j [] = ground arith
  lookup-erase k j ((i, w) ∷ d) =
      ground (arith, eq_iff k j, eq_iff i k, eq_iff i j, lookup-erase k j d)

  -- What holds of every value of a dict holds of the one that is found.
  pub lookup-All {κ} :
      (P : V → Type κ) (k : String) (v : V) (d : Dict V)
      → All (λ e. P e.1) d
      → lookup k d ≡ some v
      → P v
  unfolding lookup
  lookup-All P k v [] h e = cc
  lookup-All P k v ((j, w) ∷ d) h e = elim (Bool-cases (str_eq j k)) [
    | inl hit ↦ let found : some w ≡ some v = rw hit at e in subst P (cc) h.0
    | inr miss ↦ lookup-All P k v d h.1 (rw miss at e)
  ]

  -- A write under one key is seen at that key and at no other.
  pub lookup-insert_self : (k : String) (v : V) (d : Dict V) → lookup k (insert k v d) ≡ some v
  lookup-insert_self k v d = simp (lookup-insert, eq_refl)
