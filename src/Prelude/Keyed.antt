-- ===== src/Prelude/Keyed.antt =====
-- Tables with a text as their key, and the row that a choice of the greatest returns.
use mathlib.Core.Path.{◌≡◌, refl, ap, subst}
use mathlib.Core.Logic.{inl, inr}
use mathlib.Core.Bool.{Bool, true, false, ◌&&◌}
use mathlib.Core.Option.{none, some}
use mathlib.Core.List.{List, [], ◌∷◌}
pub use mathlib.Core.List.{Memᴰ}
use Prim.Native.String.{String}
use native.Mathlib.Omega.{arith}
use text.Mathlib.TextPositions.{eq_refl}
use tg_auto_msg.Prelude.Tests.{Bool-cases}
use tg_auto_msg.Prelude.Lists.{keep, any, best, best_of, find}
use tg_auto_msg.Prelude.Text.{str_eq, eq_iff}

module _ {ℓ} {A : Type ℓ} where
  pub best_of-Mem : (gt : A → A → Bool) (x : A) (xs : List A) → Memᴰ (best_of gt x xs) (x ∷ xs)
  best_of-Mem gt x [] = Memᴰ.head refl
  best_of-Mem gt x (y ∷ ys) = elim (Bool-cases (gt y x)) [
    | inl greater ↦ rw greater (Memᴰ.tail (best_of-Mem gt y ys))
    | inr not_greater ↦ rw not_greater (skip (best_of-Mem gt x ys))
  ]
    where
      skip : Memᴰ (best_of gt x ys) (x ∷ ys) → Memᴰ (best_of gt x ys) (x ∷ y ∷ ys)
      skip (Memᴰ.head e) = Memᴰ.head e
      skip (Memᴰ.tail m) = Memᴰ.tail (Memᴰ.tail m)

  pub best-Mem : (gt : A → A → Bool) (xs : List A) (p : A) → best gt xs ≡ some p → Memᴰ p xs
  best-Mem gt [] p e = cc
  best-Mem gt (x ∷ xs) p e =
      let same : best_of gt x xs ≡ p = cc in subst (λ q. Memᴰ q (x ∷ xs)) same (best_of-Mem gt x xs)

  pub best-none : (gt : A → A → Bool) (xs : List A) → best gt xs ≡ none → xs ≡ []
  best-none gt [] e = refl
  best-none gt (x ∷ xs) e = cc

  kept-Mem :
      (q : A → Bool) (p x : A) (xs : List A)
      → q x ≡ true
      → ((Memᴰ p (keep q xs)) → Memᴰ p xs × (q p ≡ true))
      → Memᴰ p (x ∷ keep q xs)
      → Memᴰ p (x ∷ xs) × (q p ≡ true)
  kept-Mem q p x xs kept ih (Memᴰ.head e) = (Memᴰ.head e, rw e kept)
  kept-Mem q p x xs kept ih (Memᴰ.tail n) = let (m, t) = ih n in (Memᴰ.tail m, t)

  pub Mem-keep :
      (q : A → Bool) (p : A) (xs : List A) → Memᴰ p (keep q xs) → Memᴰ p xs × (q p ≡ true)
  Mem-keep q p [] m = elim m [ ]
  Mem-keep q p (x ∷ xs) m = elim (Bool-cases (q x)) [
    | inl kept ↦ kept-Mem q p x xs kept (Mem-keep q p xs) (rw kept at m)
    | inr left ↦ let (n, t) = Mem-keep q p xs (rw left at m) in (Memᴰ.tail n, t)
  ]

  pub find-Mem :
      (q : A → Bool) (xs : List A) (p : A) → find q xs ≡ some p → Memᴰ p xs × (q p ≡ true)
  find-Mem q [] p e = cc
  find-Mem q (x ∷ xs) p e = elim (Bool-cases (q x)) [
    | inl hit ↦
        let found : some x ≡ some p = rw hit at e in
        let same : p ≡ x = cc in (Memᴰ.head same, rw same hit)
    | inr miss ↦ let (m, t) = find-Mem q xs p (rw miss at e) in (Memᴰ.tail m, t)
  ]

-- No key is listed twice.
abbrev pub IsKeyedBy {ℓ} : {A : Type ℓ} → (A → String) → List A → Type 0
IsKeyedBy key [] = Unit
IsKeyedBy key (x ∷ xs) = (any (λ y. str_eq (key y) (key x)) xs ≡ false) × IsKeyedBy key xs

module _ {ℓ} {A : Type ℓ} (key : A → String) where
  pub Mem-key : (p : A) (xs : List A) → Memᴰ p xs → any (λ y. str_eq (key y) (key p)) xs ≡ true
  Mem-key p [] m = elim m [ ]
  Mem-key p (x ∷ xs) (Memᴰ.head e) = rw (← e, eq_refl (key p)) refl
  Mem-key p (x ∷ xs) (Memᴰ.tail m) = ground (arith, Mem-key p xs m)

  keep_absent :
      (r : A → Bool) (k : String) (xs : List A)
      → any (λ y. str_eq (key y) k) xs ≡ false
      → keep (λ y. r y && str_eq (key y) k) xs ≡ []
  keep_absent r k [] h = refl
  keep_absent r k (x ∷ xs) h = ground (arith, keep_absent r k xs)

  -- The rows with the key of a listed row are that row.
  pub keep_key :
      (r : A → Bool) (p : A) (xs : List A)
      → IsKeyedBy key xs
      → Memᴰ p xs
      → r p ≡ true
      → keep (λ y. r y && str_eq (key y) (key p)) xs ≡ p ∷ []
  keep_key r p [] keyed m h = elim m [ ]
  keep_key r p (x ∷ xs) keyed (Memᴰ.head e) h =
      let absent : any (λ y. str_eq (key y) (key p)) xs ≡ false = rw (← e) at (keyed.0) in
      rw (← e, h, eq_refl (key p)) (ap (λ l. p ∷ l) (keep_absent r (key p) xs absent))
  keep_key r p (x ∷ xs) keyed (Memᴰ.tail m) h = elim (Bool-cases (str_eq (key x) (key p))) [
    | inl same ↦
        let here : any (λ y. str_eq (key y) (key p)) xs ≡ true = Mem-key p xs m in
        let e : key x ≡ key p = (eq_iff (key x) (key p)).0 same in
        let absent : any (λ y. str_eq (key y) (key p)) xs ≡ false =
          subst (λ k. any (λ y. str_eq (key y) k) xs ≡ false) e keyed.0 in
        absurd (cc)
    | inr differ ↦ ground (arith, keep_key r p xs keyed.1 m h)
  ]
