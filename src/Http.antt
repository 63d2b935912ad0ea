-- ===== src/Http.antt =====
-- What a service of backend/h5_backend answers: a value, or the status and the text of an
-- HTTPException, on which the session is rolled back.
use tg_auto_msg.Prelude.{ℕ, ◌≡◌, refl, ◌⊎◌, inl, inr, Bool, true, false, Option, none, some, String}

pub record HttpException : Type 0 where
  pub status_code : ℕ
  pub detail : String

pub data Result {ℓ} (A : Type ℓ) : Type ℓ where
  ok : A → Result A
  refused : HttpException → Result A

abbrev pub refuse {ℓ} : {A : Type ℓ} → ℕ → String → Result A
refuse status detail = refused (record { status_code = status; detail = detail })

-- `raise` leaves what follows.
infixl 10 ◌>>=◌
abbrev pub ◌>>=◌ {ℓ κ} : {A : Type ℓ} {B : Type κ} → Result A → (A → Result B) → Result B
ok a >>= f = f a
refused e >>= f = refused e

-- `if x is None: raise`
abbrev pub found_or {ℓ} : {A : Type ℓ} → ℕ → String → Option A → Result A
found_or status detail none = refuse status detail
found_or status detail (some a) = ok a

-- `if b: raise`
abbrev pub refuse_if {ℓ} : {A : Type ℓ} → Bool → ℕ → String → Result A → Result A
refuse_if true status detail r = refuse status detail
refuse_if false status detail r = r

pub bind-ok {ℓ κ} :
    {A : Type ℓ} {B : Type κ} (r : Result A) (f : A → Result B) (b : B)
    → r >>= f ≡ ok b
    → (a : A) × (r ≡ ok a) × (f a ≡ ok b)
bind-ok (ok a) f b e = (a, refl, e)
bind-ok (refused x) f b e = cc

pub refuse_if-ok {ℓ} :
    {A : Type ℓ} (t : Bool) (status : ℕ) (detail : String) (r : Result A) (a : A)
    → refuse_if t status detail r ≡ ok a
    → (t ≡ false) × (r ≡ ok a)
refuse_if-ok true status detail r a e = cc
refuse_if-ok false status detail r a e = (refl, e)

pub found_or-ok {ℓ} :
    {A : Type ℓ} (status : ℕ) (detail : String) (o : Option A) (a : A)
    → found_or status detail o ≡ ok a
    → o ≡ some a
found_or-ok status detail none a e = cc
found_or-ok status detail (some b) a e = cc

pub ok_same {ℓ} : {A : Type ℓ} (a b : A) → ok a ≡ ok b → a ≡ b
ok_same a b e = cc

pub Result-cases {ℓ} :
    {A : Type ℓ} (r : Result A) → ((x : HttpException) × (r ≡ refused x)) ⊎ ((a : A) × (r ≡ ok a))
Result-cases (ok a) = inr (a, refl)
Result-cases (refused x) = inl (x, refl)

pub some_ok_same {ℓ} : {A : Type ℓ} (a b : A) → some (ok a) ≡ some (ok b) → a ≡ b
some_ok_same a b e = cc
