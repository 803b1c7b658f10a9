-- ===== src/Prelude/Http.antt =====
-- The outcome of a handler: a value, or an `HTTPException` with its status code.
use Prim.Native.Nat.{ℕ}
use mathlib.Core.Path.{◌≡◌, refl}
use mathlib.Core.Logic.{◌⊎◌, inl, inr}
use mathlib.Core.Bool.{Bool, true, false}

pub data Response {ℓ} (A : Type ℓ) : Type ℓ where
  ok : A → Response A
  http_error : ℕ → Response A

infixl 5 ◌>>=◌ ◌>>◌
abbrev pub ◌>>=◌ {ℓ κ} : {A : Type ℓ} {B : Type κ} → Response A → (A → Response B) → Response B
ok a >>= f = f a
http_error e >>= f = http_error e

abbrev pub ◌>>◌ {ℓ} : {B : Type ℓ} → Response (Unit {0}) → Response B → Response B
m >> k = m >>= λ _. k

-- `if test: raise HTTPException(status_code=code)`.
abbrev pub raise_if : Bool → ℕ → Response (Unit {0})
raise_if true e = http_error e
raise_if false e = ok tt

pub Response-cases {ℓ} :
    {A : Type ℓ} (r : Response A) → ((a : A) × (r ≡ ok a)) ⊎ ((e : ℕ) × (r ≡ http_error e))
Response-cases (ok a) = inl (a, refl)
Response-cases (http_error e) = inr (e, refl)
