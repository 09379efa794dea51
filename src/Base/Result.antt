-- ===== src/Base/Result.antt =====
-- A Python function that may raise returns a `Result`; `Raised` has the exceptions that the
-- program tells apart.
use mathlib.Core.Path.{◌≡◌, refl}

pub data Raised : Type 0 where
  key_error value_error type_error file_not_found permission_error syntax_error : Raised
  indi_connection_error indi_disconnected_error os_error : Raised
  runtime_error script_cancelled_error script_paused_error import_error : Raised

pub data Result {ℓ} (A : Type ℓ) : Type ℓ where
  ok : A → Result A
  err : Raised → Result A

module _ {ℓ κ} {A : Type ℓ} {B : Type κ} where
  -- What follows a call that may raise.
  infixl 10 ◌>>=◌
  abbrev pub ◌>>=◌ : Result A → (A → Result B) → Result B
  err raised >>= next = err raised
  ok value >>= next = next value

  -- A chain that returns has a first call that returns, and goes on with its value.
  pub >>=-eq-ok :
      {returned : B} (first : Result A) (next : A → Result B)
      → first >>= next ≡ ok returned
      → (value : A) × (first ≡ ok value) × (next value ≡ ok returned)
  >>=-eq-ok (err raised) next whole = cc
  >>=-eq-ok (ok value) next whole = (value, refl, whole)

pub err-ne-ok {ℓ} : {A : Type ℓ} {e : Raised} {a : A} → err e ≡ ok a → ⊥
err-ne-ok h = cc
