-- ===== src/Prelude/Run.antt =====
-- What a Rust function that may panic does: it returns a value, or it panics.
use mathlib.Core.Path.{◌≡◌}

pub data Run {ℓ} (A : Type ℓ) : Type ℓ where
  ok : A → Run A
  panic : Run A

infixl 5 ◌>>=◌
abbrev pub ◌>>=◌ {ℓ κ} : {A : Type ℓ} {B : Type κ} → Run A → (A → Run B) → Run B
ok a >>= f = f a
panic >>= f = panic

pub ok_injective {ℓ} : {A : Type ℓ} {a b : A} → ok a ≡ ok b → a ≡ b
ok_injective h = cc

pub panic_ne_ok {ℓ κ} : {A : Type ℓ} {B : Type κ} {a : A} → ◌≡◌ {A = Run A} panic (ok a) → B
panic_ne_ok h = cc
