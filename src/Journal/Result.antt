-- ===== src/Journal/Result.antt =====
-- The errors of journal.rs, each named for its message.
use mathlib.Core.Path.{◌≡◌}
use mathlib.Core.Logic.{◌⊎◌, inl, inr}
use mathlib.Core.Path.{refl}
use Prim.Native.Nat.{ℕ}

pub data Error : Type 0 where
  header_too_short invalid_flags empty_data checksum_mismatch unexpected_eof journal_closed : Error
  truncated_write_chunk truncated_delete_chunk truncated_update_root : Error
  truncated_path_len truncated_path truncated_chunk_count truncated_chunk_id truncated_size : Error
  truncated_delete_file truncated_delete_file_path : Error
  invalid_magic unsupported_version unknown_op_type : ℕ → Error

-- `io::Result`. `stuck` is no value of the program: a loop of the model ran out of fuel.
pub data Result {ℓ} (A : Type ℓ) : Type ℓ where
  ok : A → Result A
  err : Error → Result A
  stuck : Result A

infixl 5 ◌>>=◌
abbrev pub ◌>>=◌ {ℓ κ} : {A : Type ℓ} {B : Type κ} → Result A → (A → Result B) → Result B
ok a >>= f = f a
err e >>= f = err e
stuck >>= f = stuck

pub ok-cases {ℓ} :
    {A : Type ℓ} (r : Result A)
    → ((a : A) × (r ≡ ok a)) ⊎ (((e : Error) × (r ≡ err e)) ⊎ (r ≡ stuck))
ok-cases (ok a) = inl (a, refl)
ok-cases (err e) = inr (inl (e, refl))
ok-cases stuck = inr (inr refl)

pub ok_injective {ℓ} : {A : Type ℓ} {a b : A} → ok a ≡ ok b → a ≡ b
ok_injective h = cc
