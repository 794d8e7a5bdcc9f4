-- ===== src/Prelude/Assoc.antt =====
-- `HashMap` as an association list over keys with a Boolean equality. No function of the model
-- depends on the order of the entries but those that list the keys of a map.
use Prim.Native.Nat.{ℕ, ◌+◌}
use mathlib.Core.Path.{◌≡◌, refl}
use mathlib.Core.Bool.{Bool, true}
use mathlib.Core.Logic.{◌↔◌}
use mathlib.Core.List.{List, [], ◌∷◌}
use mathlib.Core.Option.{Option, none, some}
use native.Mathlib.Omega.{arith}
use embeddenator_fs.Prelude.Tests.{if◌then◌else◌, ◌==◌ as nat_eq, ==_iff}
use embeddenator_fs.Prelude.Lists.{length}
use embeddenator_fs.Prelude.Bytes.{bytes_eq, bytes_eq_iff}

pub record Eq {ℓ} (A : Type ℓ) : Type ℓ where
  pub beq : A → A → Bool
  pub beq_iff : (a b : A) → (beq a b ≡ true) ↔ (a ≡ b)

instance abbrev pub nat_key : Eq ℕ
nat_key = record { beq = nat_eq; beq_iff = ==_iff }

instance abbrev pub bytes_key : Eq (List ℕ)
bytes_key = record { beq = bytes_eq; beq_iff = bytes_eq_iff }

pub beq_refl {ℓ} : {K : Type ℓ} ⦃e : Eq K⦄ → (k : K) → e.beq k k ≡ true
beq_refl ⦃e⦄ k = (e.beq_iff k k).1 refl

module _ {ℓ κ} {K : Type ℓ} {V : Type κ} ⦃e : Eq K⦄ where
  unfoldable pub lookup : K → List (K × V) → Option V
  lookup k [] = none
  lookup k ((j, v) ∷ m) = if e.beq j k then some v else lookup k m

  -- `map.remove(&k)`: the map without the key.
  unfoldable pub without : K → List (K × V) → List (K × V)
  without k [] = []
  without k ((j, v) ∷ m) = let rest = without k m in if e.beq j k then rest else (j, v) ∷ rest

  unfoldable pub insert : K → V → List (K × V) → List (K × V)
  insert k v m = (k, v) ∷ without k m

  pub lookup-without :
      (k j : K) (m : List (K × V))
      → lookup j (without k m) ≡ (if e.beq k j then none else lookup j m)
  unfolding lookup without
  lookup-without k j [] = ground arith
  lookup-without k j ((i, v) ∷ m) =
      ground (arith, lookup-without k j m, e.beq_iff i k, e.beq_iff i j, e.beq_iff k j)

  pub lookup-insert :
      (k j : K) (v : V) (m : List (K × V))
      → lookup j (insert k v m) ≡ (if e.beq k j then some v else lookup j m)
  unfolding lookup insert
  lookup-insert k j v m = ground (arith, lookup-without k j m)

  pub lookup-insert_self : (k : K) (v : V) (m : List (K × V)) → lookup k (insert k v m) ≡ some v
  unfolding lookup insert
  lookup-insert_self k v m = ground (arith, beq_refl k)

  -- No key stands in the list twice: what makes a list of entries a map.
  abbrev pub IsMap : List (K × V) → Type κ
  IsMap [] = Unit
  IsMap ((k, v) ∷ m) = (lookup k m ≡ none) × IsMap m

  pub without-IsMap : (k : K) (m : List (K × V)) → IsMap m → IsMap (without k m)
  unfolding without
  without-IsMap k [] h = tt
  without-IsMap k ((j, v) ∷ m) h = ground (arith, without-IsMap k m h.1, lookup-without k j m)

  pub insert-IsMap : (k : K) (v : V) (m : List (K × V)) → IsMap m → IsMap (insert k v m)
  unfolding insert
  insert-IsMap k v m h = ground (arith, without-IsMap k m h, lookup-without k k m, beq_refl k)

  pub without_absent : (k : K) (m : List (K × V)) → lookup k m ≡ none → without k m ≡ m
  unfolding lookup without
  without_absent k [] h = refl
  without_absent k ((j, v) ∷ m) h = ground (arith, without_absent k m)

  pub length-without_present :
      (k : K) (m : List (K × V)) (v : V)
      → IsMap m
      → lookup k m ≡ some v
      → length (without k m) + 1 ≡ length m
  unfolding lookup without
  length-without_present k [] v h p = cc
  length-without_present k ((j, w) ∷ m) v h p =
      ground (arith, length-without_present k m v h.1, without_absent k m, e.beq_iff j k)
