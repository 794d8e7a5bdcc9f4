-- ===== src/Engram/Race.antt =====
-- What two calls of `bundle_chunk` do when their steps alternate.
use embeddenator_fs.Prelude.{
  ℕ, zero, suc, ◌+◌, ◌≤◌, ◌<◌, ◌≡◌, ◌++◌, ◌∙◌, refl, List, [], ◌∷◌, Bool, true, false, arith,
  ==_refl,
}
use embeddenator_fs.Types.{wrap64}
use embeddenator_fs.Engram.{
  Engram, Bundling, reading_root, reading_version, swapping, succeeded, update_root, after_swap,
  bundle_step,
}

-- Two calls and the engram.
pub record Race {ℓ} (V : Type ℓ) : Type ℓ where
  pub engram : Engram V
  pub first : Bundling V
  pub second : Bundling V

-- The steps that a call has in a schedule.
unfoldable pub steps_of : Bool → List Bool → ℕ
steps_of call [] = 0
steps_of true (true ∷ schedule) = 1 + steps_of true schedule
steps_of true (false ∷ schedule) = steps_of true schedule
steps_of false (true ∷ schedule) = steps_of false schedule
steps_of false (false ∷ schedule) = 1 + steps_of false schedule

module _ {ℓ} {V : Type ℓ} (bundle : V → V → V) (a b : V) where
  -- A schedule: true for a step of the call with `a`, false for the call with `b`.
  unfoldable pub race : List Bool → Race V → Race V
  unfolding bundle_step
  race [] r = r
  race (true ∷ schedule) r =
      let s = bundle_step bundle a r.engram r.first in
      race schedule (record r { engram = s.0; first = s.1 })
  race (false ∷ schedule) r =
      let s = bundle_step bundle b r.engram r.second in
      race schedule (record r { engram = s.0; second = s.1 })

  abbrev pub started : Engram V → Race V
  started e = record { engram = e; first = reading_root 0; second = reading_root 0 }

  -- The first attempt of a call after `n` steps in which the engram stays as it is.
  read_after : Engram V → ℕ → Bundling V
  read_after e zero = reading_root 0
  read_after e (suc zero) = reading_version 0 e.root
  read_after e (suc (suc n)) = swapping 0 e.root e.root_version

  bundle_step-read_after :
      (c : V) (e : Engram V) (n : ℕ)
      → n < 2
      → bundle_step bundle c e (read_after e n) ≡ (e, read_after e (n + 1))
  unfolding bundle_step read_after
  bundle_step-read_after c e zero h = refl
  bundle_step-read_after c e (suc zero) h = refl
  bundle_step-read_after c e (suc (suc n)) h = absurd (omega (arith, h))

  abbrev both_read : Engram V → ℕ → ℕ → Race V
  both_read e n m = record { engram = e; first = read_after e n; second = read_after e m }

  first_reads :
      (e : Engram V) (n m : ℕ) (rest : List Bool)
      → n < 2
      → race (true ∷ rest) (both_read e n m) ≡ race rest (both_read e (n + 1) m)
  unfolding race
  first_reads e n m rest h = rw (race, bundle_step-read_after a e n h) refl

  second_reads :
      (e : Engram V) (n m : ℕ) (rest : List Bool)
      → m < 2
      → race (false ∷ rest) (both_read e n m) ≡ race rest (both_read e n (m + 1))
  unfolding race
  second_reads e n m rest h = rw (race, bundle_step-read_after b e m h) refl

  -- As long as neither call swaps, each goes on reading, however their steps alternate.
  race_reads :
      (e : Engram V) (schedule rest : List Bool) (n m p q : ℕ)
      → n + steps_of true schedule ≡ p
      → m + steps_of false schedule ≡ q
      → p ≤ 2
      → q ≤ 2
      → race (schedule ++ rest) (both_read e n m) ≡ race rest (both_read e p q)
  unfolding steps_of
  race_reads e [] rest n m p q hp hq lp lq =
      let same_n : n ≡ p = omega (arith, hp) in
      let same_m : m ≡ q = omega (arith, hq) in rw (same_n, same_m) refl
  race_reads e (true ∷ schedule) rest n m p q hp hq lp lq =
      first_reads e n m (schedule ++ rest) (omega (arith, hp, lp))
      ∙ race_reads e schedule rest (n + 1) m p q (omega (arith, hp)) hq lp lq
  race_reads e (false ∷ schedule) rest n m p q hp hq lp lq =
      second_reads e n m (schedule ++ rest) (omega (arith, hq, lq))
      ∙ race_reads e schedule rest n (m + 1) p q hp (omega (arith, hq)) lp lq

  -- The engram and the calls when both have succeeded.
  both_done :
      (schedule : List Bool) (e : Engram V) (v w : ℕ)
      → race schedule (record { engram = e; first = succeeded v; second = succeeded w })
        ≡ record { engram = e; first = succeeded v; second = succeeded w }
  unfolding race bundle_step
  both_done [] e v w = refl
  both_done (true ∷ schedule) e v w = both_done schedule e v w
  both_done (false ∷ schedule) e v w = both_done schedule e v w

  -- The root and the versions after both calls, where the first succeeded with version `v`.
  abbrev overwritten : Engram V → V → ℕ → Race V
  overwritten e root v = record {
    engram = record e { root = bundle root b; root_version = wrap64 (e.root_version + 1) };
    first = succeeded v;
    second = succeeded (wrap64 (e.root_version + 1));
  }

  second_swaps :
      (schedule : List Bool) (e : Engram V) (root : V) (v : ℕ)
      → 1 ≤ steps_of false schedule
      → race schedule
          (record { engram = e; first = succeeded v; second = swapping 0 root e.root_version })
        ≡ overwritten e root v
  unfolding race bundle_step steps_of update_root after_swap
  second_swaps [] e root v h = absurd (omega (arith, h))
  second_swaps (true ∷ schedule) e root v h = second_swaps schedule e root v h
  second_swaps (false ∷ schedule) e root v h =
      rw (race, bundle_step, update_root, ==_refl e.root_version) (both_done schedule _ v _)

  second_ends :
      (schedule : List Bool) (e : Engram V) (root : V) (v : ℕ)
      → 2 ≤ steps_of false schedule
      → race schedule (record { engram = e; first = succeeded v; second = reading_version 0 root })
        ≡ overwritten e root v
  unfolding race bundle_step steps_of
  second_ends [] e root v h = absurd (omega (arith, h))
  second_ends (true ∷ schedule) e root v h = second_ends schedule e root v h
  second_ends (false ∷ schedule) e root v h = second_swaps schedule e root v (omega (arith, h))

  first_swaps :
      (e : Engram V) (rest : List Bool)
      → race (true ∷ rest) (both_read e 2 1)
        ≡ race rest (record {
          engram = record e { root = bundle e.root a; root_version = wrap64 (e.root_version + 1) };
          first = succeeded (wrap64 (e.root_version + 1));
          second = reading_version 0 e.root;
        })
  unfolding race bundle_step update_root after_swap read_after
  first_swaps e rest = rw (==_refl e.root_version) refl

  -- In every interleaving of two calls in which the first call, when it swaps, finds that the second
  -- has read the root and not yet the version, both calls succeed, and the root is without the chunk
  -- of the first call: before the swap the first call takes its two reads and the second call one, in
  -- any order, and behind it the second call takes two steps or more, among any steps of the first.
  pub race_lost_update :
      (e : Engram V) (until_swap after : List Bool)
      → steps_of true until_swap ≡ 2
      → steps_of false until_swap ≡ 1
      → 2 ≤ steps_of false after
      → race (until_swap ++ (true ∷ after)) (started e) ≡ record {
        engram = record e {
          root = bundle e.root b;
          root_version = wrap64 (wrap64 (e.root_version + 1) + 1);
        };
        first = succeeded (wrap64 (e.root_version + 1));
        second = succeeded (wrap64 (wrap64 (e.root_version + 1) + 1));
      }
  unfolding read_after
  race_lost_update e until_swap after reads read_root ends =
      race_reads e until_swap (true ∷ after) 0 0 2 1 (omega (arith, reads))
        (omega (arith, read_root)) (omega arith) (omega arith)
      ∙ first_swaps e after
      ∙ second_ends after _ e.root (wrap64 (e.root_version + 1)) ends
