-- ===== src/Engram/Threads.antt =====
-- Bundling with other threads at work: it ends, and alone it adds its chunk.
use embeddenator_fs.Prelude.{
  ℕ, zero, suc, ◌+◌, ◌-◌, ◌*◌, ◌≤◌, ◌≡◌, refl, List, [], ◌∷◌, Bool, true, false, length, arith,
  ==_refl,
}
use embeddenator_fs.Types.{VersionedResult, ok, err, wrap64}
use embeddenator_fs.Engram.{
  Engram, Bundling, reading_root, reading_version, swapping, succeeded, failed, update_root,
  after_swap, bundle_step,
}

module _ {ℓ} {V : Type ℓ} where
  unfoldable pub is_finished : Bundling V → Bool
  is_finished (succeeded v) = true
  is_finished (failed m) = true
  is_finished _ = false

  -- The most steps that a call has left.
  steps_left : Bundling V → ℕ
  steps_left (reading_root attempt) = 3 + (9 - attempt) * 3
  steps_left (reading_version attempt root) = 2 + (9 - attempt) * 3
  steps_left (swapping attempt root version) = 1 + (9 - attempt) * 3
  steps_left (succeeded v) = 0
  steps_left (failed m) = 0

module _ {ℓ} {V : Type ℓ} (bundle : V → V → V) (chunk_vec : V) where
  -- The steps of a call when other threads leave the engram in these states before each of them.
  unfoldable pub bundle_among : List (Engram V) → Bundling V → Bundling V
  unfolding bundle_step
  bundle_among [] t = t
  bundle_among (e ∷ es) t = bundle_among es (bundle_step bundle chunk_vec e t).1

  after_swap_less :
      (attempt : ℕ) (r : VersionedResult ℕ)
      → steps_left (after_swap {V = V} attempt r) ≤ (9 - attempt) * 3
  unfolding steps_left after_swap
  after_swap_less attempt (ok v) = omega arith
  after_swap_less attempt (err m) = ground arith

  bundle_step_less :
      (e : Engram V) (t : Bundling V)
      → steps_left (bundle_step bundle chunk_vec e t).1 ≤ steps_left t - 1
  unfolding steps_left bundle_step
  bundle_step_less e (reading_root attempt) = omega arith
  bundle_step_less e (reading_version attempt root) = omega arith
  bundle_step_less e (swapping attempt root version) =
      omega (arith, after_swap_less attempt (update_root e (bundle root chunk_vec) version).0)
  bundle_step_less e (succeeded v) = omega arith
  bundle_step_less e (failed m) = omega arith

  none_left : (t : Bundling V) → steps_left t ≡ 0 → is_finished t ≡ true
  unfolding steps_left is_finished
  none_left (reading_root attempt) h = absurd (omega arith)
  none_left (reading_version attempt root) h = absurd (omega arith)
  none_left (swapping attempt root version) h = absurd (omega arith)
  none_left (succeeded v) h = refl
  none_left (failed m) h = refl

  bundle_among_enough :
      (es : List (Engram V)) (t : Bundling V)
      → steps_left t ≤ length es
      → is_finished (bundle_among es t) ≡ true
  unfolding bundle_among
  bundle_among_enough [] t h = none_left t (omega arith)
  bundle_among_enough (e ∷ es) t h =
      bundle_among_enough es (bundle_step bundle chunk_vec e t).1
        (omega (arith, bundle_step_less e t))

  -- A call of `bundle_chunk` ends after at most 30 steps of its own, with a new version or with a
  -- version conflict, whatever other threads do to the engram between any two of them.
  pub bundle_among_finished :
      (es : List (Engram V))
      → 30 ≤ length es
      → is_finished (bundle_among es (reading_root 0)) ≡ true
  unfolding steps_left
  bundle_among_finished es h = bundle_among_enough es (reading_root 0) (omega (arith, h))

  -- The state of the engram and of one call after `n` steps without another thread.
  unfoldable pub bundle_alone : ℕ → Engram V → Bundling V → Engram V × Bundling V
  unfolding bundle_step
  bundle_alone zero e t = (e, t)
  bundle_alone (suc n) e t = let r = bundle_step bundle chunk_vec e t in bundle_alone n r.0 r.1

  -- Alone a call succeeds at its first attempt, and the root is bundled with the chunk.
  pub bundle_alone_first :
      (e : Engram V)
      → bundle_alone 3 e (reading_root 0) ≡ (
        record e { root = bundle e.root chunk_vec; root_version = wrap64 (e.root_version + 1) },
        succeeded (wrap64 (e.root_version + 1)),
      )
  unfolding bundle_alone bundle_step update_root after_swap
  bundle_alone_first e = rw (==_refl e.root_version) refl
