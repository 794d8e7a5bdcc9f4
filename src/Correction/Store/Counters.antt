-- ===== src/Correction/Store/Counters.antt =====
-- The counters of a `CorrectionStore` against the chunks that it holds.
use embeddenator_fs.Prelude.{ℕ, ◌+◌, ◌<◌, ◌^◌, ◌≡◌, refl, sym, ◌∙◌, none, some, List, arith, length}
use embeddenator_fs.Prelude.Assoc.{nat_key, insert, IsMap, without_absent, length-without_present}
use embeddenator_fs.Prelude.Run.{Run, ok, panic, ok_injective, panic_ne_ok}
use embeddenator_fs.Correction.{ChunkCorrection, new_correction}
use embeddenator_fs.Correction.Store.{CorrectionStore, record_correction, get, add, total_chunks}

-- Each chunk of the map has been counted once, and no counter is about to wrap.
pub record IsCounted (s : CorrectionStore) : Type 0 where
  pub is_map : IsMap s.corrections
  pub counted : s.perfect_chunks + s.corrected_chunks ≡ length s.corrections
  pub room : s.perfect_chunks + s.corrected_chunks + 1 < 2 ^ 64

record_total :
    (s : CorrectionStore) (id : ℕ) (o : List ℕ) (c : ChunkCorrection)
    → s.perfect_chunks + s.corrected_chunks + 1 < 2 ^ 64
    → ((record_correction s id o c).perfect_chunks + (record_correction s id o c).corrected_chunks
        ≡ s.perfect_chunks + s.corrected_chunks + 1)
      × ((record_correction s id o c).corrections ≡ insert id c s.corrections)
unfolding record_correction
record_total s id o c h = ground arith

record_fresh :
    (s : CorrectionStore) (id : ℕ) (o : List ℕ) (c : ChunkCorrection)
    → IsCounted s
    → get s id ≡ none
    → total_chunks (record_correction s id o c) ≡ length (record_correction s id o c).corrections
unfolding get total_chunks insert
record_fresh s id o c h fresh =
    ground (
      arith,
      h.counted,
      h.room,
      record_total s id o c h.room,
      without_absent id s.corrections fresh,
    )

record_again :
    (s : CorrectionStore) (id : ℕ) (o : List ℕ) (c d : ChunkCorrection)
    → IsCounted s
    → get s id ≡ some d
    → total_chunks (record_correction s id o c)
      ≡ length (record_correction s id o c).corrections + 1
unfolding get total_chunks insert
record_again s id o c d h old = ground (
  arith,
  h.counted,
  h.room,
  record_total s id o c h.room,
  length-without_present id s.corrections d h.is_map old,
)

module _ (sha256 : List ℕ → List ℕ) where
  -- Let every chunk of a store be counted once. After a successful `add` under an id that is new,
  -- `total_chunks` is the number of chunks held; under an id that the store has, `total_chunks` is
  -- one more than the number of chunks held.
  pub total_chunks-add :
      (s t : CorrectionStore) (id : ℕ) (o a : List ℕ)
      → IsCounted s
      → add sha256 s id o a ≡ ok t
      → (get s id ≡ none → total_chunks t ≡ length t.corrections)
        × ((d : ChunkCorrection) → get s id ≡ some d → total_chunks t ≡ length t.corrections + 1)
  unfolding add
  total_chunks-add s t id o a h e = go (new_correction sha256 id o a) refl
    where
      panics : new_correction sha256 id o a ≡ panic → add sha256 s id o a ≡ panic
      panics p = rw p

      adds :
          (c : ChunkCorrection)
          → new_correction sha256 id o a ≡ ok c
          → add sha256 s id o a ≡ ok (record_correction s id o c)
      adds c p = rw p

      go :
          (r : Run ChunkCorrection)
          → new_correction sha256 id o a ≡ r
          → (get s id ≡ none → total_chunks t ≡ length t.corrections)
            × ((d : ChunkCorrection)
                → get s id ≡ some d
                → total_chunks t ≡ length t.corrections + 1)
      go panic p = panic_ne_ok (sym (panics p) ∙ e)
      go (ok c) p =
          let q : record_correction s id o c ≡ t = ok_injective (sym (adds c p) ∙ e) in
          (
            λ fresh. rw (← q) (record_fresh s id o c h fresh),
            λ d old. rw (← q) (record_again s id o c d h old),
          )
