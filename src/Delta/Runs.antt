-- ===== src/Delta/Runs.antt =====
-- Runs of the theorems on concrete deltas.
use embeddenator_fs.Prelude.{ℕ, ◌≡◌, none, some, zero, suc, refl, List, [], ◌∷◌, drop, arith}
use embeddenator_fs.Delta.{
  Change, multi_byte_replace, append, analyze_delta, get_chunk_id, chunk_offset_at,
}
use embeddenator_fs.Types.{ChunkOffset}
use embeddenator_fs.Delta.Group.{HasOwnId, changes_of, in_chunk, multi_byte_replace-grouped}
use embeddenator_fs.Delta.Appended.{new_bytes, append-new_bytes}

abbrev three_changes : List Change
three_changes = (9, 1, 2) ∷ (2, 3, 4) ∷ (8, 5, 6) ∷ []

-- An index that gives the three chunks the ids 40, 12 and 7.
abbrev three_offsets : List ChunkOffset
three_offsets =
    record { chunk_id = 40; byte_offset = 0; byte_length = 4 }
    ∷ record { chunk_id = 12; byte_offset = 4; byte_length = 4 }
    ∷ record { chunk_id = 7; byte_offset = 8; byte_length = 2 }
    ∷ []

third_id : get_chunk_id 2 (some three_offsets) ≡ 7
unfolding get_chunk_id chunk_offset_at
third_id = refl

third-HasOwnId : HasOwnId 10 4 (some three_offsets) 2
unfolding get_chunk_id chunk_offset_at
third-HasOwnId zero lt e = absurd (omega (arith, e))
third-HasOwnId (suc zero) lt e = absurd (omega (arith, e))
third-HasOwnId (suc (suc zero)) lt e = refl
third-HasOwnId (suc (suc (suc j))) lt e = absurd (omega (arith, lt))

multi_byte_replace-grouped_example :
    changes_of
      (get_chunk_id 2 (some three_offsets))
      (analyze_delta (multi_byte_replace three_changes) 10 4 (some three_offsets)).modified_chunks
    ≡ in_chunk 10 4 2 three_changes
multi_byte_replace-grouped_example =
    multi_byte_replace-grouped three_changes 10 4 2 (some three_offsets) (omega arith)
      third-HasOwnId

abbrev old_range : List ℕ
old_range = 1 ∷ 2 ∷ 3 ∷ []

append-new_bytes_example :
    new_bytes (analyze_delta (append old_range) 11 4 none).new_chunks ≡ drop 1 old_range
append-new_bytes_example =
    append-new_bytes old_range 11 4 3 none (omega arith) (omega arith) (omega arith)
