-- ===== src/Engram/Runs.antt =====
-- Runs of the theorems on a concrete engram, with vectors that are lists bundled by concatenation.
use embeddenator_fs.Prelude.{ℕ, ◌+◌, ◌≡◌, refl, List, [], ◌∷◌, ◌++◌, true, false, replicate, arith}
use embeddenator_fs.Types.{wrap64}
use embeddenator_fs.Transaction.{Transaction, new_transaction, aborted, is_pending}
use embeddenator_fs.Engram.{Engram, with_root, reading_root, succeeded}
use embeddenator_fs.Engram.Threads.{bundle_among, bundle_among_finished, is_finished}
use embeddenator_fs.Engram.Race.{race, steps_of, race_lost_update, started}

abbrev join : List ℕ → List ℕ → List ℕ
join a b = a ++ b

abbrev one_chunk : Engram (List ℕ)
one_chunk = with_root (7 ∷ [])

abbrev thirty : List (Engram (List ℕ))
thirty = replicate 30 one_chunk

bundle_among_finished_example :
    is_finished (bundle_among join (1 ∷ []) thirty (reading_root 0)) ≡ true
bundle_among_finished_example = bundle_among_finished join (1 ∷ []) thirty (omega arith)

-- The second call reads the root between the reads of the first one, which steps once more at the end.
race_lost_update_example :
    (race join
      (1 ∷ [])
      (2 ∷ [])
      (true ∷ false ∷ true ∷ true ∷ false ∷ true ∷ false ∷ [])
      (started join (1 ∷ []) (2 ∷ []) one_chunk))
    ≡ record {
      engram = record one_chunk {
        root = 7 ∷ 2 ∷ [];
        root_version = wrap64 (wrap64 (one_chunk.root_version + 1) + 1);
      };
      first = succeeded (wrap64 (one_chunk.root_version + 1));
      second = succeeded (wrap64 (wrap64 (one_chunk.root_version + 1) + 1));
    }
unfolding steps_of
race_lost_update_example =
    race_lost_update join (1 ∷ []) (2 ∷ []) one_chunk (true ∷ false ∷ true ∷ [])
      (false ∷ true ∷ false ∷ []) refl refl (omega arith)

abbrev tried : Transaction
tried = new_transaction 0 0

abbrev given_up : Transaction
given_up = record tried { status = aborted }

settled : is_pending aborted ≡ false
unfolding is_pending
settled = refl

abbrev with_one : Engram (List ℕ)
with_one = record one_chunk { tx_log = given_up ∷ [] }
