-- ===== src/Engram.antt =====
-- src/fs/versioned/engram.rs: the root vector under a version, and the log of transactions. `V` is
-- the type of a vector, and `bundle` the operation of the vector library. The chunk store and the
-- corrections of an engram have modules of their own, and no operation here changes them.
-- `bundle_chunk` reads the root, reads its version and compares and swaps in three steps, between
-- which other threads may act.
pub mod Threads
pub mod Race
pub mod Log
mod Runs
use embeddenator_fs.Prelude.{
  ℕ, ◌+◌, ◌%◌, ◌^◌, List, [], ◌∷◌, ◌++◌, Bool, true, false, ◌==◌, ltb, if◌then◌else◌, length,
}
use embeddenator_fs.Types.{VersionedResult, ok, err, VersionMismatch, wrap64}
use embeddenator_fs.Transaction.{
  Transaction, commit, abort, begin_with, is_committed, is_aborted, is_pending,
}

pub record Engram {ℓ} (V : Type ℓ) : Type ℓ where
  pub root : V
  pub root_version : ℕ
  pub next_id : ℕ
  pub tx_log : List Transaction
  pub global_version : ℕ

-- The results that are a value or a message.
pub data CommitResult : Type 0 where
  done : CommitResult
  drifted : CommitResult

-- Where a call of `bundle_chunk` stands, with the attempt it is in.
pub data Bundling {ℓ} (V : Type ℓ) : Type ℓ where
  reading_root : ℕ → Bundling V
  reading_version : ℕ → V → Bundling V
  swapping : ℕ → V → ℕ → Bundling V
  succeeded : ℕ → Bundling V
  failed : VersionMismatch → Bundling V

module _ {ℓ} {V : Type ℓ} where
  abbrev pub with_root : V → Engram V
  with_root root = record {
    root = root;
    root_version = 0;
    next_id = 0;
    tx_log = [];
    global_version = 0;
  }

  unfoldable pub update_root : Engram V → V → ℕ → VersionedResult ℕ × Engram V
  update_root e new_root expected_version =
      if e.root_version == expected_version
      then (
        ok (wrap64 (e.root_version + 1)),
        record e { root = new_root; root_version = wrap64 (e.root_version + 1) },
      )
      else (err (record { expected = expected_version; actual = e.root_version }), e)

  -- `MAX_RETRIES` is 10.
  unfoldable pub after_swap : ℕ → VersionedResult ℕ → Bundling V
  after_swap attempt (ok new_version) = succeeded new_version
  after_swap attempt (err m) = if ltb attempt 9 then reading_root (attempt + 1) else failed m

  -- One step of `bundle_chunk`. The wait between two attempts touches no state.
  unfoldable pub bundle_step : (V → V → V) → V → Engram V → Bundling V → Engram V × Bundling V
  unfolding update_root after_swap
  bundle_step bundle chunk_vec e (reading_root attempt) = (e, reading_version attempt e.root)
  bundle_step bundle chunk_vec e (reading_version attempt root) =
      (e, swapping attempt root e.root_version)
  bundle_step bundle chunk_vec e (swapping attempt root version) =
      let r = update_root e (bundle root chunk_vec) version in (r.1, after_swap attempt r.0)
  bundle_step bundle chunk_vec e (succeeded version) = (e, succeeded version)
  bundle_step bundle chunk_vec e (failed m) = (e, failed m)

  unfoldable pub begin_transaction : Engram V → Transaction × Engram V
  unfolding begin_with
  begin_transaction e =
      let r = begin_with e.next_id e.global_version in (r.0, record e { next_id = r.1 })

  unfoldable pub commit_transaction : Engram V → Transaction → CommitResult × Engram V
  commit_transaction e tx =
      if ltb (wrap64 (tx.engram_version + 10)) e.global_version then (drifted, e) else (
        done,
        record e {
          tx_log = e.tx_log ++ (commit tx ∷ []);
          global_version = wrap64 (e.global_version + 1);
        },
      )

  unfoldable pub abort_transaction : Engram V → Transaction → Engram V
  abort_transaction e tx = record e { tx_log = e.tx_log ++ (abort tx ∷ []) }

unfoldable pub count_committed : List Transaction → ℕ
count_committed [] = 0
count_committed (tx ∷ log) = (if is_committed tx.status then 1 else 0) + count_committed log

unfoldable pub count_aborted : List Transaction → ℕ
count_aborted [] = 0
count_aborted (tx ∷ log) = (if is_aborted tx.status then 1 else 0) + count_aborted log

-- The rate of success is left out, a floating-point number.
pub record TransactionStats : Type 0 where
  pub total_transactions : ℕ
  pub committed_transactions : ℕ
  pub aborted_transactions : ℕ

unfoldable pub transaction_stats {ℓ} : {V : Type ℓ} → Engram V → TransactionStats
transaction_stats e = record {
  total_transactions = length e.tx_log;
  committed_transactions = count_committed e.tx_log;
  aborted_transactions = count_aborted e.tx_log;
}
