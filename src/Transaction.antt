-- ===== src/Transaction.antt =====
-- src/fs/versioned/transaction.rs: the states of a transaction. The time of its start is left out.
-- A path is the list of its bytes.
use embeddenator_fs.Prelude.{
  ℕ, ◌+◌, ◌≡◌, refl, List, [], ◌∷◌, ◌++◌, Bool, true, false, if◌then◌else◌,
}
use embeddenator_fs.Types.{wrap64}

pub data TransactionStatus : Type 0 where
  pending : TransactionStatus
  committed : TransactionStatus
  aborted : TransactionStatus

pub data Operation : Type 0 where
  add_chunk : ℕ → List ℕ → Operation
  update_chunk : ℕ → List ℕ → Operation
  remove_chunk : ℕ → Operation
  add_file : List ℕ → List ℕ → Operation
  update_file : List ℕ → List ℕ → Operation
  remove_file : List ℕ → Operation
  bundle_root : List ℕ → Operation

pub record Transaction : Type 0 where
  pub id : ℕ
  pub engram_version : ℕ
  pub operations : List Operation
  pub status : TransactionStatus

abbrev pub new_transaction : ℕ → ℕ → Transaction
new_transaction id engram_version = record {
  id = id;
  engram_version = engram_version;
  operations = [];
  status = pending;
}

unfoldable pub is_pending : TransactionStatus → Bool
is_pending pending = true
is_pending committed = false
is_pending aborted = false

-- `tx.status == TransactionStatus::Committed`, and the same for an aborted one.
abbrev pub is_committed : TransactionStatus → Bool
is_committed committed = true
is_committed _ = false

abbrev pub is_aborted : TransactionStatus → Bool
is_aborted aborted = true
is_aborted _ = false

unfoldable pub add_operation : Operation → Transaction → Transaction
unfolding is_pending
add_operation op tx =
    if is_pending tx.status then record tx { operations = tx.operations ++ (op ∷ []) } else tx

unfoldable pub commit : Transaction → Transaction
unfolding is_pending
commit tx = if is_pending tx.status then record tx { status = committed } else tx

unfoldable pub abort : Transaction → Transaction
unfolding is_pending
abort tx = if is_pending tx.status then record tx { status = aborted } else tx

-- `TransactionManager::begin` takes the next id and counts on.
unfoldable pub begin_with : ℕ → ℕ → Transaction × ℕ
begin_with next_id engram_version = (new_transaction next_id engram_version, wrap64 (next_id + 1))

-- A call of a method that changes a transaction.
pub data Call : Type 0 where
  add_call : Operation → Call
  commit_call : Call
  abort_call : Call

unfoldable pub run_calls : List Call → Transaction → Transaction
unfolding add_operation commit abort
run_calls [] tx = tx
run_calls (add_call op ∷ calls) tx = run_calls calls (add_operation op tx)
run_calls (commit_call ∷ calls) tx = run_calls calls (commit tx)
run_calls (abort_call ∷ calls) tx = run_calls calls (abort tx)

-- A transaction that is not pending stays as it is, whatever is called on it.
pub run_calls_final :
    (calls : List Call) (tx : Transaction) → is_pending tx.status ≡ false → run_calls calls tx ≡ tx
unfolding run_calls add_operation commit abort
run_calls_final [] tx h = refl
run_calls_final (add_call op ∷ calls) tx h = rw h (run_calls_final calls tx h)
run_calls_final (commit_call ∷ calls) tx h = rw h (run_calls_final calls tx h)
run_calls_final (abort_call ∷ calls) tx h = rw h (run_calls_final calls tx h)
