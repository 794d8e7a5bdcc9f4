-- ===== src/Engram/Log.antt =====
-- The log of transactions.
use embeddenator_fs.Prelude.{
  ◌+◌, ◌≡◌, refl, List, [], ◌∷◌, ◌++◌, false, ltb, All, Bool-cases, inl, inr, length, arith,
  if◌then◌else◌,
}
use embeddenator_fs.Types.{wrap64}
use embeddenator_fs.Transaction.{
  Transaction, TransactionStatus, pending, committed, aborted, is_pending, is_committed, is_aborted,
  commit, abort,
}
use embeddenator_fs.Engram.{
  count_committed, count_aborted, transaction_stats, Engram, commit_transaction, abort_transaction,
}

commit_not_pending : (tx : Transaction) → is_pending (commit tx).status ≡ false
unfolding commit is_pending
commit_not_pending tx = elim (Bool-cases (is_pending tx.status)) [
  | inl e ↦ rw (commit, e) refl
  | inr e ↦ rw (commit, e) e
]

abort_not_pending : (tx : Transaction) → is_pending (abort tx).status ≡ false
unfolding abort is_pending
abort_not_pending tx = elim (Bool-cases (is_pending tx.status)) [
  | inl e ↦ rw (abort, e) refl
  | inr e ↦ rw (abort, e) e
]

All-append {ℓ κ} :
    {A : Type ℓ} (P : A → Type κ) (xs ys : List A) → All P xs → All P ys → All P (xs ++ ys)
All-append P [] ys h k = k
All-append P (x ∷ xs) ys h k = (h.0, All-append P xs ys h.1 k)

-- No transaction of a log is still pending.
abbrev pub IsSettled : List Transaction → Type 0
IsSettled log = All (λ tx. is_pending tx.status ≡ false) log

settled_counts :
    (s : TransactionStatus)
    → is_pending s ≡ false
    → (if is_committed s then 1 else 0) + (if is_aborted s then 1 else 0) ≡ 1
unfolding is_pending
settled_counts pending h = absurd (cc)
settled_counts committed h = refl
settled_counts aborted h = refl

log_counts :
    (log : List Transaction) → IsSettled log → count_committed log + count_aborted log ≡ length log
unfolding count_committed count_aborted
log_counts [] h = refl
log_counts (tx ∷ log) h = omega (arith, settled_counts tx.status h.0, log_counts log h.1)

-- When every transaction of the log is settled, the committed and the aborted ones of the statistics
-- are together all of them.
pub transaction_stats_total {ℓ} :
    {V : Type ℓ} (e : Engram V)
    → IsSettled e.tx_log
    → (transaction_stats e).committed_transactions + (transaction_stats e).aborted_transactions
      ≡ (transaction_stats e).total_transactions
unfolding transaction_stats
transaction_stats_total e h = log_counts e.tx_log h

module _ {ℓ} {V : Type ℓ} where
  -- Commits and aborts, those refused for the drift of the version too, keep every transaction of
  -- the log settled, and leave the root and its version alone.
  pub commit_transaction-abort_transaction-IsSettled :
      (e : Engram V) (tx : Transaction)
      → IsSettled e.tx_log
      → IsSettled (commit_transaction e tx).1.tx_log
        × IsSettled (abort_transaction e tx).tx_log
        × ((commit_transaction e tx).1.root ≡ e.root)
        × ((commit_transaction e tx).1.root_version ≡ e.root_version)
  unfolding commit_transaction abort_transaction
  commit_transaction-abort_transaction-IsSettled e tx h =
      let aborted_log =
        All-append (λ t. is_pending t.status ≡ false) e.tx_log (abort tx ∷ []) h
          (abort_not_pending tx, tt) in
      elim (Bool-cases (ltb (wrap64 (tx.engram_version + 10)) e.global_version)) [
        | inl p ↦ rw (commit_transaction, p) (h, aborted_log, refl, refl)
        | inr p ↦
            (let committed_log =
                All-append (λ t. is_pending t.status ≡ false) e.tx_log (commit tx ∷ []) h
                  (commit_not_pending tx, tt) in
              rw (commit_transaction, p) (committed_log, aborted_log, refl, refl))
      ]
