-- ===== src/Tx/Status.antt =====
-- src/tx-status.ts: `waitForTransaction`. What `reader.getStatus` gives at its i-th call and `now` at
-- its i-th are functions of i; a reader that throws gives `none`. Times are whole milliseconds.
pub mod Ends
pub mod Deadline
use vellar_sdk.Prelude.{
  ℕ, zero, suc, ◌+◌, Bool, true, false, Option, none, some, Result, ok, err, ltb, if◌then◌else◌,
}

pub data TxStatus : Type 0 where
  pending : TxStatus
  success : TxStatus
  failed : TxStatus

pub record TransactionTimeoutError : Type 0 where
  pub timeout_ms : ℕ

abbrev pub default_timeout_ms : ℕ
default_timeout_ms = 60000

abbrev pub default_interval_ms : ℕ
default_interval_ms = 2000

-- `status !== "pending"`, for a status that was read.
abbrev pub final_status : Option TxStatus → Option TxStatus
final_status (some success) = some success
final_status (some failed) = some failed
final_status (some pending) = none
final_status none = none

pub record WaitOptions : Type 0 where
  pub timeout_ms : Option ℕ
  pub interval_ms : Option ℕ

-- `given ?? default`.
abbrev pub value_or : ℕ → Option ℕ → ℕ
value_or default none = default
value_or default (some n) = n

module _ (reader : ℕ → Option TxStatus) (now : ℕ → ℕ) (timeout_ms interval_ms deadline : ℕ) where
  -- The `for (;;)` loop from poll `i` on, of at most as many polls as there is fuel: `none` is a
  -- loop that still runs. The catch block and the pending status do the same.
  unfoldable pub poll_from : ℕ → ℕ → Option (Result TransactionTimeoutError TxStatus)
  poll_from zero i = none
  poll_from (suc polls) i =
      let rest = poll_from polls (suc i) in
      elim (final_status (reader i)) [
        | some status ↦ some (ok status)
        | none ↦
            if ltb deadline (now (suc i) + interval_ms)
            then some (err (record { timeout_ms = timeout_ms }))
            else rest
      ]

unfoldable pub wait_for_transaction :
    ℕ
    → (ℕ → Option TxStatus)
    → (ℕ → ℕ)
    → WaitOptions
    → Option (Result TransactionTimeoutError TxStatus)
wait_for_transaction polls reader now options =
    let timeout_ms = value_or default_timeout_ms options.timeout_ms in
    let interval_ms = value_or default_interval_ms options.interval_ms in
    poll_from reader now timeout_ms interval_ms (now 0 + timeout_ms) polls 0
