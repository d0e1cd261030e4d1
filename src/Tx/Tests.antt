-- ===== src/Tx/Tests.antt =====
-- src/tx-status.ts and src/tx-rpc.ts: tests on concrete inputs.
use vellar_sdk.Prelude.{
  ℕ, zero, suc, ◌+◌, ◌*◌, ◌≤◌, String, Option, none, some, List, [], ◌∷◌, map, length, Result, ok,
  err, ◌≡◌, refl, arith, ◌+ℤ◌, ◌-ℤ◌,
}
use vellar_sdk.Tx.Status.{
  TxStatus, pending, failed, TransactionTimeoutError, WaitOptions, poll_from, wait_for_transaction,
}
use vellar_sdk.Tx.Status.Deadline.{Sleeps, WaitEnds, InTime, wait_total}
use vellar_sdk.Tx.Bucket.{TokenBucket, create_bucket, refill, take_token, try_consume}
use vellar_sdk.Tx.Bucket.Rate.{consume_all, last_time, create_bucket-IsBucket}
use vellar_sdk.Tx.Submit.{
  Submitter, admit_call, read_response, send_transaction, decode_and_send, submit_transaction,
  submit_all, rate_limited, rejected,
}
use vellar_sdk.Tx.Submit.Limit.{submit_all-bounded}

abbrev options : WaitOptions
options = record { timeout_ms = some 10; interval_ms = some 3 }

-- Pending, a dropped connection, then final.
abbrev reader : ℕ → Option TxStatus
reader zero = some pending
reader (suc zero) = none
reader (suc (suc k)) = some failed

abbrev clock : ℕ → ℕ
clock zero = 100
clock (suc k) = 100 + k * 3

abbrev clock-Sleeps : Sleeps clock 3
clock-Sleeps = record { start = omega arith; sleep = λ k. omega arith }

waits : wait_for_transaction 4 reader clock options ≡ some (ok failed)
unfolding wait_for_transaction poll_from
waits = refl

times_out :
    wait_for_transaction 4 (λ k. some pending) clock options
    ≡ some (err (record { timeout_ms = 10 }))
unfolding wait_for_transaction poll_from
times_out = refl

wait_total_example :
    (r : Result TransactionTimeoutError TxStatus) × (wait_for_transaction 4 reader clock options
      ≡ some r)
    × WaitEnds reader clock options r
wait_total_example = wait_total reader clock options clock-Sleeps 4 (omega arith)

reader-InTime : InTime reader clock options 2 failed
reader-InTime = (refl, λ k lt. omega arith)

-- Two tokens at most, and one more each second.
abbrev bucket : TokenBucket
bucket = create_bucket 2 1 0

abbrev times : List ℕ
times = 0 ∷ 10 ∷ 20 ∷ 1010 ∷ 1020 ∷ []

lets_three_through : (consume_all times bucket).1 ≡ 3
unfolding consume_all create_bucket try_consume take_token refill ◌+ℤ◌ ◌-ℤ◌
lets_three_through = refl

abbrev submitter : Submitter
submitter = record {
  limiter = some bucket;
  responses =
      some (record { status = "PENDING"; error_result = none; hash = "h1" })
      ∷ some (record { status = "ERROR"; error_result = none; hash = "" })
      ∷ [];
  sent = [];
}

abbrev decode : String → Option String
decode xdr = some xdr

abbrev calls : List (ℕ × String)
calls = (0, "a") ∷ (5, "b") ∷ (10, "c") ∷ []

submits :
    (submit_all decode calls submitter).0 ≡ ok "h1" ∷ err (rejected none) ∷ err rate_limited ∷ []
unfolding submit_all submit_transaction admit_call decode_and_send send_transaction read_response
    create_bucket try_consume take_token refill ◌+ℤ◌ ◌-ℤ◌
submits = refl

submit_all-bounded_example :
    length (submit_all decode calls submitter).1.sent * 1000
      + bucket.last_refill * bucket.refill_rate
    ≤ 0 * 1000
      + bucket.capacity
      + last_time bucket.last_refill (map (λ (c : ℕ × String). c.0) calls) * bucket.refill_rate
unfolding create_bucket
submit_all-bounded_example =
    submit_all-bounded decode calls submitter bucket refl (create_bucket-IsBucket 2 1 0)
      (omega arith)
