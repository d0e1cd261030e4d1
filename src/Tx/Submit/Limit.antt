-- ===== src/Tx/Submit/Limit.antt =====
-- src/tx-rpc.ts: how many transactions a rate-limited submitter sends.
use vellar_sdk.Prelude.{
  ℕ, suc, ◌+◌, ◌*◌, ◌≤◌, String, Option, some, List, [], ◌∷◌, map, length, string_eq, if◌then◌else◌,
  ◌≡◌, inl, inr, arith, Bool-cases, Option-cases,
}
use vellar_sdk.Tx.Bucket.{TokenBucket, try_consume}
use vellar_sdk.Tx.Bucket.Rate.{IsBucket, IsRising, last_time, consume_all, consume_all-bounded}
use vellar_sdk.Tx.Submit.{
  Submitter, admit_call, send_transaction, decode_and_send, submit_transaction, submit_all,
}

send_transaction-sent :
    (tx : String) (s : Submitter)
    → ((send_transaction tx s).1.limiter ≡ s.limiter)
      × (length (send_transaction tx s).1.sent ≡ suc (length s.sent))
unfolding send_transaction
send_transaction-sent tx s = ground arith

module _ (decode : String → Option String) where
  decode_and_send-sent :
      (xdr : String) (s : Submitter)
      → ((decode_and_send decode xdr s).1.limiter ≡ s.limiter)
        × (length (decode_and_send decode xdr s).1.sent ≤ suc (length s.sent))
        × (length s.sent ≤ length (decode_and_send decode xdr s).1.sent)
  unfolding decode_and_send
  decode_and_send-sent xdr s = elim (Option-cases (decode xdr)) [
    | inl bad ↦ ground arith
    | inr (tx, e) ↦ ground (arith, send_transaction-sent tx s)
  ]

  -- The submitter behind one call: its bucket is the bucket after one `tryConsume`, and it has sent at
  -- most one transaction if that let the call through and none otherwise.
  submit_transaction-sent :
      (t : ℕ) (xdr : String) (s : Submitter) (b : TokenBucket)
      → s.limiter ≡ some b
      → ((submit_transaction decode t xdr s).1.limiter ≡ some (try_consume t b).0)
        × (length (submit_transaction decode t xdr s).1.sent
            ≤ (if (try_consume t b).1 then suc (length s.sent) else length s.sent))
  unfolding submit_transaction admit_call
  submit_transaction-sent t xdr s b e =
      let passed = decode_and_send-sent xdr (record s { limiter = some (try_consume t b).0 }) in
      elim (Bool-cases (try_consume t b).1) [
        | inl allowed ↦ rw (e, allowed, admit_call) (ground (arith, passed))
        | inr refused ↦ rw (e, refused, admit_call) (ground arith)
      ]

  submit_all-consume_all :
      (calls : List (ℕ × String)) (s : Submitter) (b : TokenBucket)
      → s.limiter ≡ some b
      → length (submit_all decode calls s).1.sent
        ≤ length s.sent + (consume_all (map (λ (c : ℕ × String). c.0) calls) b).1
  unfolding submit_all consume_all
  submit_all-consume_all [] s b e = omega arith
  submit_all-consume_all ((t, xdr) ∷ calls) s b e =
      let (limiter, sent) = submit_transaction-sent t xdr s b e in
      let rest =
        submit_all-consume_all calls (submit_transaction decode t xdr s).1 (try_consume t b).0
          limiter in
      elim (Bool-cases (try_consume t b).1) [
        | inl allowed ↦ rw allowed (omega (arith, rest, rw allowed at sent))
        | inr refused ↦ rw refused (omega (arith, rest, rw refused at sent))
      ]

  -- A submitter with a rate limit sends, in any stretch of time on a clock that does not run backwards,
  -- no more transactions than its bucket holds tokens when full and gains in that time.
  pub submit_all-bounded :
      (calls : List (ℕ × String)) (s : Submitter) (b : TokenBucket)
      → s.limiter ≡ some b
      → IsBucket b
      → IsRising b.last_refill (map (λ (c : ℕ × String). c.0) calls)
      → length (submit_all decode calls s).1.sent * 1000 + b.last_refill * b.refill_rate
        ≤ length s.sent * 1000
          + b.capacity
          + last_time b.last_refill (map (λ (c : ℕ × String). c.0) calls) * b.refill_rate
  submit_all-bounded calls s b e v rising = omega (
    arith,
    submit_all-consume_all calls s b e,
    consume_all-bounded (map (λ (c : ℕ × String). c.0) calls) b v rising,
  )
