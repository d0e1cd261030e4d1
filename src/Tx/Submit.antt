-- ===== src/Tx/Submit.antt =====
-- src/tx-rpc.ts: `createRpcTxSubmitter`. `Transaction.fromXDR` is the parameter `decode`, which gives
-- nothing where it throws; what the server answers is a script, and the log holds the transactions
-- that were sent to it. An empty hash or error text is falsy or absent as in the source.
pub mod Limit
use vellar_sdk.Prelude.{
  ℕ, Bool, true, false, not, String, Option, none, some, List, [], ◌∷◌, Result, ok, err, ◌==◌,
  string_eq, if◌then◌else◌,
}
use vellar_sdk.Tx.Bucket.{TokenBucket, create_bucket, try_consume}

pub data SubmitError : Type 0 where
  rate_limited : SubmitError
  undecodable : SubmitError
  unreachable : SubmitError
  rejected : Option String → SubmitError
  no_hash : SubmitError

-- The response of `server.sendTransaction`.
pub record SendResponse : Type 0 where
  pub status : String
  pub error_result : Option String
  pub hash : String

pub record RpcRateLimitOptions : Type 0 where
  pub bucket_size : ℕ
  pub refill_rate : ℕ

-- The closure of `createRpcTxSubmitter`, and the server it sends to: `none` is a call that throws.
pub record Submitter : Type 0 where
  pub limiter : Option TokenBucket
  pub responses : List (Option SendResponse)
  pub sent : List String

unfoldable pub create_rpc_tx_submitter :
    ℕ → Option RpcRateLimitOptions → List (Option SendResponse) → Submitter
create_rpc_tx_submitter t rate_limit responses = record {
  limiter = elim rate_limit [
    | none ↦ none
    | some o ↦ some (create_bucket o.bucket_size o.refill_rate t)
  ];
  responses = responses;
  sent = [];
}

-- `limiter && !limiter.tryConsume()`, where the clock reads `t`: whether the call goes on.
unfoldable pub admit_call : ℕ → Option TokenBucket → Option TokenBucket × Bool
admit_call t none = (none, true)
admit_call t (some b) = let (b', allowed) = try_consume t b in (some b', allowed)

-- The checks of what the server answers.
unfoldable pub read_response : SendResponse → Result SubmitError String
read_response res =
    if res.status == "ERROR"
    then err (rejected res.error_result)
    else if res.hash == ""
    then err no_hash
    else ok res.hash

unfoldable pub send_transaction : String → Submitter → Result SubmitError String × Submitter
send_transaction tx s = elim s.responses [
  | [] ↦ (err unreachable, record s { sent = tx ∷ s.sent })
  | r ∷ rest ↦ (
    elim r [ none ↦ err unreachable | some res ↦ read_response res ],
    record s { responses = rest; sent = tx ∷ s.sent },
  )
]

module _ (decode : String → Option String) where
  unfoldable pub decode_and_send : String → Submitter → Result SubmitError String × Submitter
  decode_and_send signed_xdr s = elim (decode signed_xdr) [
    | none ↦ (err undecodable, s)
    | some tx ↦ send_transaction tx s
  ]

  unfoldable pub submit_transaction : ℕ → String → Submitter → Result SubmitError String × Submitter
  submit_transaction t signed_xdr s =
      let (limiter, allowed) = admit_call t s.limiter in
      if allowed
      then decode_and_send signed_xdr (record s { limiter = limiter })
      else (err rate_limited, record s { limiter = limiter })

  -- Calls at the given times, and what each returned, in their order.
  unfoldable pub submit_all :
      List (ℕ × String) → Submitter → List (Result SubmitError String) × Submitter
  submit_all [] s = ([], s)
  submit_all ((t, xdr) ∷ calls) s =
      let (r, s') = submit_transaction t xdr s in
      let (rs, s'') = submit_all calls s' in (r ∷ rs, s'')
