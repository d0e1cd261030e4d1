-- ===== src/Tx/Bucket.antt =====
-- src/tx-rpc.ts: TokenBucket. Tokens are counted in thousandths, so that `refillRate / 1000` tokens
-- a millisecond are `refill_rate` of them; the code computes the same with floating-point numbers.
-- `capacity` is in thousandths too, times are whole milliseconds, and a clock may run backwards.
pub mod Rate
use vellar_sdk.Prelude.{
  ℕ, ◌*◌, ℤ, pos, ◌+ℤ◌, ◌-ℤ◌, le_ℤ, Bool, true, false, List, [], ◌∷◌, if◌then◌else◌,
}

pub record TokenBucket : Type 0 where
  pub capacity : ℕ
  pub refill_rate : ℕ
  pub tokens : ℤ
  pub last_refill : ℕ

-- One token.
abbrev pub whole_token : ℤ
whole_token = pos 1000

-- `new TokenBucket(bucketSize, refillRate / 1000)` at time `t`.
unfoldable pub create_bucket : ℕ → ℕ → ℕ → TokenBucket
create_bucket bucket_size refill_rate t = record {
  capacity = bucket_size * 1000;
  refill_rate = refill_rate;
  tokens = pos (bucket_size * 1000);
  last_refill = t;
}

abbrev pub min_ℤ : ℤ → ℤ → ℤ
min_ℤ a b = if le_ℤ a b then a else b

-- `this.#tokens + elapsed * this.refillPerMs`.
abbrev pub topped_up : TokenBucket → ℕ → ℤ
topped_up b t = b.tokens +ℤ (pos (t * b.refill_rate) -ℤ pos (b.last_refill * b.refill_rate))

-- `#refill`, where the clock reads `t`.
unfoldable pub refill : ℕ → TokenBucket → TokenBucket
refill t b = record b { tokens = min_ℤ (pos b.capacity) (topped_up b t); last_refill = t }

unfoldable pub take_token : TokenBucket → TokenBucket × Bool
take_token b =
    if le_ℤ whole_token b.tokens
    then (record b { tokens = b.tokens -ℤ whole_token }, true)
    else (b, false)

-- `tryConsume`, where the clock reads `t`.
unfoldable pub try_consume : ℕ → TokenBucket → TokenBucket × Bool
try_consume t b = take_token (refill t b)
