-- ===== src/Tx/Bucket/Rate.antt =====
-- src/tx-rpc.ts: how many calls a bucket lets through.
use vellar_sdk.Prelude.{
  ℕ, suc, ◌+◌, ◌*◌, ◌≤◌, pos, ◌+ℤ◌, ◌-ℤ◌, ◌≤ℤ◌, pos_part, true, List, [], ◌∷◌, if◌then◌else◌, ◌≡◌,
  inl, inr, arith, Bool-cases,
}
use vellar_sdk.Tx.Bucket.{TokenBucket, create_bucket, refill, take_token, try_consume}

-- Between none and as many tokens as fit.
pub record IsBucket (b : TokenBucket) : Type 0 where
  pub at_least : pos 0 ≤ℤ b.tokens
  pub at_most : b.tokens ≤ℤ pos b.capacity

pub create_bucket-IsBucket : (size rate t : ℕ) → IsBucket (create_bucket size rate t)
unfolding create_bucket
create_bucket-IsBucket size rate t = record { at_least = omega arith; at_most = omega arith }

-- A call on a clock that does not run backwards keeps the bucket between none and full.
pub try_consume-IsBucket :
    (t : ℕ) (b : TokenBucket) → IsBucket b → b.last_refill ≤ t → IsBucket (try_consume t b).0
unfolding try_consume refill take_token ◌+ℤ◌ ◌-ℤ◌
try_consume-IsBucket t b v le =
    let gained : b.last_refill * b.refill_rate ≤ t * b.refill_rate = grind arith in ground arith

try_consume-fields :
    (t : ℕ) (b : TokenBucket)
    → ((try_consume t b).0.capacity ≡ b.capacity)
      × ((try_consume t b).0.refill_rate ≡ b.refill_rate)
      × ((try_consume t b).0.last_refill ≡ t)
unfolding try_consume refill take_token
try_consume-fields t b = ground arith

-- A bucket of at least one token lets a call through once a token's time has passed since the last.
pub try_consume-refilled :
    (t : ℕ) (b : TokenBucket)
    → IsBucket b
    → 1000 ≤ b.capacity
    → b.last_refill * b.refill_rate + 1000 ≤ t * b.refill_rate
    → (try_consume t b).1 ≡ true
unfolding try_consume refill take_token ◌+ℤ◌ ◌-ℤ◌
try_consume-refilled t b v room gained = ground arith

-- The time of the last of some calls, the first of them not before `t`.
abbrev pub last_time : ℕ → List ℕ → ℕ
last_time t [] = t
last_time t (u ∷ us) = last_time u us

abbrev pub IsRising : ℕ → List ℕ → Type 0
IsRising t [] = Unit
IsRising t (u ∷ us) = (t ≤ u) × IsRising u us

-- The calls at the given times, and how many of them are let through.
unfoldable pub consume_all : List ℕ → TokenBucket → TokenBucket × ℕ
consume_all [] b = (b, 0)
consume_all (t ∷ ts) b =
    let (b', allowed) = try_consume t b in
    let (b'', n) = consume_all ts b' in (b'', if allowed then suc n else n)

try_consume-tokens :
    (t : ℕ) (b : TokenBucket)
    → IsBucket b
    → b.last_refill ≤ t
    → pos_part (try_consume t b).0.tokens
        + (if (try_consume t b).1 then 1000 else 0)
        + b.last_refill * b.refill_rate
      ≤ pos_part b.tokens + t * b.refill_rate
unfolding try_consume refill take_token ◌+ℤ◌ ◌-ℤ◌
try_consume-tokens t b v le =
    let gained : b.last_refill * b.refill_rate ≤ t * b.refill_rate = grind arith in ground arith

consume_all-tokens :
    (ts : List ℕ) (b : TokenBucket)
    → IsBucket b
    → IsRising b.last_refill ts
    → (consume_all ts b).1 * 1000
        + pos_part (consume_all ts b).0.tokens
        + b.last_refill * b.refill_rate
      ≤ pos_part b.tokens + last_time b.last_refill ts * b.refill_rate
unfolding consume_all
consume_all-tokens [] b v rising = omega arith
consume_all-tokens (t ∷ ts) b v (le, rising) =
    let (same_capacity, same_rate, at_t) = try_consume-fields t b in
    let rest =
      rw (at_t, same_rate) at
        (consume_all-tokens ts (try_consume t b).0 (try_consume-IsBucket t b v le)
          (rw at_t rising)) in
    elim (Bool-cases (try_consume t b).1) [
      | inl allowed ↦ rw allowed (omega (arith, rest, rw allowed at (try_consume-tokens t b v le)))
      | inr refused ↦ rw refused (omega (arith, rest, rw refused at (try_consume-tokens t b v le)))
    ]

tokens-le-capacity : (b : TokenBucket) → IsBucket b → pos_part b.tokens ≤ b.capacity
tokens-le-capacity b v = ground arith

-- On a clock that does not run backwards, the calls that a bucket lets through in any stretch of time
-- take no more tokens than the bucket holds when it is full and gains in that time.
pub consume_all-bounded :
    (ts : List ℕ) (b : TokenBucket)
    → IsBucket b
    → IsRising b.last_refill ts
    → (consume_all ts b).1 * 1000 + b.last_refill * b.refill_rate
      ≤ b.capacity + last_time b.last_refill ts * b.refill_rate
consume_all-bounded ts b v rising =
    omega (arith, consume_all-tokens ts b v rising, tokens-le-capacity b v)
