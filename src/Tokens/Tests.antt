-- ===== src/Tokens/Tests.antt =====
-- src/payments.ts and src/balances.ts: amounts in stroops.
use vellar_sdk.Prelude.{ℕ, pos, List, ◌≡◌, ok, arith}
use vellar_sdk.Tokens.{places, parse_token_amount, format_token_amount}
use vellar_sdk.Tokens.RoundTrip.{parse-format}

parse-format_example :
    (text : List ℕ) × (format_token_amount (pos 12500000) (places 7) ≡ ok text)
    × (parse_token_amount text (places 7) ≡ ok 12500000)
parse-format_example = parse-format 12500000 7 (omega arith)
