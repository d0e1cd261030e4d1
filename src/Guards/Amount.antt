-- ===== src/Guards/Amount.antt =====
-- src/x402-guards.ts, `parseAmount`, and the network maps.
use vellar_sdk.Prelude.{ℕ, codes, all_digits, big_int, if◌then◌else◌, Result, ok, err}
use vellar_sdk.X402.{JsonValue, str, X402Error, invalid_requirements}

unfoldable pub parse_amount : JsonValue → Result X402Error ℕ
parse_amount (str s) =
    if all_digits (codes s) then ok (big_int (codes s)) else err (invalid_requirements (str s))
parse_amount v = err (invalid_requirements v)
