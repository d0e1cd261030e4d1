-- ===== src/RequestAuth/Canonical.antt =====
-- src/x402-request-auth.ts: what the canonical string of a request says.
use vellar_sdk.Prelude.{[], ◌∷◌, ◌++◌, ◌≡◌, refl, ◌≢◌, All, arith}
use vellar_sdk.RequestAuth.Compare.{Text}
use vellar_sdk.RequestAuth.{
  Request, newline, to_upper_case, join_lines, body_or_empty, canonical_request_string,
}

abbrev pub IsLine : Text → Type 0
IsLine = All (λ c. c ≢ newline)

to_upper_case-IsLine : (t : Text) → IsLine t → IsLine (to_upper_case t)
to_upper_case-IsLine [] h = tt
to_upper_case-IsLine (c ∷ cs) h = (ground (arith, h.0), to_upper_case-IsLine cs h.1)

-- The text before the first newline is the same, and so is what comes after it.
first_line :
    (xs ys r s : Text)
    → IsLine xs
    → IsLine ys
    → xs ++ newline ∷ r ≡ ys ++ newline ∷ s
    → (xs ≡ ys) × (r ≡ s)
first_line [] [] r s p q e = (refl, cc e)
first_line [] (y ∷ ys) r s p q e = let c : newline ≡ y = cc e in ground (arith, q.0)
first_line (x ∷ xs) [] r s p q e = let c : x ≡ newline = cc e in ground (arith, p.0)
first_line (x ∷ xs) (y ∷ ys) r s p q e =
    let (front, rest) = first_line xs ys r s p.1 q.1 (cc e) in (cc (e, front), rest)

-- The fields of a request that stand before the body have no newline in them.
abbrev pub AreLines : Request → Text → Text → Type 0
AreLines r timestamp nonce = IsLine r.method × IsLine r.path × IsLine timestamp × IsLine nonce

abbrev pub IsSame : Request → Request → Type 0
IsSame r r' =
    (to_upper_case r.method ≡ to_upper_case r'.method)
    × (r.path ≡ r'.path)
    × (body_or_empty r.body ≡ body_or_empty r'.body)

-- Requests with the same canonical string are the same, and so are their timestamps and nonces.
pub canonical-inject :
    (r r' : Request) (t t' n n' : Text)
    → AreLines r t n
    → AreLines r' t' n'
    → canonical_request_string r t n ≡ canonical_request_string r' t' n'
    → IsSame r r' × (t ≡ t') × (n ≡ n')
unfolding canonical_request_string join_lines
canonical-inject r r' t t' n n' (m, p, q, k) (m', p', q', k') e =
    let (methods, e1) =
      first_line (to_upper_case r.method) (to_upper_case r'.method) _ _
        (to_upper_case-IsLine r.method m) (to_upper_case-IsLine r'.method m') e in
    let (paths, e2) = first_line r.path r'.path _ _ p p' e1 in
    let (times, e3) = first_line t t' _ _ q q' e2 in
    let (nonces, bodies) = first_line n n' _ _ k k' e3 in ((methods, paths, bodies), times, nonces)
