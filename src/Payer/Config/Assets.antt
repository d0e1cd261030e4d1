-- ===== src/Payer/Config/Assets.antt =====
-- packages/mcp-x402-payer/src/config.ts: what `parseAssets` and `parsePolicies` accept.
use vellar_sdk.Prelude.{
  ℕ, ◌<◌, ℤ, pos, pos_part, neg_part, Bool, true, false, String, Option, none, some, List, [], ◌∷◌,
  ◌++◌, is_empty, ok, codes, big_int, ◌==◌, string_eq, nat_eq, ◌≡◌, refl, arith, eq_iff, Bool-cases,
  Result-cases, inl, inr,
}
use vellar_sdk.Payer.Ledger.{Amounts, get, put}
use vellar_sdk.Payer.Config.{
  is_blank, trim_text, split_at, parse_pair, parse_parts, parse_entry, parse_entries, parse_assets,
  includes, parse_policy, policies_from, parse_policies,
}

module _ (is_valid_contract : String → Bool) where
  -- Contracts, each once, with a positive ceiling.
  abbrev pub AreCeilings : Amounts → Type 0
  AreCeilings [] = Unit
  AreCeilings ((asset, ceiling) ∷ rest) =
      (is_valid_contract asset ≡ true)
      × (0 < pos_part ceiling)
      × (neg_part ceiling ≡ 0)
      × (get asset rest ≡ none)
      × AreCeilings rest

  get-put_other :
      (key k : String) (v : ℤ) (m : Amounts)
      → get k m ≡ none
      → ((key == k) ≡ false)
      → get k (put key v m) ≡ none
  unfolding get put
  get-put_other key k v [] e other = ground (arith, eq_iff key k)
  get-put_other key k v ((j, w) ∷ m) e other =
      ground (arith, eq_iff j key, eq_iff j k, eq_iff key k, get-put_other key k v m)

  AreCeilings-put :
      (asset : String) (n : ℕ) (m : Amounts)
      → is_valid_contract asset ≡ true
      → 0 < n
      → get asset m ≡ none
      → AreCeilings m
      → AreCeilings (put asset (pos n) m)
  unfolding get put
  AreCeilings-put asset n [] valid positive absent h = (valid, positive, refl, refl, tt)
  AreCeilings-put asset n ((j, w) ∷ m) valid positive absent (v, p, q, a, h) =
      elim (Bool-cases (j == asset)) [
        | inl same ↦ absurd (ground arith)
        | inr other ↦ rw other (
          v,
          p,
          q,
          get-put_other asset j (pos n) m a (ground (arith, eq_iff j asset, eq_iff asset j)),
          AreCeilings-put asset n m valid positive (ground arith) h,
        )
      ]

  parse_pair-AreCeilings :
      (asset ceiling : String) (m m' : Amounts)
      → AreCeilings m
      → parse_pair is_valid_contract asset ceiling m ≡ ok m'
      → AreCeilings m'
  unfolding parse_pair
  parse_pair-AreCeilings asset ceiling m m' h e =
      let same : m' ≡ put asset (pos (big_int (codes ceiling))) m = ground arith in
      rw same (
        AreCeilings-put asset (big_int (codes ceiling)) m (ground arith) (ground arith)
          (ground arith) h)

  parse_parts-AreCeilings :
      (parts : List String) (m m' : Amounts)
      → AreCeilings m
      → parse_parts is_valid_contract parts m ≡ ok m'
      → AreCeilings m'
  unfolding parse_parts
  parse_parts-AreCeilings [] m m' h e = absurd (ground arith)
  parse_parts-AreCeilings (a ∷ []) m m' h e = absurd (ground arith)
  parse_parts-AreCeilings (a ∷ c ∷ []) m m' h e =
      parse_pair-AreCeilings (trim_text a) (trim_text c) m m' h e
  parse_parts-AreCeilings (a ∷ c ∷ d ∷ r) m m' h e = absurd (ground arith)

  parse_entry-AreCeilings :
      (entry : String) (m m' : Amounts)
      → AreCeilings m
      → parse_entry is_valid_contract entry m ≡ ok m'
      → AreCeilings m'
  unfolding parse_entry
  parse_entry-AreCeilings entry m m' h e = elim (Bool-cases (is_blank (trim_text entry))) [
    | inl blank ↦ let same : m' ≡ m = ground arith in rw same h
    | inr filled ↦
        parse_parts-AreCeilings (split_at b':' (trim_text entry)) m m' h
          (rw (filled, parse_entry) at e)
  ]

  parse_entries-AreCeilings :
      (es : List String) (m m' : Amounts)
      → AreCeilings m
      → parse_entries is_valid_contract es m ≡ ok m'
      → AreCeilings m'
  unfolding parse_entries
  parse_entries-AreCeilings [] m m' h e = let same : m' ≡ m = ground arith in rw same h
  parse_entries-AreCeilings (x ∷ es) m m' h e =
      elim (Result-cases (parse_entry is_valid_contract x m)) [
        | inl (y, bad) ↦ absurd (ground arith)
        | inr (m'', good) ↦
            parse_entries-AreCeilings es m'' m' (parse_entry-AreCeilings x m m'' h good)
              (ground arith)
      ]

  -- A list of assets that is accepted names at least one asset, and each one once, a contract, with a
  -- positive ceiling.
  pub parse_assets-AreCeilings :
      (raw : String) (m : Amounts)
      → parse_assets is_valid_contract raw ≡ ok m
      → AreCeilings m × (is_empty m ≡ false)
  unfolding parse_assets
  parse_assets-AreCeilings raw m e =
      elim (Result-cases (parse_entries is_valid_contract (split_at b',' raw) [])) [
        | inl (y, bad) ↦ absurd (ground arith)
        | inr (m', good) ↦
            let same : m' ≡ m = ground arith in
            (
              rw (← same) (parse_entries-AreCeilings (split_at b',' raw) [] m' tt good),
              ground arith,
            )
      ]

  -- Contracts, none of them twice.
  abbrev pub ArePolicies : List String → Type 0
  ArePolicies [] = Unit
  ArePolicies (p ∷ ps) =
      (is_valid_contract p ≡ true) × (includes is_valid_contract p ps ≡ false) × ArePolicies ps

  includes-append :
      (x y : String) (ps : List String)
      → includes is_valid_contract x ps ≡ false
      → ((y == x) ≡ false)
      → includes is_valid_contract x (ps ++ y ∷ []) ≡ false
  includes-append x y [] h k = ground arith
  includes-append x y (p ∷ ps) h k = ground (arith, includes-append x y ps)

  ArePolicies-append :
      (p : String) (ps : List String)
      → ArePolicies ps
      → is_valid_contract p ≡ true
      → includes is_valid_contract p ps ≡ false
      → ArePolicies (ps ++ p ∷ [])
  ArePolicies-append p [] h v n = (v, refl, tt)
  ArePolicies-append p (q ∷ ps) (vq, nq, h) v n = (
    vq,
    includes-append q p ps nq (ground (arith, eq_iff p q, eq_iff q p)),
    ArePolicies-append p ps h v (ground arith),
  )

  policies_from-ArePolicies :
      (es : List String) (out ps : List String)
      → ArePolicies out
      → policies_from is_valid_contract es out ≡ ok ps
      → ArePolicies ps
  unfolding policies_from parse_policy
  policies_from-ArePolicies [] out ps h e = let same : ps ≡ out = ground arith in rw same h
  policies_from-ArePolicies (x ∷ es) out ps h e =
      elim (Result-cases (parse_policy is_valid_contract (trim_text x) out)) [
        | inl (y, bad) ↦ absurd (ground arith)
        | inr (out', good) ↦ policies_from-ArePolicies es out' ps (one out' good) (ground arith)
      ]
    where
      one :
          (out' : List String)
          → parse_policy is_valid_contract (trim_text x) out ≡ ok out'
          → ArePolicies out'
      one out' good = elim (Bool-cases (is_blank (trim_text x))) [
        | inl blank ↦ let same : out' ≡ out = ground arith in rw same h
        | inr filled ↦
            let same : out' ≡ out ++ trim_text x ∷ [] = ground arith in
            rw same (ArePolicies-append (trim_text x) out h (ground arith) (ground arith))
      ]

  pub parse_policies-ArePolicies :
      (raw : Option String) (ps : List String)
      → parse_policies is_valid_contract raw ≡ ok ps
      → ArePolicies ps
  unfolding parse_policies
  parse_policies-ArePolicies none ps e = let same : ps ≡ [] = ground arith in rw same tt
  parse_policies-ArePolicies (some raw) ps e = elim (Bool-cases (is_blank (trim_text raw))) [
    | inl blank ↦ let same : ps ≡ [] = ground arith in rw same tt
    | inr filled ↦ policies_from-ArePolicies (split_at b',' raw) [] ps tt (ground arith)
  ]
