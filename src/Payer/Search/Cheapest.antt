-- ===== src/Payer/Search/Cheapest.antt =====
-- packages/mcp-x402-payer/src/pay-and-call.ts: the candidates are payable, and in the order of their price.
use vellar_sdk.Prelude.{
  ℕ, ◌≤◌, Bool, true, String, Option, none, some, List, [], ◌∷◌, any, All, Memᴰ, Memᴰ-cases, leb,
  ◌==◌, string_eq, ◌≡◌, refl, ◌↔◌, ◌⊎◌, inl, inr, arith, eq_iff, Bool-cases, Option-cases,
}
use vellar_sdk.Payer.Pay.{PayerConfig}
use vellar_sdk.Payer.Search.{
  CatalogAccept, CatalogResource, SearchResponse, Candidate, or_empty, is_text, is_set, amount_of,
  candidate_of, first_candidate, resource_candidate, candidates_from, insert_candidate,
  sort_candidates, select_candidates,
}

is_text-eq : (s : String) (o : Option String) → is_text s o ≡ true → o ≡ some s
is_text-eq s none e = absurd (ground arith)
is_text-eq s (some t) e = ground (arith, eq_iff t s)

is_set-eq : (o : Option Bool) → is_set o ≡ true → o ≡ some true
is_set-eq none e = absurd (ground arith)
is_set-eq (some b) e = ground arith

module _ (config : PayerConfig) where
  -- An option on the configured network, of the exact scheme, in an allowed asset, with sponsored fees
  -- and an amount that is a natural number.
  pub record IsPayable (a : CatalogAccept) (c : Candidate) : Type 0 where
    pub on_network : a.network ≡ some config.caip2
    pub is_exact : a.scheme ≡ some "exact"
    pub in_asset : a.asset ≡ some c.asset
    pub asset_allowed : any (λ b. b == c.asset) config.allowed_assets ≡ true
    pub fees_sponsored : a.are_fees_sponsored ≡ some true
    pub priced : amount_of a.amount ≡ some c.amount

  candidate_of-IsPayable :
      (url : String) (a : CatalogAccept) (c : Candidate)
      → candidate_of config url a ≡ some c
      → IsPayable a c × (c.url ≡ url)
  unfolding candidate_of
  candidate_of-IsPayable url a c e = elim (Option-cases a.asset) [
    | inl missing ↦ absurd (ground arith)
    | inr (asset, given) ↦ elim (Option-cases (amount_of a.amount)) [
      | inl unpriced ↦ absurd (ground arith)
      | inr (n, priced) ↦
          let same : c ≡ record { url = url; amount = n; asset = asset } = ground arith in
          rw same (
            record {
              on_network = is_text-eq config.caip2 a.network (ground arith);
              is_exact = is_text-eq "exact" a.scheme (ground arith);
              in_asset = given;
              asset_allowed = ground arith;
              fees_sponsored = is_set-eq a.are_fees_sponsored (ground arith);
              priced = priced;
            },
            refl,
          )
    ]
  ]

  -- The candidate is for an option of a resource that was found.
  abbrev pub IsFound : List CatalogResource → Candidate → Type 0
  IsFound rs c =
      (r : CatalogResource) × (a : CatalogAccept) × Memᴰ r rs
      × (r.resource ≡ some c.url)
      × Memᴰ a (or_empty r.accepts)
      × IsPayable a c

  first_candidate-found :
      (url : String) (as' : List CatalogAccept) (c : Candidate)
      → first_candidate config url as' ≡ some c
      → (a : CatalogAccept) × Memᴰ a as' × IsPayable a c × (c.url ≡ url)
  unfolding first_candidate
  first_candidate-found url [] c e = absurd (ground arith)
  first_candidate-found url (a ∷ as') c e = elim (Option-cases (candidate_of config url a)) [
    | inl other ↦
        let (b, m, p, u) = first_candidate-found url as' c (ground arith) in (b, Memᴰ.tail m, p, u)
    | inr (d, here) ↦
        let same : d ≡ c = ground arith in
        let (p, u) = candidate_of-IsPayable url a c (rw same at here) in (a, Memᴰ.head refl, p, u)
  ]

  resource_candidate-found :
      (r : CatalogResource) (c : Candidate)
      → resource_candidate config r ≡ some c
      → (r.resource ≡ some c.url)
        × ((a : CatalogAccept) × Memᴰ a (or_empty r.accepts) × IsPayable a c)
  unfolding resource_candidate
  resource_candidate-found r c e = elim (Option-cases r.resource) [
    | inl missing ↦ absurd (ground arith)
    | inr (url, given) ↦
        let (a, m, p, u) = first_candidate-found url (or_empty r.accepts) c (ground arith) in
        (ground arith, (a, m, p))
  ]

  candidates_from-IsFound :
      (rs : List CatalogResource) (c : Candidate)
      → Memᴰ c (candidates_from config rs)
      → IsFound rs c
  unfolding candidates_from
  candidates_from-IsFound [] c m = elim m [ ]
  candidates_from-IsFound (r ∷ rs) c m = elim (Option-cases (resource_candidate config r)) [
    | inl skipped ↦
        let (s, a, there, u, ma, p) =
          candidates_from-IsFound rs c (rw (skipped, candidates_from) at m) in
        (s, a, Memᴰ.tail there, u, ma, p)
    | inr (d, taken) ↦ elim (Memᴰ-cases (rw (taken, candidates_from) at m)) [
      | inl same ↦
          let (u, (a, ma, p)) = resource_candidate-found r c (rw (← same) at taken) in
          (r, a, Memᴰ.head refl, u, ma, p)
      | inr later ↦
          let (s, a, there, u, ma, p) = candidates_from-IsFound rs c later in
          (s, a, Memᴰ.tail there, u, ma, p)
    ]
  ]

-- Every candidate costs at least as much as the one before.
abbrev pub IsSorted : List Candidate → Type 0
IsSorted [] = Unit
IsSorted (c ∷ cs) = All (λ d. c.amount ≤ d.amount) cs × IsSorted cs

insert_candidate-mem :
    (c d : Candidate) (cs : List Candidate) → Memᴰ d (insert_candidate c cs) → (d ≡ c) ⊎ Memᴰ d cs
unfolding insert_candidate
insert_candidate-mem c d [] m = Memᴰ-cases m
insert_candidate-mem c d (x ∷ cs) m = elim (Bool-cases (leb c.amount x.amount)) [
  | inl first ↦ Memᴰ-cases (rw (first, insert_candidate) at m)
  | inr later ↦ elim (Memᴰ-cases (rw (later, insert_candidate) at m)) [
    | inl same ↦ inr (Memᴰ.head same)
    | inr there ↦ elim (insert_candidate-mem c d cs there) [
      | inl same ↦ inl same
      | inr old ↦ inr (Memᴰ.tail old)
    ]
  ]
]

mem-insert_candidate :
    (c d : Candidate) (cs : List Candidate) → (d ≡ c) ⊎ Memᴰ d cs → Memᴰ d (insert_candidate c cs)
unfolding insert_candidate
mem-insert_candidate c d [] h = elim h [ inl same ↦ Memᴰ.head same | inr m ↦ elim m [ ] ]
mem-insert_candidate c d (x ∷ cs) h = elim (Bool-cases (leb c.amount x.amount)) [
  | inl first ↦
      rw (first, insert_candidate) (elim h [ inl same ↦ Memᴰ.head same | inr m ↦ Memᴰ.tail m ])
  | inr later ↦
      rw (later, insert_candidate)
        (elim h [
          | inl same ↦ Memᴰ.tail (mem-insert_candidate c d cs (inl same))
          | inr m ↦ elim (Memᴰ-cases m) [
            | inl here ↦ Memᴰ.head here
            | inr old ↦ Memᴰ.tail (mem-insert_candidate c d cs (inr old))
          ]
        ])
]

-- Sorting loses no candidate and adds none.
pub sort_candidates-mem_iff :
    (d : Candidate) (cs : List Candidate) → Memᴰ d (sort_candidates cs) ↔ Memᴰ d cs
unfolding sort_candidates
sort_candidates-mem_iff d [] = (λ m. m, λ m. m)
sort_candidates-mem_iff d (c ∷ cs) =
    let ih = sort_candidates-mem_iff d cs in
    (
      λ m. elim (insert_candidate-mem c d (sort_candidates cs) m) [
        | inl same ↦ Memᴰ.head same
        | inr old ↦ Memᴰ.tail (ih.0 old)
      ],
      λ m.
          mem-insert_candidate c d (sort_candidates cs)
            (elim (Memᴰ-cases m) [ inl same ↦ inl same | inr old ↦ inr (ih.1 old) ]),
    )

All-insert_candidate :
    (n : ℕ) (c : Candidate) (cs : List Candidate)
    → n ≤ c.amount
    → All (λ d. n ≤ d.amount) cs
    → All (λ d. n ≤ d.amount) (insert_candidate c cs)
unfolding insert_candidate
All-insert_candidate n c [] le h = (le, tt)
All-insert_candidate n c (x ∷ cs) le (h, hs) = elim (Bool-cases (leb c.amount x.amount)) [
  | inl first ↦ rw (first, insert_candidate) (le, (h, hs))
  | inr later ↦ rw (later, insert_candidate) (h, All-insert_candidate n c cs le hs)
]

All-trans :
    (m n : ℕ) (cs : List Candidate)
    → m ≤ n
    → All (λ d. n ≤ d.amount) cs
    → All (λ d. m ≤ d.amount) cs
All-trans m n [] le h = tt
All-trans m n (c ∷ cs) le (h, hs) = (omega arith, All-trans m n cs le hs)

insert_candidate-IsSorted :
    (c : Candidate) (cs : List Candidate) → IsSorted cs → IsSorted (insert_candidate c cs)
unfolding insert_candidate
insert_candidate-IsSorted c [] h = (tt, tt)
insert_candidate-IsSorted c (x ∷ cs) (h, hs) = elim (Bool-cases (leb c.amount x.amount)) [
  | inl first ↦
      let le : c.amount ≤ x.amount = ground arith in
      rw (first, insert_candidate) ((le, All-trans c.amount x.amount cs le h), (h, hs))
  | inr later ↦
      rw (later, insert_candidate)
        (All-insert_candidate x.amount c cs (ground arith) h, insert_candidate-IsSorted c cs hs)
]

pub sort_candidates-IsSorted : (cs : List Candidate) → IsSorted (sort_candidates cs)
unfolding sort_candidates
sort_candidates-IsSorted [] = tt
sort_candidates-IsSorted (c ∷ cs) =
    insert_candidate-IsSorted c (sort_candidates cs) (sort_candidates-IsSorted cs)

-- What is selected of a search is in the order of the amounts, and each candidate is for a resource that
-- was found and for a payable option of it.
pub select_candidates-IsFound :
    (config : PayerConfig) (found : SearchResponse)
    → IsSorted (select_candidates config found)
      × ((c : Candidate)
          → Memᴰ c (select_candidates config found)
          → IsFound config (or_empty found.resources) c)
unfolding select_candidates
select_candidates-IsFound config found = (
  sort_candidates-IsSorted (candidates_from config (or_empty found.resources)),
  λ c m.
      candidates_from-IsFound config (or_empty found.resources) c
        ((sort_candidates-mem_iff c (candidates_from config (or_empty found.resources))).0 m),
)
