-- ===== src/Payer/PayAndCall/Tests.antt =====
-- packages/mcp-x402-payer/src/pay-and-call.ts: a search, what is selected, and two catalogs of note.
use vellar_sdk.Prelude.{
  String, true, some, List, [], ◌∷◌, err, ◌≡◌, refl, ◌==◌, string_eq, if◌then◌else◌,
}
use vellar_sdk.Payer.Tests.{codecs, config, world}
use vellar_sdk.Payer.Search.{
  CatalogAccept, CatalogResource, SearchResponse, value_in, digits_in, big_int_prefixed,
  big_int_trimmed, big_int_text, amount_of, candidate_of, first_candidate, resource_candidate,
  candidates_from, insert_candidate, sort_candidates, select_candidates,
}
use vellar_sdk.Payer.PayAndCall.{Endpoints, over_max_amount, choose, pay_and_call}
use vellar_sdk.Payer.PayAndCall.Outcome.{Ended, pay_and_call-CallEnds}

abbrev option : String → CatalogAccept
option amount = record {
  scheme = some "exact";
  network = some "stellar:testnet";
  amount = some amount;
  asset = some "CUSDC";
  are_fees_sponsored = some true;
}

abbrev listing : String → List CatalogAccept → CatalogResource
listing url accepts = record { resource = some url; accepts = some accepts }

abbrev found : SearchResponse
found = record {
  resources = some (listing "dear" (option "200" ∷ []) ∷ listing "cheap" (option "100" ∷ []) ∷ []);
}

selects_the_cheaper :
    select_candidates config found
    ≡ record { url = "cheap"; amount = 100; asset = "CUSDC" }
      ∷ record { url = "dear"; amount = 200; asset = "CUSDC" }
      ∷ []
unfolding select_candidates sort_candidates insert_candidate candidates_from resource_candidate
    first_candidate candidate_of amount_of big_int_text big_int_trimmed big_int_prefixed digits_in
    value_in
selects_the_cheaper = refl

-- An amount that is blank is read as 0, and comes first.
blank_is_free :
    select_candidates config (record { resources = some (listing "blank" (option " " ∷ []) ∷ []) })
    ≡ record { url = "blank"; amount = 0; asset = "CUSDC" } ∷ []
unfolding select_candidates sort_candidates insert_candidate candidates_from resource_candidate
    first_candidate candidate_of amount_of big_int_text big_int_trimmed
blank_is_free = refl

-- Of one resource only the first payable option counts, also where a later one is affordable.
first_option_only :
    choose 1 100 (
      select_candidates config
        (record { resources = some (listing "two" (option "200" ∷ option "100" ∷ []) ∷ []) }))
    ≡ err (over_max_amount 1 200 "CUSDC")
unfolding choose select_candidates sort_candidates insert_candidate candidates_from
    resource_candidate first_candidate candidate_of amount_of big_int_text big_int_trimmed
    big_int_prefixed digits_in value_in
first_option_only = refl

-- The endpoint of the cheaper result answers as the script of `world` says, the other not at all.
abbrev endpoints : Endpoints
endpoints url = if url == "cheap" then world.fetches else []

pay_and_call-CallEnds_example :
    Ended endpoints codecs config "150"
      (some found)
      world
      (pay_and_call endpoints codecs config "150" (some found) world)
pay_and_call-CallEnds_example =
    pay_and_call-CallEnds endpoints codecs config "150" (some found) world
