-- ===== src/Cli/Pay.antt =====
-- packages/cli/src/commands/pay.ts: the action of the pay command, without its printing. A world answers
-- for the network, the file system, the keys and the x402 client library.
use vellar_sdk.Prelude.{
  ℕ, ℤ, lt_ℤ, Bool, false, not, ◌&&◌, ◌||◌, String, Option, none, some, List, [], ◌∷◌, Result, ok,
  err, ◌>>=◌, ◌>>◌, throw_if, codes, any, is_empty, ◌==◌, string_eq, nat_eq, if◌then◌else◌,
}
use vellar_sdk.Http.{Response, is_ok}
use vellar_sdk.Payer.Config.{trim_text, is_blank}
use vellar_sdk.Payer.Search.{big_int_text}
use vellar_sdk.RequestAuth.Compare.{Text, text_eq}
use vellar_sdk.RequestAuth.{to_upper_case}
use vellar_sdk.Cli.{
  CliRequirement, CliChallenge, Parser, decode_challenge, price_of, chosen, none_on_this_network,
  none_exact, selection_threw, Selection, select_requirement,
}

pub record PayOptions : Type 0 where
  pub secret : Option String
  pub secret_file : Option String
  pub max : String
  pub network : String
  pub method : Text
  pub body : Option String

-- Why the command ends with exit code 1. `failed` is the end by the outer `catch`.
pub data PayRefusal : Type 0 where
  unknown_network no_secret_given invalid_secret_key max_not_integer method_not_allowed : PayRefusal
  body_not_json undecodable no_option no_exact_option fees_unsponsored not_built failed : PayRefusal
  unexpected_status not_unlocked : ℕ → PayRefusal
  over_max : ℤ → PayRefusal

pub data PayEnd : Type 0 where
  ended : PayRefusal → PayEnd
  was_free unlocked : String → PayEnd

-- A request: its method, its body if it has one, and the payment header.
pub record CliRequest : Type 0 where
  pub method : Text
  pub body : Option String
  pub payment : Option String

-- What the command did: the requests it sent, and the challenges it had signed.
pub data CliAct : Type 0 where
  sent_request : CliRequest → CliAct
  had_signed : CliChallenge → CliAct

pub record CliWorld : Type 0 where
  pub read_file : String → Option String
  pub is_valid_secret : String → Bool
  pub is_json : String → Bool
  pub fetch : CliRequest → Option Response
  pub from_base64 : Parser
  pub parse : Parser
  pub create_payload : CliChallenge → Option String
  pub encode_header : String → String

abbrev pub allowed_methods : List Text
allowed_methods = codes "GET" ∷ codes "POST" ∷ codes "PUT" ∷ codes "PATCH" ∷ codes "DELETE" ∷ []

-- `NETWORK_IDS[network]`, which has the keys of `RPC_URLS`; the names that every object inherits aside.
unfoldable pub network_id : String → Option String
network_id network =
    if network == "testnet"
    then some "stellar:testnet"
    else if network == "mainnet"
    then some "stellar:pubnet"
    else none

abbrev pub or_refuse : {A : Type 0} → PayRefusal → Option A → Result PayRefusal A
or_refuse e none = err e
or_refuse e (some a) = ok a

-- The checks before the first request: the network, the limit, the method and the body.
pub record Checked : Type 0 where
  pub network : String
  pub max_amount : ℤ
  pub method : Text
  pub body : Option String

abbrev pub read_text : Response → Result PayRefusal String
read_text res = or_refuse failed res.body

-- The checks of the chosen option that stand before the signature.
unfoldable pub check_option : Checked → CliRequirement → Result PayRefusal CliRequirement
check_option c option = do
  price ← or_refuse failed (price_of option)
  throw_if (lt_ℤ c.max_amount price) (over_max price)
  throw_if (not (elim option.are_fees_sponsored [ none ↦ false | some b ↦ b ])) fees_unsponsored
  ok option

abbrev pub check_selection : Checked → Selection → Result PayRefusal CliRequirement
check_selection c none_on_this_network = err no_option
check_selection c none_exact = err no_exact_option
check_selection c selection_threw = err failed
check_selection c (chosen option) = check_option c option

-- The option that is chosen of a challenge, once it has passed the checks.
unfoldable pub approve : Checked → CliChallenge → Result PayRefusal CliRequirement
approve c challenge = elim challenge.accepts [
  | none ↦ err undecodable
  | some accepts ↦
      if is_empty accepts
      then err undecodable
      else check_selection c (select_requirement accepts c.network)
]

abbrev pub end_of : Result PayRefusal PayEnd → PayEnd
end_of (err e) = ended e
end_of (ok e) = e

-- The unpaid request.
abbrev pub probe : Checked → CliRequest
probe c = record { method = c.method; body = c.body; payment = none }

module _ (w : CliWorld) where
  abbrev pub secret_of : PayOptions → Result PayRefusal (Option String)
  secret_of opts = elim opts.secret_file [
    | none ↦ ok opts.secret
    | some path ↦
        if is_blank path
        then ok opts.secret
        else (or_refuse failed (w.read_file path) >>= λ text. ok (some (trim_text text)))
  ]

  unfoldable pub request_body : PayOptions → Result PayRefusal String
  request_body opts = elim opts.body [
    | none ↦ ok "{}"
    | some body ↦
        if not (w.is_json body) && not (trim_text body == "null")
        then err body_not_json
        else ok body
  ]

  unfoldable pub check_options : PayOptions → Result PayRefusal Checked
  check_options opts = do
    network ← or_refuse unknown_network (network_id opts.network)
    given ← secret_of opts
    secret ← or_refuse no_secret_given given
    throw_if (is_blank secret) no_secret_given
    throw_if (not (w.is_valid_secret secret)) invalid_secret_key
    max_amount ← or_refuse max_not_integer (big_int_text opts.max)
    let method = to_upper_case opts.method
    throw_if (not (any (λ m. m == method) allowed_methods)) method_not_allowed
    body ← request_body opts
    ok (record {
      network = network;
      max_amount = max_amount;
      method = method;
      body = if method == codes "GET" || method == codes "HEAD" then none else some body;
    })

  abbrev pub paid_request : Checked → String → CliRequest
  paid_request c payload = record {
    method = c.method;
    body = c.body;
    payment = some (w.encode_header payload);
  }

  -- The answer to the paid request.
  unfoldable pub after_paid : Option Response → Result PayRefusal PayEnd
  after_paid answer = do
    paid ← or_refuse failed answer
    text ← read_text paid
    if not (paid.status == 200) then err (not_unlocked paid.status) else ok (unlocked text)

  -- From the approved challenge on: it is signed as it came, and sent.
  unfoldable pub sign_and_send : Checked → CliChallenge → List CliAct × PayEnd
  sign_and_send c challenge = elim (w.create_payload challenge) [
    | none ↦ (had_signed challenge ∷ [], ended not_built)
    | some payload ↦ (
      had_signed challenge ∷ sent_request (paid_request c payload) ∷ [],
      end_of (after_paid (w.fetch (paid_request c payload))),
    )
  ]

  -- From the first answer on.
  unfoldable pub challenge_in : Response → Result PayRefusal CliChallenge
  challenge_in unpaid = do
    throw_if (not (unpaid.status == 402)) (unexpected_status unpaid.status)
    text ← read_text unpaid
    or_refuse undecodable
        (decode_challenge w.from_base64 w.parse (unpaid.header "payment-required") text)

  unfoldable pub after_probe : Checked → Response → List CliAct × PayEnd
  after_probe c unpaid =
      if is_ok unpaid
      then ([], elim unpaid.body [ none ↦ ended failed | some text ↦ was_free text ])
      else elim (challenge_in unpaid) [
        | err e ↦ ([], ended e)
        | ok challenge ↦ elim (approve c challenge) [
          | err e ↦ ([], ended e)
          | ok option ↦ sign_and_send c challenge
        ]
      ]

  unfoldable pub run_pay : PayOptions → List CliAct × PayEnd
  run_pay opts = elim (check_options opts) [
    | err e ↦ ([], ended e)
    | ok c ↦ elim (w.fetch (probe c)) [
      | none ↦ (sent_request (probe c) ∷ [], ended failed)
      | some unpaid ↦ let (acts, end) = after_probe c unpaid in (sent_request (probe c) ∷ acts, end)
    ]
  ]
