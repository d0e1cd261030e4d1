-- ===== src/Wallet/Client/Pays.antt =====
-- src/client.ts and src/payments-client.ts: what a payment of the client does, on every branch.
use vellar_sdk.Prelude.{
  pos, le_ℤ, Bool, true, false, String, Option, none, some, ◌∷◌, Result, ok, err, ◌==◌, string_eq,
  ◌≡◌, sym, inl, inr, arith, Bool-cases, Option-cases, Result-cases,
}
use mathlib.Core.Path.{subst}
use vellar_sdk.Wallet.Host.{
  Signed, Act, built, kit_sign, submitted, Host, WalletError, host_threw, invalid_recipient,
  same_recipient, invalid_amount, OpenSession, Wallet, log_act, ◌>>=◌,
}
use vellar_sdk.Wallet.Connector.{default_signed_to_xdr}
use vellar_sdk.Wallet.Payments.{PaymentInput, signed_or, assert_payment, prepare_payment, confirm}
use vellar_sdk.Wallet.Agents.{require_session}
use vellar_sdk.Wallet.Client.{VellarWalletConfig, PayInput, pay}

module _ (host : Host) (is_valid_address : String → Bool) (config : VellarWalletConfig) where
  -- A positive amount to a valid address that is not the sender's.
  abbrev pub IsPayable : String → PayInput → Type 0
  IsPayable from input =
      (is_valid_address input.to ≡ true)
      × ((input.to == from) ≡ false)
      × (le_ℤ input.amount (pos 0) ≡ false)

  abbrev pub transfer_act : String → PayInput → Act
  transfer_act from input = built input.token from input.to input.amount

  abbrev pub submission_result : Wallet → Result WalletError String
  submission_result w = elim (host.submit_transaction w.log) [
    | none ↦ err host_threw
    | some hash ↦ ok hash
  ]

  -- How a payment from an open session's account ends, and what it has done by then.
  pub data PayEnds (from : String) (input : PayInput) (w : Wallet)
      : Result WalletError String → Wallet → Type 0 where
    refused : (e : WalletError) → (IsPayable from input → ⊥) → PayEnds from input w (err e) w
    unbuilt :
        IsPayable from input
        → host.transfer w.log ≡ none
        → PayEnds from input w (err host_threw) (log_act (transfer_act from input) w)
    unsigned :
        (tx : Signed)
        → IsPayable from input
        → host.transfer w.log ≡ some tx
        → host.sign (transfer_act from input ∷ w.log) ≡ none
        → PayEnds from input w
            (err host_threw)
            (log_act (kit_sign tx) (log_act (transfer_act from input) w))
    unreadable :
        (tx : Signed) (signed : Option Signed) (e : WalletError)
        → IsPayable from input
        → host.transfer w.log ≡ some tx
        → host.sign (transfer_act from input ∷ w.log) ≡ some signed
        → default_signed_to_xdr (signed_or tx signed) ≡ err e
        → PayEnds from input w (err e) (log_act (kit_sign tx) (log_act (transfer_act from input) w))
    sent :
        (tx : Signed) (signed : Option Signed) (xdr : String)
        → IsPayable from input
        → host.transfer w.log ≡ some tx
        → host.sign (transfer_act from input ∷ w.log) ≡ some signed
        → default_signed_to_xdr (signed_or tx signed) ≡ ok xdr
        → PayEnds from input w
            (submission_result (log_act (kit_sign tx) (log_act (transfer_act from input) w)))
            (log_act (submitted xdr) (log_act (kit_sign tx) (log_act (transfer_act from input) w)))

  module _ (input : PayInput) (w : Wallet) (s : OpenSession) (opened : w.opened ≡ some s) where
    abbrev payment : PaymentInput
    payment = record {
      from = s.session.account_id;
      to = input.to;
      token = input.token;
      amount = input.amount;
    }

    abbrev built_wallet : Wallet
    built_wallet = log_act (transfer_act s.session.account_id input) w

    abbrev signed_wallet : Signed → Wallet
    signed_wallet tx = log_act (kit_sign tx) built_wallet

    abbrev pub Ended : Result WalletError String × Wallet → Type 0
    Ended t = PayEnds s.session.account_id input w t.0 t.1

    abbrev confirmed : Signed → Result WalletError String × Wallet
    confirmed tx = confirm host is_valid_address (record { review = payment; tx = tx }) built_wallet

    confirm-PayEnds :
        (tx : Signed)
        → IsPayable s.session.account_id input
        → host.transfer w.log ≡ some tx
        → Ended (confirmed tx)
    unfolding confirm ◌>>=◌
    confirm-PayEnds tx p b = elim (Option-cases (host.sign built_wallet.log)) [
      | inl declined ↦
          let e : confirmed tx ≡ (err host_threw, signed_wallet tx) = ground arith in
          subst Ended (sym e) (unsigned tx p b declined)
      | inr (signed, took) ↦ elim (Result-cases (default_signed_to_xdr (signed_or tx signed))) [
        | inl (x, bad) ↦
            let e : confirmed tx ≡ (err x, signed_wallet tx) = ground arith in
            subst Ended (sym e) (unreadable tx signed x p b took bad)
        | inr (xdr, good) ↦
            let e : confirmed tx ≡ (
              submission_result (signed_wallet tx),
              log_act (submitted xdr) (signed_wallet tx),
            ) =
              ground arith in
            subst Ended (sym e) (sent tx signed xdr p b took good)
      ]
    ]

    abbrev paid : Result WalletError String × Wallet
    paid = pay host is_valid_address config input w

    -- A payment from an open session has one of five ends, in this order of its steps: it is refused and
    -- nothing is done; it is built and the build fails; the transaction that was built for exactly the
    -- given token, recipient and amount is put to the passkey, which declines; its signature cannot be
    -- read; or it is submitted, with the result that the backend gives. Only a positive amount for a
    -- valid recipient other than the account itself is built, and only such a one is refused for none.
    pub pay-PayEnds : Ended paid
    unfolding pay require_session prepare_payment assert_payment ◌>>=◌
    pay-PayEnds = elim (Bool-cases (is_valid_address input.to)) [
      | inr bad ↦ refuse invalid_recipient (λ p. cc) (ground arith)
      | inl valid ↦ elim (Bool-cases (input.to == s.session.account_id)) [
        | inl same ↦ refuse same_recipient (λ p. cc) (ground arith)
        | inr other ↦ elim (Bool-cases (le_ℤ input.amount (pos 0))) [
          | inl none_paid ↦ refuse invalid_amount (λ p. cc) (ground arith)
          | inr positive ↦ elim (Option-cases (host.transfer w.log)) [
            | inl failed ↦
                let e : paid ≡ (err host_threw, built_wallet) = ground arith in
                subst Ended (sym e) (unbuilt (valid, other, positive) failed)
            | inr (tx, b) ↦
                let e : paid ≡ confirmed tx = ground arith in
                subst Ended (sym e) (confirm-PayEnds tx (valid, other, positive) b)
          ]
        ]
      ]
    ]
      where
        refuse :
            (x : WalletError)
            → (IsPayable s.session.account_id input → ⊥)
            → paid ≡ (err x, w)
            → Ended paid
        refuse x not_payable e = subst Ended (sym e) (refused x not_payable)
