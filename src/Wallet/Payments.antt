-- ===== src/Wallet/Payments.antt =====
-- src/payments-client.ts: `createPaymentClient`. The validation of addresses is a parameter.
use vellar_sdk.Prelude.{ℤ, pos, le_ℤ, Bool, not, String, Option, none, some, ok, ◌==◌, string_eq}
use vellar_sdk.Wallet.Host.{
  Signed, built, kit_sign, submitted, Host, invalid_recipient, same_recipient, invalid_amount,
  Async, ◌>>=◌, ◌>>◌, lift, require, ask,
}
use vellar_sdk.Wallet.Connector.{default_signed_to_xdr}

pub record PaymentInput : Type 0 where
  pub from : String
  pub to : String
  pub token : String
  pub amount : ℤ

-- What the user reviews, and the transaction that was built for it.
pub record PreparedPayment : Type 0 where
  pub review : PaymentInput
  pub tx : Signed

-- `(await kit.sign(tx)) ?? tx`.
abbrev pub signed_or : Signed → Option Signed → Signed
signed_or tx none = tx
signed_or tx (some signed) = signed

module _ (host : Host) (is_valid_address : String → Bool) where
  unfoldable pub assert_payment : PaymentInput → Async (Unit {0})
  assert_payment p = do
    require (is_valid_address p.to) invalid_recipient
    require (not (p.to == p.from)) same_recipient
    require (not (le_ℤ p.amount (pos 0))) invalid_amount

  unfoldable pub prepare_payment : PaymentInput → Async PreparedPayment
  prepare_payment p = do
    assert_payment p
    tx ← ask host.transfer (built p.token p.from p.to p.amount)
    lift (ok (record { review = p; tx = tx }))

  unfoldable pub confirm : PreparedPayment → Async String
  confirm prepared = do
    signed ← ask host.sign (kit_sign prepared.tx)
    xdr ← lift (default_signed_to_xdr (signed_or prepared.tx signed))
    ask host.submit_transaction (submitted xdr)
