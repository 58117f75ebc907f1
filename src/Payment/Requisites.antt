-- ===== src/Payment/Requisites.antt =====
-- What a callback tells about the account of the payer (fillPaymentDataCard, fillPaymentDataEwallet
-- and fillPaymentDataCrypto in internal/service/order.go).
use paysuper_billing_server.Base.{
  ℕ, zero, suc, ◌-◌, Option, none, some, List, [], ◌∷◌, if◌then◌else◌, leb, length, take,
}
use paysuper_billing_server.Base.Text.{String, str_eq, is_set}
use paysuper_billing_server.Floats.{Floats}
use paysuper_billing_server.Payment.{get_text, Card, Account, Order, Env}
use paysuper_billing_server.Payment.Cardpay.{bank_card, is_ewallet, bitcoin}

abbrev skip : ℕ → List ℕ → List ℕ
skip zero xs = xs
skip (suc n) [] = []
skip (suc n) (x ∷ xs) = skip n xs

-- The keys of the requisites (`billingpb.PaymentCreateField…` and `TxnParamsFieldBankCardIs3DS`).
abbrev pub pan_key : String
pan_key = "pan"

abbrev pub ewallet_key : String
ewallet_key = "ewallet"

abbrev pub crypto_key : String
crypto_key = "crypto"

abbrev pub is_3ds_key : String
is_3ds_key = "is_3ds"

module _ (fl : Floats) (env : Env fl) where
  -- The number that the callback gives, or else the one of the form.
  abbrev pan_of : Order fl → String
  pan_of order =
      if is_set (get_text pan_key order.txn_params)
      then get_text pan_key order.txn_params
      else get_text "pan" order.requisites

  abbrev card_of : Order fl → Card
  card_of order =
      let pan = env.bytes (pan_of order) in
      record {
        masked = pan;
        first6 = if leb 6 (length pan) then take 6 pan else [];
        last4 = if leb 6 (length pan) then skip (length pan - 4) pan else [];
        expiry_month = get_text "month" order.requisites;
        expiry_year = get_text "year" order.requisites;
        brand = get_text "card_brand" order.requisites;
        secure3d = str_eq (get_text is_3ds_key order.txn_params) "1";
        fingerprint = "";
      }

  abbrev fingerprint_of : String → String
  fingerprint_of b = elim (env.bcrypt b) [ none ↦ "" | some fp ↦ fp ]

  -- `none` is the error of `json.Marshal`.
  abbrev fill_payment_data_card : Order fl → Option (Order fl)
  fill_payment_data_card order = elim (env.marshal_card (card_of order)) [
    | none ↦ none
    | some b ↦ some (record order {
      payer_account = pan_of order;
      card = some (record (card_of order) { fingerprint = fingerprint_of b });
    })
  ]

  abbrev account_of : Order fl → String → Account
  account_of order account = record { brand = order.method_name; account = account }

  -- A method of no known group leaves the order as it is.
  unfoldable pub fill_payment_data : Order fl → Option (Order fl)
  fill_payment_data order =
      if str_eq order.external_id bank_card
      then fill_payment_data_card order
      else if is_ewallet order.external_id
      then some (record order {
        payer_account = get_text ewallet_key order.txn_params;
        wallet = some (account_of order (get_text ewallet_key order.txn_params));
      })
      else if str_eq order.external_id bitcoin
      then some (record order {
        payer_account = get_text crypto_key order.txn_params;
        crypto = some (account_of order (get_text crypto_key order.txn_params));
      })
      else some order
