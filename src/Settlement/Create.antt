-- ===== src/Settlement/Create.antt =====
-- Making a payout document (CreatePayoutDocument, createPayoutDocument and
-- AutoCreatePayoutDocuments in internal/service/payouts.go).
use Prim.Native.String.{compare as compare_text}
use Prim.Native.Nat.{Ordering, min, max}
use mathlib.Core.List.{foldl}
use paysuper_billing_server.Base.{
  ℕ, ◌+◌, Bool, true, false, Option, none, some, List, [], ◌∷◌, ◌++◌, if◌then◌else◌, not, ◌&&◌,
}
use paysuper_billing_server.Base.Text.{String, str_eq}
use paysuper_billing_server.Floats.{Floats}
use paysuper_billing_server.Handler.{
  Result, ok, err, Handler, ◌>>=◌, ◌>>◌, pure, return_with, ask, return_if, or_return, try_call,
}
use paysuper_billing_server.Response.{Status}
use paysuper_billing_server.Settlement.{
  Message, Error, message, payout_amount_invalid, payout_balance_error, payout_not_enough_balance,
  payout_manual_payouts_disabled, payout_auto_payouts_disabled, payout_tariff_not_found,
  payout_tariff_minimal, merchant_error_not_found, merchant_error_unknown, Report, Payout, Merchant,
  Event, payout_inserted, payout_rendered, Env,
}
use paysuper_billing_server.Settlement.Balance.{
  perform, get_merchant_balance, update_merchant_balance,
}
use paysuper_billing_server.Settlement.Sources.{
  get_payout_document_sources, royalty_report_set_payout_document_id,
}

abbrev pub payout_pending : String
payout_pending = "pending"

abbrev pub payout_skip : String
payout_skip = "skip"

pub record CreateRequest : Type 0 where
  pub merchant_id : String
  pub description : String
  pub is_auto_generation : Bool

pub record CreateResponse (fl : Floats) : Type 0 where
  pub status : Status
  pub message_of : Option Message
  pub items : List (Payout fl)

-- `a == b` on truth values
abbrev same : Bool → Bool → Bool
same true b = b
same false b = not b

-- The first and the last of the sorted times and texts.
abbrev pub text_min : String → String → String
text_min a b = elim (compare_text a b) [ Ordering.gt ↦ b | _ ↦ a ]

abbrev pub text_max : String → String → String
text_max a b = elim (compare_text a b) [ Ordering.lt ↦ b | _ ↦ a ]

module _ (fl : Floats) where
  open fl use {F, zero_f, hundred, add_f, sub_f, mul_f, div_f, less_f, le_f, eq_f, round_f}

  -- `math.Round(x*100) / 100`
  abbrev pub round_cents : F → F
  round_cents x = div_f (round_f (mul_f x hundred)) hundred

  -- The body of the loop over the reports, on the document's sums.
  unfoldable pub add_report : Payout fl → Report fl → Payout fl
  add_report pd r = record pd {
    total_fees = add_f pd.total_fees r.totals.payout_amount;
    fees_excluding_vat = add_f pd.fees_excluding_vat r.totals.final_payout_amount;
    balance = add_f pd.balance (sub_f r.totals.final_payout_amount r.totals.rolling_reserve_amount);
    total_transactions = pd.total_transactions + r.totals.transactions_count;
    b2b_vat_base = add_f pd.b2b_vat_base r.totals.b2b_vat_base;
    b2b_vat_rate = r.totals.b2b_vat_rate;
    b2b_vat_amount = add_f pd.b2b_vat_amount r.totals.b2b_vat_amount;
    source_id = pd.source_id ++ (r.id ∷ []);
  }

  unfoldable pub round_sums : Payout fl → Payout fl
  round_sums pd = record pd {
    total_fees = round_cents pd.total_fees;
    balance = round_cents pd.balance;
    b2b_vat_base = round_cents pd.b2b_vat_base;
    b2b_vat_rate = round_cents pd.b2b_vat_rate;
    b2b_vat_amount = round_cents pd.b2b_vat_amount;
    fees_excluding_vat = round_cents pd.fees_excluding_vat;
  }

  abbrev pub minimal_of : String → List (String × F) → Option F
  minimal_of currency [] = none
  minimal_of currency ((c, amount) ∷ rest) =
      if str_eq c currency then some amount else minimal_of currency rest

  abbrev pub tariff_minimal : Merchant fl → Option F
  tariff_minimal merchant = elim merchant.minimal_payout [
    | none ↦ none
    | some table ↦ minimal_of merchant.payout_currency table
  ]

  abbrev pub refuse : Status → Message → Option Error × CreateResponse fl
  refuse status m = (none, record { status = status; message_of = some m; items = [] })

  abbrev pub raise : Error → Option Error × CreateResponse fl
  raise e = (some e, record { status = Status.unset; message_of = none; items = [] })

  abbrev pub answer_ok : List (Payout fl) → Option Error × CreateResponse fl
  answer_ok items = (none, record { status = Status.ok; message_of = none; items = items })

  -- A message becomes the answer with this status; any other error is returned.
  abbrev pub refuse_or_raise : Status → Error → Option Error × CreateResponse fl
  refuse_or_raise status (message m) = refuse status m
  refuse_or_raise status e = raise e

  abbrev pub balance_message : Error → Message
  balance_message (message m) = m
  balance_message e = merchant_error_unknown

  abbrev or_refuse :
      {A : Type 0}
      → Option A
      → Status
      → Message
      → Handler (Event fl) (Option Error × CreateResponse fl) A
  or_refuse (some a) status m = pure a
  or_refuse none status m = return_with (refuse status m)

  module _ (env : Env fl) where
    abbrev Method : Type 0 → Type 0
    Method A = Handler (Event fl) (Option Error × CreateResponse fl) A

    -- The loop over the reports: the sums, and the times and texts to be sorted.
    unfoldable pub add_reports :
        Payout fl
        → List ℕ
        → List String
        → List (Report fl)
        → Result Error (Payout fl × List ℕ × List String)
    unfolding add_report
    add_reports pd times texts [] = ok (pd, times, texts)
    add_reports pd times texts (r ∷ rs) =
        let rest = λ (from to : ℕ).
          add_reports (add_report pd r) (times ++ (from ∷ to ∷ []))
            (texts ++ (r.string_period_from ∷ r.string_period_to ∷ [])) rs in
        elim (env.timestamp r.period_from) [
          | err e ↦ err e
          | ok from ↦ elim (env.timestamp r.period_to) [ err e ↦ err e | ok to ↦ rest from to ]
        ]

    abbrev pub first_currency : List (Report fl) → String
    first_currency [] = ""
    first_currency (r ∷ rs) = r.currency

    abbrev new_payout : String → ℕ → ℕ → ℕ → Merchant fl → CreateRequest → Payout fl
    new_payout id now arrival number merchant req = record {
      id = id;
      status = payout_pending;
      source_id = [];
      description = req.description;
      created_at = now;
      updated_at = now;
      arrival_date = arrival;
      merchant_id = merchant.id;
      destination = merchant.banking;
      company = merchant.company;
      merchant_agreement_number = merchant.agreement_number;
      operating_company_id = merchant.operating_company_id;
      autoincrement_id = number;
      currency = "";
      total_fees = zero_f;
      fees_excluding_vat = zero_f;
      balance = zero_f;
      total_transactions = 0;
      b2b_vat_base = zero_f;
      b2b_vat_rate = zero_f;
      b2b_vat_amount = zero_f;
      period_from = 0;
      period_to = 0;
      string_period_from = "";
      string_period_to = "";
      paid_at = none;
      transaction = "";
      failure_code = "";
      failure_message = "";
      failure_transaction = "";
    }

    -- The document with its sums, before any check of its amount.
    unfoldable pub build_payout :
        Merchant fl → CreateRequest → Method (Payout fl × List ℕ × List String)
    unfolding add_reports round_sums get_payout_document_sources
    build_payout merchant req = do
      arrival ← ask env.arrival_date
      arrival_date ← or_return (env.timestamp_proto arrival) raise
      numbers ← ask env.payout_autoincrement_id
      number ← or_return numbers raise
      id ← ask env.new_id
      now ← ask env.now
      sources ← try_call (get_payout_document_sources fl env merchant)
      reports ← or_return sources (refuse_or_raise Status.bad_data)
      let pd = record (new_payout id now arrival_date number merchant req) {
        currency = first_currency reports;
      }
      (summed, times, texts) ← or_return (add_reports pd [] [] reports) raise
      pure (round_sums summed, times, texts)

    -- The checks of the amount: the minimum of the tariff, a positive sum and the merchant's balance.
    unfoldable pub check_amount : Merchant fl → CreateRequest → Payout fl → Method (Unit {0})
    unfolding get_merchant_balance
    check_amount merchant req pd = do
      minimal ← or_refuse (tariff_minimal merchant) Status.bad_data payout_tariff_not_found
      return_if (less_f pd.balance minimal && req.is_auto_generation) (answer_ok [])
      return_if (less_f pd.balance minimal) (refuse Status.bad_data payout_tariff_minimal)
      return_if (le_f pd.balance zero_f) (refuse Status.bad_data payout_amount_invalid)
      found ← try_call (get_merchant_balance fl env merchant.id)
      balance ← or_return found (λ _. refuse Status.system_error payout_balance_error)
      let balance_net = env.to_precise (sub_f balance.debit balance.credit)
      return_if (less_f balance_net pd.balance) (refuse Status.bad_data payout_not_enough_balance)

    abbrev first_sorted : List ℕ → ℕ
    first_sorted [] = 0
    first_sorted (t ∷ ts) = foldl min t ts

    abbrev last_sorted : List ℕ → ℕ
    last_sorted [] = 0
    last_sorted (t ∷ ts) = foldl max t ts

    abbrev first_sorted_text : List String → String
    first_sorted_text [] = ""
    first_sorted_text (t ∷ ts) = foldl text_min t ts

    abbrev last_sorted_text : List String → String
    last_sorted_text [] = ""
    last_sorted_text (t ∷ ts) = foldl text_max t ts

    -- The status and the period of the document.
    unfoldable pub finish_payout :
        Merchant fl → Payout fl → List ℕ → List String → Method (Payout fl)
    finish_payout merchant built times texts = do
      let status =
          if less_f built.balance merchant.min_payout_amount then payout_skip else built.status
      period_from ← or_return (env.timestamp_proto (first_sorted times)) raise
      period_to ← or_return (env.timestamp_proto (last_sorted times)) raise
      pure (record built {
        status = status;
        period_from = period_from;
        period_to = period_to;
        string_period_from = first_sorted_text texts;
        string_period_to = last_sorted_text texts;
      })

    -- The document and what goes with it is written.
    unfoldable pub store_payout :
        Merchant fl → Payout fl → Method (Option Error × CreateResponse fl)
    unfolding royalty_report_set_payout_document_id update_merchant_balance
    store_payout merchant pd = do
      stored ← perform fl env (payout_inserted pd)
      inserted ← or_return stored (refuse_or_raise Status.system_error)
      marked ← try_call (royalty_report_set_payout_document_id fl env pd.source_id pd.id)
      taken ← or_return marked (refuse_or_raise Status.system_error)
      balanced ← try_call (update_merchant_balance fl env merchant.id)
      balance ← or_return balanced (λ e. refuse Status.system_error (balance_message e))
      rendered ← perform fl env (payout_rendered pd)
      files ← or_return rendered raise
      pure (answer_ok (pd ∷ []))

    unfoldable pub create_payout_document :
        Merchant fl → CreateRequest → Method (Option Error × CreateResponse fl)
    unfolding build_payout check_amount finish_payout store_payout
    create_payout_document merchant req = do
      (built, times, texts) ← build_payout merchant req
      check_amount merchant req built
      pd ← finish_payout merchant built times texts
      store_payout merchant pd

    -- The request of a merchant.
    unfoldable pub create_payout_document_request :
        CreateRequest → Method (Option Error × CreateResponse fl)
    create_payout_document_request req = do
      found ← ask (λ h. env.merchant_by_id h req.merchant_id)
      merchant ← or_return found (λ _. raise (message merchant_error_not_found))
      return_if (same merchant.manual_payouts_enabled req.is_auto_generation) (
          refuse Status.bad_data (
            if req.is_auto_generation
            then payout_auto_payouts_disabled
            else payout_manual_payouts_disabled))
      create_payout_document merchant req
