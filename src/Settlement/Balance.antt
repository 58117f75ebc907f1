-- ===== src/Settlement/Balance.antt =====
-- The balance of a merchant (internal/service/merchant_balance.go).
use paysuper_billing_server.Base.{ℕ, Option, none, some, List, [], ◌∷◌, if◌then◌else◌, not}
use paysuper_billing_server.Base.Text.{String, is_set}
use paysuper_billing_server.Floats.{Floats}
use paysuper_billing_server.Handler.{
  next, Result, ok, err, Handler, ◌>>=◌, ◌>>◌, pure, return_with, ask, return_if, or_return,
  try_call,
}
use paysuper_billing_server.Response.{Status}
use paysuper_billing_server.Settlement.{
  Message, Error, no_documents, message, merchant_error_not_found, merchant_payout_currency_not_set,
  Payout, Merchant, MerchantBalance, ReserveEntry, Event, balance_inserted, Env,
}

-- An event and its outcome.
abbrev pub perform :
    {R : Type 0} (fl : Floats) (env : Env fl)
    → Event fl
    → Handler (Event fl) R (Result Error (Unit {0}))
perform fl env e h = (next (env.outcome (e ∷ h)), e ∷ h)

-- The answer of `GetMerchantBalance`.
pub record BalanceResponse (fl : Floats) : Type 0 where
  pub status : Status
  pub message_of : Option Message
  pub item : Option (MerchantBalance fl)

module _ (fl : Floats) (env : Env fl) where
  open fl use {F, zero_f, add_f, sub_f}

  -- Any error of the merchant repository reads as "merchant not found".
  abbrev pub merchant_or_not_found : String → Handler (Event fl) Error (Merchant fl)
  merchant_or_not_found merchant_id = do
    found ← ask (λ h. env.merchant_by_id h merchant_id)
    or_return found (λ _. message merchant_error_not_found)

  unfoldable pub get_merchant_balance : String → Handler (Event fl) Error (MerchantBalance fl)
  get_merchant_balance merchant_id = do
    merchant ← merchant_or_not_found merchant_id
    return_if (not (is_set merchant.payout_currency)) (message merchant_payout_currency_not_set)
    balance ← ask (λ h. env.balance_by_id_and_currency h merchant.id merchant.payout_currency)
    or_return balance (λ e. e)

  -- A release counts against the reserve.
  unfoldable pub sum_reserve : F → List (ReserveEntry fl) → F
  sum_reserve result [] = result
  sum_reserve result (i ∷ items) =
      sum_reserve (if i.is_release then sub_f result i.amount else add_f result i.amount) items

  abbrev pub last_or_none : Result Error (Option (Payout fl)) → Result Error (Option (Payout fl))
  last_or_none (ok p) = ok p
  last_or_none (err no_documents) = ok none
  last_or_none (err e) = err e

  -- The zero time, or when the last payout was made.
  abbrev pub reserve_since : Option (Payout fl) → Result Error ℕ
  reserve_since none = ok 0
  reserve_since (some pd) = env.timestamp pd.created_at

  unfoldable pub get_rolling_reserve_for_balance : String → String → Handler (Event fl) Error F
  unfolding sum_reserve
  get_rolling_reserve_for_balance merchant_id currency = do
    found ← ask (λ h. env.last_payout h merchant_id currency)
    pd ← or_return (last_or_none found) (λ e. e)
    created_at ← or_return (reserve_since pd) (λ e. e)
    entries ← ask (λ h. env.reserve_entries h merchant_id currency created_at)
    items ← or_return entries (λ e. e)
    pure (sum_reserve zero_f items)

  unfoldable pub update_merchant_balance : String → Handler (Event fl) Error (MerchantBalance fl)
  unfolding get_rolling_reserve_for_balance
  update_merchant_balance merchant_id = do
    merchant ← merchant_or_not_found merchant_id
    return_if (not (is_set merchant.payout_currency)) (message merchant_payout_currency_not_set)
    debits ← ask (λ h. env.debit_amount h merchant.id merchant.payout_currency)
    debit ← or_return debits (λ e. e)
    credits ← ask (λ h. env.credit_amount h merchant.id merchant.payout_currency)
    credit ← or_return credits (λ e. e)
    rr ← get_rolling_reserve_for_balance merchant_id merchant.payout_currency
    created_at ← ask env.now
    let balance : MerchantBalance fl = record {
      merchant_id = merchant_id;
      currency = merchant.payout_currency;
      debit = debit;
      credit = credit;
      rolling_reserve = rr;
      total = sub_f (sub_f debit credit) rr;
      created_at = created_at;
    }
    stored ← perform fl env (balance_inserted balance)
    inserted ← or_return stored (λ e. e)
    pure balance

  -- What `GetMerchantBalance` answers, with the Go error that it returns instead.
  abbrev pub balance_error : Error → Option Error × BalanceResponse fl
  balance_error (message m) =
      (none, record { status = Status.system_error; message_of = some m; item = none })
  balance_error e = (some e, record { status = Status.ok; message_of = none; item = none })

  abbrev balance_answer : MerchantBalance fl → Option Error × BalanceResponse fl
  balance_answer b = (none, record { status = Status.ok; message_of = none; item = some b })

  -- Without a stored balance one is made.
  abbrev refreshed :
      String
      → Result Error (MerchantBalance fl)
      → Handler (Event fl) (Option Error × BalanceResponse fl) (MerchantBalance fl)
  refreshed merchant_id (ok b) = pure b
  refreshed merchant_id (err no_documents) = do
    made ← try_call (update_merchant_balance merchant_id)
    or_return made balance_error
  refreshed merchant_id (err e) = return_with (balance_error e)

  unfoldable pub get_merchant_balance_request :
      String
      → Handler (Event fl) (Option Error × BalanceResponse fl) (Option Error × BalanceResponse fl)
  unfolding get_merchant_balance update_merchant_balance
  get_merchant_balance_request merchant_id = do
    stored ← try_call (get_merchant_balance merchant_id)
    balance ← refreshed merchant_id stored
    pure (balance_answer balance)
