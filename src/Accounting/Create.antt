-- ===== src/Accounting/Create.antt =====
-- Entries by request, and made again for an order (CreateAccountingEntry and
-- RebuildAccountingEntries in internal/service/accounting_entry.go).
use paysuper_billing_server.Base.{Bool, none, some, List, [], ◌∷◌, if◌then◌else◌, not, ◌&&◌}
use paysuper_billing_server.Base.Text.{String, str_eq}
use paysuper_billing_server.Floats.{Floats}
use paysuper_billing_server.Handler.{
  Handler, Result, ok, err, ◌>>=◌, ◌>>◌, pure, return_with, ask, return_if, when, or_return,
  try_call,
}
use paysuper_billing_server.Accounting.{
  is_available, is_rolling_reserve, Message, order_not_found, refund_not_found, merchant_not_found,
  country_not_found, unknown_entry, unknown_error, balance_update_failed, Error, panic, other_error,
  Entry, Order, Event, entries_deleted, balance_updated, Env,
}
use paysuper_billing_server.Accounting.Build.{Basis, some_or_panic}
use paysuper_billing_server.Accounting.Save.{do_to}
use paysuper_billing_server.Accounting.Service.{
  CreateRequest, manual_correction, process_event, on_payment_notify, on_refund_notify,
}

-- The status of an answer.
pub data Status : Type 0 where
  status_ok bad_data not_found system_error : Status

module _ (fl : Floats) where
  open fl use {F}

  -- What the creation answers: an entry, or a status and a message.
  pub data Response : Type 0 where
    created : Entry fl → Response
    refused : Status → Message → Response

module _ (fl : Floats) (env : Env fl) where
  open fl use {F}

  -- The entry that is answered is the first: an event with no entry panics.
  abbrev pub first_entry : List (Entry fl) → Result Error (Response fl)
  first_entry [] = err panic
  first_entry (e ∷ es) = ok (created e)

  -- An answer of the service, or a Go error.
  abbrev pub Answer : Type 0
  Answer = Result Error (Response fl)

  abbrev refuse : Status → Message → Answer
  refuse status m = ok (refused status m)

  abbrev empty_basis : Basis fl
  empty_basis = record {
    order = none;
    refund = none;
    refund_order = none;
    merchant = none;
    country = none;
    datetime = none;
  }

  -- Whether an identifier is given and well formed.
  abbrev is_given : String → Bool
  is_given id = not (str_eq id "") && env.is_object_id id

  -- The documents that are found so far, and the code of the country.
  unfoldable pub with_order : CreateRequest F → Handler (Event fl) Answer (Basis fl × String)
  with_order req = if not (is_given req.order_id) then pure (empty_basis, "") else do
    found ← ask (λ h. env.order_by_id h req.order_id)
    order ← or_return found (λ _. refuse not_found order_not_found)
    pure (record empty_basis { order = some order; datetime = order.closed_at }, order.country)

  unfoldable pub with_refund :
      CreateRequest F → Basis fl × String → Handler (Event fl) Answer (Basis fl × String)
  with_refund req (basis, code) = if not (is_given req.refund_id) then pure (basis, code) else do
    found ← ask (λ h. env.refund_by_id h req.refund_id)
    refund ← or_return found (λ _. refuse not_found refund_not_found)
    found ← ask (λ h. env.order_by_id h refund.original_order_id)
    order ← or_return found (λ _. refuse not_found order_not_found)
    found ← ask (λ h. env.order_by_id h refund.created_order_id)
    refund_order ← or_return found err
    pure (
      record basis {
        order = some order;
        refund = some refund;
        refund_order = some refund_order;
        datetime = refund_order.closed_at;
      },
      order.country,
    )

  -- It panics for a merchant with no company.
  unfoldable pub with_merchant :
      CreateRequest F → Basis fl × String → Handler (Event fl) Answer (Basis fl × String)
  with_merchant req (basis, code) = if str_eq req.merchant_id "" then pure (basis, code) else do
    found ← ask (λ h. env.merchant_by_id h req.merchant_id)
    merchant ← or_return found (λ _. refuse not_found merchant_not_found)
    country ← or_return (some_or_panic merchant.company_country) err
    pure (record basis { merchant = some merchant }, country)

  -- The country of the request is the last choice.
  abbrev pub country_code : String → String → String
  country_code code given = if str_eq code "" then given else code

  -- What the entry is created from.
  unfoldable pub find_basis : CreateRequest F → Handler (Event fl) Answer (Basis fl)
  unfolding with_order with_refund with_merchant
  find_basis req = do
    found ← with_order req
    found ← with_refund req found
    (basis, code) ← with_merchant req found
    found ← ask (λ h. env.country_by_code h (country_code code req.country))
    country ← or_return found (λ _. refuse system_error country_not_found)
    pure (record basis { country = some country })

  -- The balance of the merchant is updated for a rolling reserve. It panics with no merchant.
  unfoldable pub update_reserve : CreateRequest F → Basis fl → Handler (Event fl) Answer (Unit {0})
  update_reserve req basis = when (is_rolling_reserve req.type_of) (do
    merchant ← or_return (some_or_panic basis.merchant) err
    do_to (λ _. refuse system_error balance_update_failed) (balance_updated merchant.id) env)

  -- What an event that fails is answered with: a panic is not caught.
  abbrev pub failed_event : Error → Answer
  failed_event panic = err panic
  failed_event e = refuse system_error unknown_error

  unfoldable pub create_from : CreateRequest F → Basis fl → Handler (Event fl) Answer Answer
  unfolding process_event update_reserve
  create_from req basis = do
    built ← try_call (process_event fl env (manual_correction req) basis)
    entries ← or_return built failed_event
    update_reserve req basis
    pure (first_entry entries)

  unfoldable pub create_accounting_entry : CreateRequest F → Handler (Event fl) Answer Answer
  unfolding find_basis create_from
  create_accounting_entry req = do
    return_if (not (is_available req.type_of)) (refuse bad_data unknown_entry)
    basis ← find_basis req
    create_from req basis

  -- What a notification answers is an error or nothing.
  abbrev notified : Result Error (List (Entry fl)) → Handler (Event fl) Error (Unit {0})
  notified built = or_return built (λ e. e) >>= λ _. pure tt

  -- The error of the notification of a refund is assigned to a variable of the case, and the one
  -- outside, which is looked at, has none: only a panic is not lost.
  abbrev pub refund_notified : Result Error (List (Entry fl)) → Handler (Event fl) Error (Unit {0})
  refund_notified (err panic) = return_with panic
  refund_notified other = pure tt

  unfoldable pub notify_payment : Order fl → Handler (Event fl) Error (Unit {0})
  unfolding on_payment_notify
  notify_payment order = do built ← try_call (on_payment_notify fl env order); notified built

  unfoldable pub notify_refund : Order fl → Handler (Event fl) Error (Unit {0})
  unfolding on_refund_notify
  notify_refund order = do
    number ← or_return (some_or_panic order.receipt_number) (λ e. e)
    found ← ask (λ h. env.refund_by_id h number)
    refund ← or_return found (λ e. e)
    built ← try_call (on_refund_notify fl env refund order)
    refund_notified built

  unfoldable pub notify_again : Order fl → Handler (Event fl) Error (Unit {0})
  unfolding notify_payment notify_refund
  notify_again order =
      if str_eq order.type_of "order"
      then notify_payment order
      else if str_eq order.type_of "refund"
      then notify_refund order
      else return_with other_error

  unfoldable pub rebuild_accounting_entries : String → Bool → Handler (Event fl) Error (Unit {0})
  unfolding notify_again
  rebuild_accounting_entries order_id force = do
    return_if (str_eq order_id "") other_error
    found ← ask (λ h. env.order_by_id h order_id)
    order ← or_return found (λ e. e)
    when force (do_to (λ e. e) (entries_deleted order_id order.type_of) env)
    notify_again order
