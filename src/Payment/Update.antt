-- ===== src/Payment/Update.antt =====
-- Writing an order (updateOrder and orderNotifyMerchant in internal/service/order.go, onPaymentNotify
-- in internal/service/accounting_entry.go).
use paysuper_billing_server.Base.{Bool, true, false, ◌∷◌, if◌then◌else◌, not, ◌&&◌}
use paysuper_billing_server.Base.Text.{String, str_eq}
use paysuper_billing_server.Floats.{Floats}
use paysuper_billing_server.Handler.{
  next, Result, ok, err, Handler, ◌>>=◌, ◌>>◌, pure, ask, when, or_return,
}
use paysuper_billing_server.Payment.{
  PublicStatus, created, pending, processed, canceled, rejected, refunded, chargeback,
  order_error_not_found, order_error_unknown, Error, no_documents, message, Order, Event,
  order_updated, key_products_notified, merchant_notified, Env,
}

-- `pkg.OrderTypeRefund`, `pkg.OrderTypeOrder` and `pkg.OrderType_key`
abbrev pub order_type_refund : String
order_type_refund = "refund"

abbrev pub order_type_order : String
order_type_order = "order"

abbrev pub order_type_key : String
order_type_key = "key"

abbrev pub same_public : PublicStatus → PublicStatus → Bool
same_public created created = true
same_public pending pending = true
same_public processed processed = true
same_public canceled canceled = true
same_public rejected rejected = true
same_public refunded refunded = true
same_public chargeback chargeback = true
same_public a b = false

-- The statuses with a receipt, which are those of `processableOrderStatus` too.
abbrev pub is_processable : PublicStatus → Bool
is_processable processed = true
is_processable refunded = true
is_processable chargeback = true
is_processable s = false

-- An event and its outcome.
abbrev pub perform :
    {R : Type 0} (fl : Floats) (env : Env fl)
    → Event fl
    → Handler (Event fl) R (Result Error (Unit {0}))
perform fl env e h = (next (env.outcome (e ∷ h)), e ∷ h)

-- An event whose failure is only logged.
abbrev pub attempt : {R : Type 0} {E : Type 0} → E → Handler E R (Unit {0})
attempt e h = (next tt, e ∷ h)

module _ (fl : Floats) (env : Env fl) where
  abbrev is_status_changed : Result Error (Order fl) → PublicStatus → Bool
  is_status_changed (ok original) status = not (same_public (env.public_status original) status)
  is_status_changed (err e) status = false

  abbrev with_receipt : Bool → Order fl → Order fl
  with_receipt false order = order
  with_receipt true order = record order {
    receipt_url =
        if str_eq order.type_of order_type_refund
        then env.receipt_refund_url order.uuid order.receipt_id
        else if str_eq order.type_of order_type_order
        then env.receipt_purchase_url order.uuid order.receipt_id
        else order.receipt_url;
  }

  abbrev update_error : Error → Error
  update_error no_documents = message order_error_not_found
  update_error e = message order_error_unknown

  -- The order as it is written: with its public status, and a receipt if that status is new.
  unfoldable pub with_public_status : Result Error (Order fl) → Order fl → Order fl
  with_public_status original order =
      let order' = record order { status = env.public_status order } in
      with_receipt (is_status_changed original order'.status && is_processable order'.status) order'

  -- The answer is the order as it is then.
  unfoldable pub update_order : Order fl → Handler (Event fl) Error (Order fl)
  unfolding with_public_status
  update_order order0 = do
    original ← ask (λ h. env.order_by_id h order0.id)
    let order = with_public_status original order0
    stored ← perform fl env (order_updated order)
    updated ← or_return stored update_error
    when (str_eq order.product_type order_type_key) (attempt (key_products_notified order))
    when
        (is_status_changed original (env.public_status order0)
          && env.need_callback_notification order)
        (attempt (merchant_notified order) >> attempt (order_updated order))
    pure order
