-- ===== src/Payment/Forged.antt =====
-- What a payment callback with a wrong signature does (PaymentCallbackProcess in
-- internal/service/order.go).
use paysuper_billing_server.Base.{
  ℕ, ◌≡◌, sym, ap, subst, ◌∙◌, true, false, Option, none, some, List, [], ◌∷◌, arith,
}
use paysuper_billing_server.Base.Text.{String, str_eq}
use paysuper_billing_server.Floats.{Floats}
use paysuper_billing_server.Handler.{next, Result, ok}
use paysuper_billing_server.Payment.{
  payment_system_reject, Message, Error, Order, PaymentCallback, Merchant, Event, order_inserted,
  order_updated, Env, Gateway, status_error_validation, request_signature_is_invalid,
}
use paysuper_billing_server.Payment.Cardpay.{
  is_signed, check_payment, process_payment, is_subscription_callback,
}
use paysuper_billing_server.Payment.Sending.{cardpay}
use paysuper_billing_server.Payment.Requisites.{fill_payment_data}
use paysuper_billing_server.Payment.Update.{update_order, with_public_status}
use paysuper_billing_server.Payment.Callback.{
  is_in_progress, handler_cardpay, NotifyRequest, Received, receive, note_first_payment,
  take_subscription, store_payment, payment_callback_process,
}
use paysuper_billing_server.Payment.Stored.{
  payment_callback_process-next, with_public_status-private, fill_payment_data-private,
}

module _ {fl : Floats} where
  -- The newest order that a history has written.
  unfoldable pub last_written : List (Event fl) → Option (Order fl)
  last_written [] = none
  last_written (order_updated o ∷ h) = some o
  last_written (order_inserted o ∷ h) = some o
  last_written (_ ∷ h) = last_written h

module _ (fl : Floats) (env : Env fl) (mocks : String → Gateway fl) where
  update_order-last :
      (order : Order fl) (h : List (Event fl))
      → last_written (update_order fl env order h).1
        ≡ some (with_public_status fl env (env.order_by_id h order.id) order)
  unfolding update_order last_written
  update_order-last order h = ground (arith)

  with_public_status-id :
      (original : Result Error (Order fl)) (order : Order fl)
      → (with_public_status fl env original order).id ≡ order.id
  unfolding with_public_status
  with_public_status-id original order = ground (arith)

  fill_payment_data-rest :
      (order : Order fl) {o : Order fl}
      → fill_payment_data fl env order ≡ some o
      → (o.id ≡ order.id)
        × (o.merchant_id ≡ order.merchant_id)
        × (o.is_production ≡ order.is_production)
  unfolding fill_payment_data
  fill_payment_data-rest order e = ground (arith)

  process_payment-forged :
      (now : ℕ) (order : Order fl) (req : PaymentCallback fl) (raw signature : String)
      → str_eq (env.codec.sha512_hex raw order.secret_callback) signature ≡ false
      → process_payment fl env.codec now order req raw signature ≡ (
        record order { private_status = payment_system_reject },
        some (status_error_validation, request_signature_is_invalid),
      )
  unfolding process_payment check_payment is_signed
  process_payment-forged now order req raw signature e = ground (arith)

  store_payment-last :
      (r : Received fl env mocks) (judged filled : Order fl) (m : Message) (h : List (Event fl))
      {merchant : Merchant fl}
      → fill_payment_data fl env judged ≡ some filled
      → env.merchant_by_id h filled.merchant_id ≡ ok merchant
      → filled.is_production ≡ false
      → r.gateway.is_subscription_callback r.callback ≡ false
      → last_written (store_payment fl env mocks r judged (some (status_error_validation, m)) h).1
        ≡ some (with_public_status fl env (env.order_by_id h filled.id) filled)
  unfolding store_payment note_first_payment take_subscription
  store_payment-last r judged filled m h f g p s = ground (arith, update_order-last filled h)

  receive-ok :
      (req : NotifyRequest) (h : List (Event fl)) {order : Order fl} {callback : PaymentCallback fl}
      → env.order_by_id h req.order_id ≡ ok order
      → is_in_progress order.private_status ≡ true
      → env.payment_system_by_id h order.payment_system_id ≡ ok handler_cardpay
      → env.payment_callback_of req.request ≡ some callback
      → (receive fl env mocks req h).0
        ≡ next (record { order = order; gateway = cardpay fl env; callback = callback })
  unfolding receive
  receive-ok req h o i p c = ground (arith)

  -- A callback with a wrong signature for an order in progress that is paid by CardPay, is not of
  -- production, and is no payment of a subscription, writes the order last as rejected, if its
  -- payment data can be filled and its merchant is found.
  pub payment_callback_process-forged :
      (req : NotifyRequest) (h : List (Event fl)) {order filled : Order fl}
      {callback : PaymentCallback fl} {merchant : Merchant fl}
      → env.order_by_id h req.order_id ≡ ok order
      → is_in_progress order.private_status ≡ true
      → env.payment_system_by_id h order.payment_system_id ≡ ok handler_cardpay
      → env.payment_callback_of req.request ≡ some callback
      → str_eq (env.codec.sha512_hex req.request order.secret_callback) req.signature ≡ false
      → fill_payment_data fl env (record order { private_status = payment_system_reject })
        ≡ some filled
      → env.merchant_by_id h order.merchant_id ≡ ok merchant
      → order.is_production ≡ false
      → is_subscription_callback fl env.codec callback ≡ false
      → (o : Order fl) × (last_written (payment_callback_process fl env mocks req h).1 ≡ some o)
        × (o.id ≡ order.id)
        × (o.private_status ≡ payment_system_reject)
  payment_callback_process-forged req h {order} {filled} {callback} {merchant} o i p c s f m n b =
      let rejected = record order { private_status = payment_system_reject } in
      let received : Received fl env mocks = record {
        order = order;
        gateway = cardpay fl env;
        callback = callback;
      } in
      let (id, merchant_id, production) = fill_payment_data-rest rejected f in
      let m' = subst (λ x. env.merchant_by_id h x ≡ ok merchant) (sym merchant_id) m in
      let written = with_public_status fl env (env.order_by_id h filled.id) filled in
      let judged = process_payment-forged (env.now h) order callback req.request req.signature s in
      (
        written,
        ap (λ x. last_written x.1)
              (payment_callback_process-next fl env mocks req h (receive-ok req h o i p c))
            ∙ (ap (λ x. last_written (store_payment fl env mocks received x.0 x.1 h).1) judged
                ∙ store_payment-last received rejected filled request_signature_is_invalid h f m'
                    (production ∙ n) b),
        with_public_status-id (env.order_by_id h filled.id) filled ∙ id,
        with_public_status-private fl env mocks (env.order_by_id h filled.id) filled
            ∙ fill_payment_data-private fl env mocks rejected f,
      )
