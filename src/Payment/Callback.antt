-- ===== src/Payment/Callback.antt =====
-- The callback of a payment system about a payment (PaymentCallbackProcess and saveRecurringCard in
-- internal/service/order.go, onPaymentNotify in internal/service/accounting_entry.go, GetGateway in
-- internal/service/payment_system.go).
use paysuper_billing_server.Base.{
  ℕ, zero, suc, Bool, true, false, Option, none, some, [], ◌∷◌, if◌then◌else◌, not, ◌||◌,
}
use paysuper_billing_server.Base.Text.{String, str_eq}
use paysuper_billing_server.Floats.{Floats}
use paysuper_billing_server.Handler.{
  next, done, Result, ok, err, Handler, ◌>>=◌, ◌>>◌, pure, ask, return_if, when, or_return,
  try_call,
}
use paysuper_billing_server.Payment.{
  Texts, PrivateStatus, new_order, project_in_progress, payment_system_complete, Message,
  handler_not_found, order_error_not_found, order_error_already_processed,
  order_error_payment_system_inactive, order_error_payment_method_not_found,
  payment_request_incorrect, subscription_update_failed, merchant_error_not_found, Error, panic,
  message, other_error, NotifyStatus, status_ok, status_error_system, status_temporary,
  NotifyResponse, Order, PaymentCallback, Subscription, Merchant, Event, order_inserted,
  merchant_updated, subscription_updated, subscription_deleted, form_notified, payment_accounted,
  receipt_mailed, card_saved, Env, Gateway,
}
use paysuper_billing_server.Payment.Sending.{cardpay}
use paysuper_billing_server.Payment.Requisites.{fill_payment_data}
use paysuper_billing_server.Payment.Update.{perform, attempt, update_order, is_processable}

abbrev pub handler_cardpay : String
handler_cardpay = "cardpay"

abbrev pub handler_cardpay_mock : String
handler_cardpay_mock = "cardpay_mock"

abbrev pub is_in_progress : PrivateStatus → Bool
is_in_progress project_in_progress = true
is_in_progress s = false

abbrev pub is_complete : PrivateStatus → Bool
is_complete payment_system_complete = true
is_complete s = false

pub record NotifyRequest : Type 0 where
  pub order_id : String
  pub request : String
  pub signature : String

abbrev pub set_text : String → String → Texts → Texts
set_text k v [] = (k, v) ∷ []
set_text k v ((j, w) ∷ m) = if str_eq j k then (k, v) ∷ m else (j, w) ∷ set_text k v m

-- What the service answers: a Go error, and the response.
abbrev pub Answer : Type 0
Answer = Option Error × NotifyResponse

abbrev pub no_response : NotifyResponse
no_response = record { status = status_ok; error = none }

abbrev pub system_error : Error → Answer
system_error e = (none, record { status = status_error_system; error = some e })

-- The response with the error of the gateway in it.
abbrev pub response_of : Option (NotifyStatus × Message) → NotifyResponse
response_of none = no_response
response_of (some (s, m)) = record { status = s; error = some (message m) }

abbrev pub is_temporary : Option (NotifyStatus × Message) → Bool
is_temporary (some (status_temporary, m)) = true
is_temporary e = false

-- An error that is a message goes into the response, any other is returned with it.
abbrev pub system_error_or_raise : NotifyResponse → Error → Answer
system_error_or_raise rsp (message m) = system_error (message m)
system_error_or_raise rsp e = (some e, rsp)

module _ {E : Type 0} where
  abbrev pub some_or_return : {R A : Type 0} → Option A → R → Handler E R A
  some_or_return (some a) r h = (next a, h)
  some_or_return none r h = (done r, h)

module _ (fl : Floats) (env : Env fl) (mocks : String → Gateway fl) where
  open fl use {add_f}

  -- The registry of gateways; those for tests are a parameter.
  abbrev pub get_gateway : String → Option (Gateway fl)
  get_gateway name =
      if str_eq name handler_cardpay
      then some (cardpay fl env)
      else if str_eq name handler_cardpay_mock
          || (str_eq name "mock_ok" || str_eq name "mock_error")
      then some (mocks name)
      else none

  abbrev Method : Type 0 → Type 0
  Method A = Handler (Event fl) Answer A

  abbrev raise : Message → Answer
  raise m = (some (message m), no_response)

  -- The order, the gateway and the callback of a request.
  pub record Received : Type 0 where
    pub order : Order fl
    pub gateway : Gateway fl
    pub callback : PaymentCallback fl

  unfoldable pub receive : NotifyRequest → Method Received
  receive req = do
    found ← ask (λ h. env.order_by_id h req.order_id)
    order ← or_return found (λ _. raise order_error_not_found)
    return_if (not (is_in_progress order.private_status)) (raise order_error_already_processed)
    system ← ask (λ h. env.payment_system_by_id h order.payment_system_id)
    handler ← or_return system (λ _. raise order_error_payment_system_inactive)
    return_if (not (str_eq handler handler_cardpay || str_eq handler handler_cardpay_mock))
        (raise order_error_payment_method_not_found)
    callback ←
        some_or_return (env.payment_callback_of req.request) (raise payment_request_incorrect)
    gateway ← some_or_return (get_gateway handler) (raise handler_not_found)
    pure (record { order = order; gateway = gateway; callback = callback })

  -- The zero time counts as no time.
  abbrev is_first : Option ℕ → Bool
  is_first none = true
  is_first (some zero) = true
  is_first (some (suc n)) = false

  -- The first payment of a merchant and of a project, for an order that is no test.
  abbrev first_payment : NotifyResponse → Bool → Bool → Merchant fl → Order fl → Method (Order fl)
  first_payment rsp false b merchant order = pure order
  first_payment rsp true true merchant order = do
    stored ←
        perform fl env (merchant_updated (record merchant { first_payment_at = order.closed_at }))
    updated ← or_return stored (λ e. (some e, rsp))
    pure (record order { project_first_payment_at = order.closed_at })
  first_payment rsp true false merchant order = elim order.project_first_payment_at [
    | none ↦ pure (record order { project_first_payment_at = merchant.first_payment_at })
    | some t ↦ pure order
  ]

  unfoldable pub note_first_payment : NotifyResponse → Order fl → Method (Order fl)
  note_first_payment rsp order = do
    found ← ask (λ h. env.merchant_by_id h order.merchant_id)
    merchant ← or_return found (λ e. (some e, rsp))
    first_payment rsp order.is_production (is_first merchant.first_payment_at) merchant order

  -- A later payment of a subscription makes a copy of the order, which has another status until the
  -- copy is written again.
  abbrev repeated : String → String → String → ℕ → Order fl → Order fl
  repeated id uuid receipt_id now order = record order {
    id = id;
    uuid = uuid;
    receipt_id = receipt_id;
    created_at = now;
    updated_at = now;
    is_canceled = false;
    canceled_at = none;
    receipt_url = "";
    royalty_report_id = "";
    private_status = new_order;
    parent_order = some (order.id, order.uuid);
  }

  abbrev repeat_payment : NotifyResponse → Option ℕ → Order fl → Method (Order fl)
  repeat_payment rsp none order = pure order
  repeat_payment rsp (some t) order = do
    return_if (not (env.can_copy order)) (some other_error, rsp)
    id ← ask env.new_id
    uuid ← ask env.new_uuid
    receipt_id ← ask env.new_receipt_id
    now ← ask env.now
    let copy = repeated id uuid receipt_id now order
    stored ← perform fl env (order_inserted copy)
    inserted ← or_return stored (λ e. (some e, rsp))
    pure (record copy { private_status = order.private_status })

  unfoldable pub take_subscription :
      NotifyResponse → Bool → Order fl → Method (Order fl × Option (Subscription fl))
  take_subscription rsp false order = pure (order, none)
  take_subscription rsp true order = do
    found ← ask (λ h. env.subscription_by_id h order.recurring_id)
    subscription ← or_return found (λ e. (some e, rsp))
    order' ← repeat_payment rsp subscription.last_payment_at order
    pure (order', some subscription)

  -- A payment that is not complete ends the subscription, a complete one is counted.
  unfoldable pub settle_subscription :
      Bool → Option (Subscription fl) → Order fl → Method (Unit {0})
  settle_subscription b none order = pure tt
  settle_subscription false (some subscription) order = do
    deleted ← perform fl env (subscription_deleted order subscription)
    or_return deleted (λ e. (some e, no_response))
  settle_subscription true (some subscription) order = do
    now ← ask env.now
    updated ← perform fl env (
        subscription_updated (record subscription {
          is_active = true;
          last_payment_at = some now;
          total_amount = add_f subscription.total_amount subscription.amount;
        }))
    or_return updated (λ _. raise subscription_update_failed)

  unfoldable pub on_payment_notify : Order fl → Handler (Event fl) Error (Unit {0})
  on_payment_notify order = when (is_processable (env.public_status order)) (do
    country ← ask (λ h. env.country_by_code h order.country)
    known ← or_return country (λ e. e)
    found ← ask (λ h. env.merchant_by_id h order.merchant_id)
    merchant ← or_return found (λ _. message merchant_error_not_found)
    accounted ← perform fl env (payment_accounted order)
    or_return accounted (λ e. e))

  -- A card that was saved, but whose order is not found again, is a fault.
  abbrev after_save : Result Error (Unit {0}) → Order fl → Method (Unit {0})
  after_save (err e) order = pure tt
  after_save (ok _) order = do
    found ← ask (λ h. env.order_by_id h order.id)
    order' ← or_return found (λ _. (some panic, no_response))
    updated ← try_call (
        update_order fl env (record order' { requisites = set_text "saved" "1" order'.requisites }))
    pure tt

  unfoldable pub save_recurring_card : Order fl → String → Method (Unit {0})
  unfolding update_order
  save_recurring_card order recurring_id = do
    saved ← perform fl env (card_saved order recurring_id)
    after_save saved order

  -- What follows the write of an order whose callback is good.
  unfoldable pub announce_payment :
      Received → Option (Subscription fl) → Order fl → Method (Unit {0})
  unfolding settle_subscription on_payment_notify save_recurring_card
  announce_payment r subscription order = do
    settle_subscription (is_complete order.private_status) subscription order
    when (is_complete order.private_status)
        (do published ← perform fl env (form_notified order); or_return published system_error)
    notified ← try_call (on_payment_notify order)
    accounted ← or_return notified (system_error_or_raise no_response)
    when (is_complete order.private_status) (attempt (receipt_mailed order))
    when (r.gateway.can_save_card r.callback)
        (save_recurring_card order (r.gateway.recurring_id_of r.callback))

  abbrev announce_if :
      Option (NotifyStatus × Message)
      → Received
      → Option (Subscription fl)
      → Order fl
      → Method (Unit {0})
  announce_if none r subscription order = announce_payment r subscription order
  announce_if (some e) r subscription order = pure tt

  -- The order as the gateway leaves it is written, also where the gateway refuses the callback.
  unfoldable pub store_payment :
      Received → Order fl → Option (NotifyStatus × Message) → Method Answer
  unfolding fill_payment_data note_first_payment take_subscription update_order announce_payment
  store_payment r judged refusal = do
    let rsp = response_of refusal
    return_if (is_temporary refusal) (none, rsp)
    filled ← some_or_return (fill_payment_data fl env judged) (some other_error, rsp)
    noted ← note_first_payment rsp filled
    (order, subscription) ←
        take_subscription rsp (r.gateway.is_subscription_callback r.callback) noted
    stored ← try_call (update_order fl env order)
    written ← or_return stored (system_error_or_raise rsp)
    announce_if refusal r subscription written
    pure (none, rsp)

  unfoldable pub payment_callback_process : NotifyRequest → Method Answer
  unfolding receive store_payment
  payment_callback_process req = do
    r ← receive req
    now ← ask env.now
    let (judged, refusal) =
        r.gateway.process_payment now r.order r.callback req.request req.signature
    store_payment r judged refusal
