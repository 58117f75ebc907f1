-- ===== src/Payment/Reversal.antt =====
-- The callback of a payment system about a refund (ProcessRefundCallback in
-- internal/service/refund.go, onRefundNotify in internal/service/accounting_entry.go).
use paysuper_billing_server.Base.{ℕ, true, false, Option, none, some, [], ◌∷◌, if◌then◌else◌, not}
use paysuper_billing_server.Base.Text.{String, str_eq}
use paysuper_billing_server.Floats.{Floats}
use paysuper_billing_server.Response.{Status}
use paysuper_billing_server.Handler.{
  Result, ok, err, Handler, ◌>>=◌, ◌>>◌, pure, ask, return_if, when, or_return, try_call,
}
use paysuper_billing_server.Payment.{
  Message, order_error_unknown, callback_request_incorrect, callback_handler_incorrect,
  merchant_error_not_found, refund_error_not_found, refund_error_order_not_found, Error, panic,
  never_ends, message, Order, Refund, RefundCallback, Subscription, Event, order_updated,
  refund_updated, subscription_updated, refund_accounted, receipt_mailed, Env, Gateway,
}
use paysuper_billing_server.Payment.Update.{
  perform, attempt, update_order, with_public_status, is_processable,
}
use paysuper_billing_server.Payment.Callback.{handler_cardpay, get_gateway, some_or_return}
use paysuper_billing_server.Payment.View.{update_order_view}
use paysuper_billing_server.Payment.Copying.{
  undone, undone_public, refund_record, create_order_by_refund,
}
use paysuper_billing_server.Payment.Refunding.{is_refund_completed, CallbackRequest}

-- The status and the error of the response, unless the call is cut off by a fault.
abbrev pub Answer : Type 0
Answer = Result Error (Status × Option Error)

abbrev pub answer_with : Status → Error → Answer
answer_with status panic = err panic
answer_with status never_ends = err never_ends
answer_with status e = ok (status, some e)

-- An answer with a message, for an error that is no fault.
abbrev pub unknown_error : Error → Answer
unknown_error panic = err panic
unknown_error never_ends = err never_ends
unknown_error e = ok (Status.system_error, some (message order_error_unknown))

abbrev pub no_error : Answer
no_error = ok (Status.ok, none)

-- A callback that comes too early is answered as good.
abbrev pub refusal_of : Status × Message → Answer
refusal_of (Status.temporary, m) = ok (Status.ok, some (message m))
refusal_of (status, m) = ok (status, some (message m))

module _ (fl : Floats) (env : Env fl) (mocks : String → Gateway fl) where
  open fl use {F, zero_f, sub_f, eq_f}

  abbrev Method : Type 0 → Type 0
  Method A = Handler (Event fl) Answer A

  abbrev Inner : Type 0 → Type 0
  Inner A = Handler (Event fl) Error A

  pub record Received : Type 0 where
    pub refund : Refund fl
    pub order : Order fl
    pub gateway : Gateway fl
    pub callback : RefundCallback fl

  unfoldable pub find_gateway : Order fl → Method (Gateway fl)
  find_gateway order =
      some_or_return (get_gateway fl env mocks order.method_handler)
        (ok (Status.system_error, some (message order_error_unknown)))

  unfoldable pub receive : CallbackRequest → Method Received
  unfolding find_gateway
  receive req = do
    return_if (not (str_eq req.handler handler_cardpay))
        (ok (Status.bad_data, some (message callback_handler_incorrect)))
    callback ←
        some_or_return (env.refund_callback_of req.body)
          (ok (Status.bad_data, some (message callback_request_incorrect)))
    id ← some_or_return callback.merchant_order_id (err panic)
    stored ← ask (λ h. env.refund_by_id h id)
    refund ← or_return stored (λ _. ok (Status.not_found, some (message refund_error_not_found)))
    found ← ask (λ h. env.order_by_id h refund.original_order_id)
    order ←
        or_return found (λ _. ok (Status.not_found, some (message refund_error_order_not_found)))
    gateway ←
        some_or_return (get_gateway fl env mocks order.method_handler)
          (ok (Status.system_error, some (message order_error_unknown)))
    pure (record { refund = refund; order = order; gateway = gateway; callback = callback })

  unfoldable pub on_refund_notify : Refund fl → Order fl → Inner (Unit {0})
  on_refund_notify refund order = when (is_processable (env.public_status order)) (do
    country ← ask (λ h. env.country_by_code h order.country)
    known ← or_return country (λ e. e)
    found ← ask (λ h. env.order_by_id h refund.created_order_id)
    refund_order ← or_return found (λ e. e)
    owner ← ask (λ h. env.merchant_by_id h refund_order.merchant_id)
    merchant ← or_return owner (λ _. message merchant_error_not_found)
    accounted ← perform fl env (refund_accounted refund order)
    or_return accounted (λ e. e))

  -- The original order after a copy was made of it, whose tax it may share.
  abbrev after_copy : Order fl → Order fl → Order fl
  after_copy order made = if env.shares_tax then record order { tax = made.tax } else order

  -- The order of the refund is made, or it was before.
  unfoldable pub link_refund : Order fl → Refund fl → Method (Order fl × (Refund fl × Order fl))
  unfolding create_order_by_refund
  link_refund order refund = elim (str_eq refund.created_order_id "") [
    | true ↦ do
      created ← try_call (create_order_by_refund fl env order refund)
      made ← or_return created (answer_with Status.system_error)
      pure (after_copy order made, (record refund { created_order_id = made.id }, made))
    | false ↦ do
      found ← ask (λ h. env.order_by_id h refund.created_order_id)
      made ← or_return found (answer_with Status.system_error)
      pure (order, (refund, made))
  ]

  abbrev write_refund : Refund fl → Method (Unit {0})
  write_refund refund = do
    updated ← perform fl env (refund_updated refund)
    or_return updated unknown_error

  -- A refund that was not made may be asked for again.
  unfoldable pub allow_again : Order fl → Refund fl → Method Answer
  allow_again order refund = do
    let order' = record order { is_refund_allowed = order.method_refund_allowed }
    updated ← perform fl env (order_updated order')
    or_return updated unknown_error
    viewed ← try_call (update_order_view fl env (order'.id ∷ []))
    or_return viewed unknown_error
    write_refund refund
    pure no_error

  abbrev refunded_order : Refund fl → F → ℕ → Order fl → Order fl
  refunded_order refund amount now order = record order {
    private_status = undone refund.is_chargeback;
    status = undone_public refund.is_chargeback;
    updated_at = now;
    refunded_at = some now;
    is_refunded = true;
    is_refund_allowed = false;
    refund = some (refund_record fl env amount order.charge_currency refund);
  }

  abbrev or_zero : Result Error F → F
  or_zero (ok a) = a
  or_zero (err e) = zero_f

  -- An amount that cannot be read counts as zero. The order is changed also where it is not stored.
  unfoldable pub count_refund : Order fl → Refund fl → Method (Order fl)
  unfolding update_order with_public_status
  count_refund order refund = do
    answer ← ask (λ h. env.refund_amount_by_order h order.id)
    let amount = or_zero answer
    now ← ask env.now
    original ← ask (λ h. env.order_by_id h order.id)
    elim (eq_f amount order.charge_amount) [
      | false ↦ pure order
      | true ↦ do
        stored ← try_call (update_order fl env (refunded_order refund amount now order))
        pure (with_public_status fl env original (refunded_order refund amount now order))
    ]

  abbrev uncount : Result Error (Subscription fl) → Method (Unit {0})
  uncount (err e) = pure tt
  uncount (ok subscription) = attempt (
      subscription_updated (record subscription {
        total_amount = sub_f subscription.total_amount subscription.amount;
      }))

  unfoldable pub uncount_subscription : Order fl → Method (Unit {0})
  uncount_subscription order =
      when order.is_recurring
        (do found ← ask (λ h. env.subscription_by_id h order.recurring_id); uncount found)

  unfoldable pub conclude_refund : Refund fl → Order fl → Order fl → Method Answer
  unfolding on_refund_notify uncount_subscription
  conclude_refund refund made order = do
    notified ← try_call (on_refund_notify refund order)
    or_return notified (answer_with Status.system_error)
    attempt (receipt_mailed made)
    uncount_subscription order
    pure no_error

  -- What follows a refund whose order is there.
  unfoldable pub finish_refund : Order fl → Refund fl → Order fl → Method Answer
  unfolding count_refund conclude_refund
  finish_refund order0 refund made = do
    write_refund refund
    order ← count_refund order0 refund
    conclude_refund refund made order

  unfoldable pub complete_refund : Order fl → Refund fl → Method Answer
  unfolding link_refund finish_refund
  complete_refund order0 refund0 = do
    (order, (refund, made)) ← link_refund order0 refund0
    finish_refund order refund made

  unfoldable pub settle_refund : Order fl → Refund fl → Option (Status × Message) → Method Answer
  unfolding allow_again complete_refund
  settle_refund order refund refusal = do
    write_refund refund
    elim refusal [
      | some e ↦ pure (refusal_of e)
      | none ↦
          if is_refund_completed refund.status
          then complete_refund order refund
          else allow_again order refund
    ]

  -- The refund as the gateway leaves it is written, also where the gateway refuses the callback.
  unfoldable pub process_refund_callback : CallbackRequest → Method Answer
  unfolding receive settle_refund
  process_refund_callback req = do
    r ← receive req
    now ← ask env.now
    let (refund, refusal) =
        r.gateway.process_refund now r.order r.refund r.callback req.body req.signature
    settle_refund r.order refund refusal
