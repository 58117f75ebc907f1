-- ===== src/Payment/Cardpay.antt =====
-- The adapter of CardPay: what it makes of a callback (ProcessPayment, ProcessRefund and
-- checkCallbackRequestSignature in internal/payment_system/cardpay.go).
use paysuper_billing_server.Base.{
  ℕ, Bool, false, Option, none, some, if◌then◌else◌, not, ◌&&◌, ◌||◌, ◌⊎◌, inl, inr,
}
use paysuper_billing_server.Base.Text.{String, str_eq, is_set}
use paysuper_billing_server.Floats.{Floats}
use paysuper_billing_server.Response.{Status}
use paysuper_billing_server.Payment.{
  Texts, lookup_text, get_text, payment_system_reject, payment_system_declined,
  payment_system_canceled, payment_system_complete, RefundStatus, refund_rejected, refund_completed,
  refund_declined, refund_canceled, Message, request_signature_is_invalid,
  request_status_is_invalid, request_recurring_id_field_is_invalid, request_time_field_is_invalid,
  request_payment_method_is_invalid, request_amount_or_currency_is_invalid,
  refund_amount_or_currency_is_invalid, request_temporary_skipped, NotifyStatus,
  status_error_validation, status_temporary, Order, Refund, PaymentCallback, RefundCallback, Codec,
}

-- The aliases of the payment methods and the statuses of CardPay. They stand for the constants of
-- the protocol packages, which are different texts; nothing else about them is used.
abbrev pub bank_card : String
bank_card = "BANKCARD"

abbrev pub is_ewallet : String → Bool
is_ewallet s =
    str_eq s "QIWI" || (str_eq s "WEBMONEY" || (str_eq s "NETELLER" || str_eq s "ALIPAY"))

abbrev pub bitcoin : String
bitcoin = "BITCOIN"

abbrev pub declined : String
declined = "DECLINED"

abbrev pub cancelled : String
cancelled = "CANCELLED"

abbrev pub completed : String
completed = "COMPLETED"

-- `billingpb.TxnParamsFieldDeclineCode` and `TxnParamsFieldDeclineReason`
abbrev pub decline_code : String
decline_code = "decline_code"

abbrev pub decline_reason : String
decline_reason = "decline_reason"

module _ (fl : Floats) where
  open fl use {eq_f}

  -- The callback's own parameters, by its payment method; another method is refused.
  abbrev txn_params_of : PaymentCallback fl → Option Texts
  txn_params_of req =
      if str_eq req.payment_method bank_card
      then some req.bank_card_txn_params
      else if is_ewallet req.payment_method
      then some req.ewallet_txn_params
      else if str_eq req.payment_method bitcoin
      then some req.crypto_currency_txn_params
      else none

  abbrev pub filing_or_empty : PaymentCallback fl → String
  filing_or_empty req = elim req.filing_id [ none ↦ "" | some s ↦ s ]

  -- The reason of a payment that is declined or canceled. Without a code and a reason the order
  -- keeps its own.
  unfoldable pub with_cancellation : Order fl → Order fl
  with_cancellation order =
      let code = get_text decline_code order.txn_params in
      let reason = get_text decline_reason order.txn_params in
      elim (lookup_text decline_code order.txn_params) [
        | some c ↦ record order { cancellation = some (record { code = code; reason = reason }) }
        | none ↦ elim (lookup_text decline_reason order.txn_params) [
          | some r ↦ record order { cancellation = some (record { code = code; reason = reason }) }
          | none ↦ order
        ]
      ]

  -- The order by the status of the callback, or nothing if the status is a temporary one.
  unfoldable pub with_status : ℕ → PaymentCallback fl → Order fl → Option (Order fl)
  unfolding with_cancellation
  with_status now req order =
      if str_eq req.status declined
      then some (with_cancellation (record order { private_status = payment_system_declined }))
      else if str_eq req.status cancelled
      then some (
          with_cancellation
            (record order { private_status = payment_system_canceled; canceled_at = some now }))
      else if str_eq req.status completed
      then some (record order {
        private_status = payment_system_complete;
        is_refund_allowed = order.method_refund_allowed;
      })
      else none

  module _ (codec : Codec fl) where
    unfoldable pub is_signed : Order fl → String → String → Bool
    is_signed order raw signature = str_eq (codec.sha512_hex raw order.secret_callback) signature

    abbrev parsed_time : PaymentCallback fl → Option ℕ
    parsed_time req = elim (codec.parse_time req.callback_time) [
      | none ↦ none
      | some t ↦ codec.timestamp_proto t
    ]

    -- The first of the checks that fails, or the time of the callback.
    unfoldable pub check_payment :
        Order fl → PaymentCallback fl → String → String → Message ⊎ (ℕ × Texts)
    unfolding is_signed
    check_payment order req raw signature =
        if not (is_signed order raw signature)
        then inl request_signature_is_invalid
        else if not req.is_payment_allowed_status
        then inl request_status_is_invalid
        else if req.is_recurring && (req.is_success && str_eq (filing_or_empty req) "")
        then inl request_recurring_id_field_is_invalid
        else elim (parsed_time req) [
          | none ↦ inl request_time_field_is_invalid
          | some t ↦
              if not (str_eq req.payment_method order.external_id)
              then inl request_payment_method_is_invalid
              else if not (eq_f req.amount order.charge_amount)
                  || not (str_eq req.currency order.charge_currency)
              then inl request_amount_or_currency_is_invalid
              else elim (txn_params_of req) [
                | none ↦ inl request_payment_method_is_invalid
                | some params ↦ inr (t, params)
              ]
        ]

    abbrev refused : Order fl → NotifyStatus → Message → Order fl × Option (NotifyStatus × Message)
    refused order status m = (order, some (status, m))

    unfoldable pub process_payment :
        ℕ
        → Order fl
        → PaymentCallback fl
        → String
        → String
        → Order fl × Option (NotifyStatus × Message)
    unfolding check_payment with_status
    process_payment now order0 req raw signature =
        let order = record order0 { private_status = payment_system_reject } in
        elim (check_payment order req raw signature) [
          | inl m ↦ refused order status_error_validation m
          | inr (ts, params) ↦
              let order' = record order { txn_params = params } in
              elim (with_status now req order') [
                | none ↦ refused order' status_temporary request_temporary_skipped
                | some o ↦ (record o { transaction = req.id; closed_at = some ts }, none)
              ]
        ]

    abbrev refuse_refund : Refund fl → Message → Refund fl × Option (Status × Message)
    refuse_refund refund m = (refund, some (Status.bad_data, m))

    abbrev settle :
        ℕ → RefundCallback fl → Refund fl → RefundStatus → Refund fl × Option (Status × Message)
    settle now req refund status =
        (record refund { status = status; external_id = req.refund_id; updated_at = now }, none)

    -- The refund by the status of its callback.
    unfoldable pub process_refund :
        ℕ
        → Order fl
        → Refund fl
        → RefundCallback fl
        → String
        → String
        → Refund fl × Option (Status × Message)
    unfolding is_signed
    process_refund now order refund0 req raw signature =
        let refund = record refund0 { status = refund_rejected } in
        if not (is_signed order raw signature)
        then refuse_refund refund request_signature_is_invalid
        else if not req.is_refund_allowed_status
        then refuse_refund refund request_status_is_invalid
        else if not (str_eq req.payment_method order.external_id)
        then refuse_refund refund request_payment_method_is_invalid
        else if not (eq_f req.refund_amount refund.amount)
            || not (str_eq req.refund_currency refund.currency)
        then refuse_refund refund refund_amount_or_currency_is_invalid
        else if str_eq req.refund_status declined
        then settle now req refund refund_declined
        else if str_eq req.refund_status cancelled
        then settle now req refund refund_canceled
        else if str_eq req.refund_status completed
        then settle now req refund refund_completed
        else (refund0, some (Status.temporary, request_temporary_skipped))

    abbrev pub is_subscription_callback : PaymentCallback fl → Bool
    is_subscription_callback req = elim req.subscription_id [ none ↦ false | some id ↦ is_set id ]

    abbrev pub can_save_card : PaymentCallback fl → Bool
    can_save_card req = str_eq req.payment_method bank_card && req.is_recurring_with_filing
