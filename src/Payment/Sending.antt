-- ===== src/Payment/Sending.antt =====
-- The refund that the adapter of CardPay asks for (CreateRefund in
-- internal/payment_system/cardpay.go), and the adapter as a gateway.
use paysuper_billing_server.Base.{
  Bool, Option, none, some, List, ◌∷◌, if◌then◌else◌, not, ◌==◌, ◌||◌,
}
use paysuper_billing_server.Base.Text.{String, str_eq}
use paysuper_billing_server.Floats.{Floats}
use paysuper_billing_server.Payment.{
  refund_rejected, refund_in_progress, create_refund_failed, create_refund_rejected, Message, Error,
  panic, message, Order, Refund, Event, refund_sent, Env, Gateway, HttpReply, RefundReply,
}
use paysuper_billing_server.Payment.Cardpay.{
  filing_or_empty, process_payment, process_refund, is_subscription_callback, can_save_card,
}

-- `successRefundResponseStatuses`
abbrev pub is_success_refund_status : String → Bool
is_success_refund_status s =
    str_eq s "AUTHORIZED"
    || (str_eq s "IN_PROGRESS"
        || (str_eq s "PENDING" || (str_eq s "REFUNDED" || str_eq s "COMPLETED")))

module _ (fl : Floats) (env : Env fl) where
  abbrev Outcome : Type 0
  Outcome = (Refund fl × Option Error) × List (Event fl)

  abbrev failed : Refund fl → Message → List (Event fl) → Outcome
  failed refund m h = ((refund, some (message m)), h)

  -- A reply without refund data is a fault.
  abbrev take_reply : Refund fl → RefundReply → List (Event fl) → Outcome
  take_reply refund reply h = elim reply.refund_data [
    | none ↦ ((refund, some panic), h)
    | some (status, id) ↦
        if not (is_success_refund_status status)
        then failed refund create_refund_rejected h
        else ((record refund { status = refund_in_progress; external_id = id }, none), h)
  ]

  abbrev read_reply : Refund fl → HttpReply → List (Event fl) → Outcome
  read_reply refund reply h =
      if not (reply.status_code == 201)
      then failed refund create_refund_failed h
      else elim reply.body [
        | none ↦ failed refund create_refund_failed h
        | some b ↦ elim (env.refund_reply_of b) [
          | none ↦ failed refund create_refund_failed h
          | some r ↦ take_reply refund r h
        ]
      ]

  -- The refund is rejected until the payment system has taken it.
  unfoldable pub create_refund : Order fl → Refund fl → List (Event fl) → Outcome
  create_refund order refund0 h =
      let refund = record refund0 { status = refund_rejected } in
      if not (env.can_request_refund h order refund)
      then failed refund create_refund_failed h
      else elim (env.refund_reply (refund_sent order refund ∷ h)) [
        | none ↦ failed refund create_refund_failed (refund_sent order refund ∷ h)
        | some reply ↦ read_reply refund reply (refund_sent order refund ∷ h)
      ]

  -- `NewCardPayHandler`. The filing is asked for only where there is one.
  abbrev pub cardpay : Gateway fl
  cardpay = record {
    process_payment = process_payment fl env.codec;
    process_refund = process_refund fl env.codec;
    create_refund = create_refund;
    is_subscription_callback = is_subscription_callback fl env.codec;
    can_save_card = can_save_card fl env.codec;
    recurring_id_of = filing_or_empty fl;
  }
