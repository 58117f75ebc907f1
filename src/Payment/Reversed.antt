-- ===== src/Payment/Reversed.antt =====
-- What the callback about a refund does (ProcessRefundCallback in internal/service/refund.go).
use paysuper_billing_server.Base.{
  ℕ, ◌≡◌, refl, ap, ◌∙◌, Bool, true, false, Option, none, some, List, [], ◌∷◌, ◌⊎◌, inl, inr, arith,
  Bool-cases, if◌then◌else◌,
}
use paysuper_billing_server.Base.Text.{String, str_eq}
use paysuper_billing_server.Floats.{Floats}
use paysuper_billing_server.Response.{Status}
use paysuper_billing_server.Handler.{next, ok, go_on-next}
use paysuper_billing_server.Payment.{
  PrivateStatus, refund_status, chargeback_status, order_error_unknown, message,
  request_signature_is_invalid, refund_rejected, refund_completed, Message, Order, Refund,
  RefundCallback, Event, order_inserted, order_updated, refund_updated, Env, Gateway,
}
use paysuper_billing_server.Payment.Cardpay.{process_refund, is_signed}
use paysuper_billing_server.Payment.Sending.{cardpay}
use paysuper_billing_server.Payment.Callback.{handler_cardpay, get_gateway, some_or_return}
use paysuper_billing_server.Payment.Genuine.{IsGenuineRefund, process_refund-IsGenuine}
use paysuper_billing_server.Payment.View.{update_order_view-keeps}
use paysuper_billing_server.Payment.Refunding.{CallbackRequest, is_refund_completed}
use paysuper_billing_server.Payment.Reversal.{
  find_gateway, receive, allow_again, settle_refund, process_refund_callback,
}

abbrev pub is_undone : PrivateStatus → Bool
is_undone refund_status = true
is_undone chargeback_status = true
is_undone s = false

module _ {fl : Floats} where
  -- The orders that a history has written as refunded or charged back, the newest first.
  unfoldable pub undone_written : List (Event fl) → List (Order fl)
  undone_written [] = []
  undone_written (order_updated o ∷ h) =
      if is_undone o.private_status then o ∷ undone_written h else undone_written h
  undone_written (order_inserted o ∷ h) =
      if is_undone o.private_status then o ∷ undone_written h else undone_written h
  undone_written (_ ∷ h) = undone_written h

module _ (fl : Floats) (env : Env fl) (mocks : String → Gateway fl) where
  -- The callback of CardPay about a refund, which is found with its order.
  pub record IsFound (req : CallbackRequest) (h : List (Event fl)) (callback : RefundCallback fl)
      (refund : Refund fl) (order : Order fl) : Type 0 where
    pub handler : str_eq req.handler handler_cardpay ≡ true
    pub parsed : env.refund_callback_of req.body ≡ some callback
    pub id : String
    pub named : callback.merchant_order_id ≡ some id
    pub stored : env.refund_by_id h id ≡ ok refund
    pub original : env.order_by_id h refund.original_order_id ≡ ok order
    pub method : order.method_handler ≡ handler_cardpay

  find_gateway-cardpay :
      (order : Order fl) (h : List (Event fl))
      → order.method_handler ≡ handler_cardpay
      → find_gateway fl env mocks order h ≡ (next (cardpay fl env), h)
  unfolding find_gateway
  find_gateway-cardpay order h m =
      ap
        (λ x.
          some_or_return {E = Event fl} (get_gateway fl env mocks x)
            (ok (Status.system_error, some (message order_error_unknown))) h)
        m

  receive-IsFound :
      (req : CallbackRequest) (h : List (Event fl)) {callback : RefundCallback fl}
      {refund : Refund fl} {order : Order fl}
      → IsFound req h callback refund order
      → receive fl env mocks req h ≡ (
        next (record {
          refund = refund;
          order = order;
          gateway = cardpay fl env;
          callback = callback;
        }),
        h,
      )
  unfolding receive
  receive-IsFound req h {callback} {refund} {order} f = ground (
    arith,
    f.handler,
    f.parsed,
    f.named,
    f.stored,
    f.original,
    find_gateway-cardpay order h f.method,
  )

  pub process_refund_callback-settles :
      (req : CallbackRequest) (h : List (Event fl)) {callback : RefundCallback fl}
      {refund : Refund fl} {order : Order fl}
      → IsFound req h callback refund order
      → let judged =
          process_refund fl env.codec (env.now h) order refund callback req.body req.signature in
        process_refund_callback fl env mocks req h
        ≡ settle_refund fl env mocks order judged.0 judged.1 h
  unfolding process_refund_callback
  process_refund_callback-settles req h {callback} {refund} {order} f =
      let e = receive-IsFound req h f in
      go_on-next _ (receive fl env mocks req h) (ap (λ x. x.0) e) (ap (λ x. x.1) e)

  process_refund-forged :
      (now : ℕ) (order : Order fl) (refund : Refund fl) (callback : RefundCallback fl)
      (raw signature : String)
      → str_eq (env.codec.sha512_hex raw order.secret_callback) signature ≡ false
      → process_refund fl env.codec now order refund callback raw signature ≡ (
        record refund { status = refund_rejected },
        some (Status.bad_data, request_signature_is_invalid),
      )
  unfolding process_refund is_signed
  process_refund-forged now order refund callback raw signature e = ground (arith)

  settle_refund-refused :
      (order : Order fl) (refund : Refund fl) (e : Status × Message) (h : List (Event fl))
      → (settle_refund fl env mocks order refund (some e) h).1 ≡ refund_updated refund ∷ h
  unfolding settle_refund
  settle_refund-refused order refund e h = ground (arith)

  -- A callback with a wrong signature about a refund that is found with its order, paid by
  -- CardPay, writes the refund as rejected and does nothing else.
  pub process_refund_callback-forged :
      (req : CallbackRequest) (h : List (Event fl)) {callback : RefundCallback fl}
      {refund : Refund fl} {order : Order fl}
      → IsFound req h callback refund order
      → str_eq (env.codec.sha512_hex req.body order.secret_callback) req.signature ≡ false
      → (process_refund_callback fl env mocks req h).1
        ≡ refund_updated (record refund { status = refund_rejected }) ∷ h
  process_refund_callback-forged req h {callback} {refund} {order} f s =
      let rejected = record refund { status = refund_rejected } in
      ap (λ x. x.1) (process_refund_callback-settles req h f)
      ∙ (ap (λ x. (settle_refund fl env mocks order x.0 x.1 h).1)
            (process_refund-forged (env.now h) order refund callback req.body req.signature s)
          ∙ settle_refund-refused order rejected (Status.bad_data, request_signature_is_invalid) h)

  allow_again-undone :
      (order : Order fl) (refund : Refund fl) (h : List (Event fl))
      → is_undone order.private_status ≡ false
      → undone_written (allow_again fl env mocks order refund h).1 ≡ undone_written h
  unfolding allow_again undone_written
  allow_again-undone order refund h u =
      let again = record order { is_refund_allowed = order.method_refund_allowed } in
      ground (
        arith,
        update_order_view-keeps fl env undone_written (λ ids h'. refl) (order.id ∷ [])
            (order_updated again ∷ h),
      )

  settle_refund-undone :
      (order : Order fl) (refund : Refund fl) (refusal : Option (Status × Message))
      (h : List (Event fl))
      → is_undone order.private_status ≡ false
      → (undone_written (settle_refund fl env mocks order refund refusal h).1 ≡ undone_written h)
        ⊎ ((refusal ≡ none) × (refund.status ≡ refund_completed))
  unfolding settle_refund undone_written
  settle_refund-undone order refund (some e) h u = inl (ground (arith))
  settle_refund-undone order refund none h u =
      elim (Bool-cases (is_refund_completed refund.status)) [
        | inl c ↦ inr (refl, ground (arith))
        | inr c ↦
            inl (ground (arith, allow_again-undone order refund (refund_updated refund ∷ h) u))
      ]

  -- If the refund and its order are found, the order is not refunded yet and its payment system is
  -- CardPay, a callback about the refund writes an order as refunded or charged back only if it is
  -- signed with the secret of the order, has an allowed status, names the payment method, the
  -- amount and the currency, and says that the refund is completed.
  pub process_refund_callback-IsGenuine :
      (req : CallbackRequest) (h : List (Event fl)) {callback : RefundCallback fl}
      {refund : Refund fl} {order : Order fl}
      → IsFound req h callback refund order
      → is_undone order.private_status ≡ false
      → (undone_written (process_refund_callback fl env mocks req h).1 ≡ undone_written h)
        ⊎ IsGenuineRefund fl env.codec order refund callback req.body req.signature
  process_refund_callback-IsGenuine req h {callback} {refund} {order} f u =
      let judged =
        process_refund fl env.codec (env.now h) order refund callback req.body req.signature in
      elim (settle_refund-undone order judged.0 judged.1 h u) [
        | inl e ↦ inl (ap (λ x. undone_written x.1) (process_refund_callback-settles req h f) ∙ e)
        | inr (accepted, complete) ↦ inr (
            process_refund-IsGenuine fl env.codec (env.now h) order refund callback req.body
              req.signature accepted complete)
      ]
