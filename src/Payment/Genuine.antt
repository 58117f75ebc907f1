-- ===== src/Payment/Genuine.antt =====
-- Which callbacks the adapter of CardPay believes (ProcessPayment and ProcessRefund in
-- internal/payment_system/cardpay.go).
use paysuper_billing_server.Base.{
  ℕ, ◌≡◌, true, none, some, List, inl, inr, arith, Option-cases, Sum-cases,
}
use paysuper_billing_server.Base.Text.{String, str_eq}
use paysuper_billing_server.Floats.{Floats}
use paysuper_billing_server.Payment.{
  payment_system_reject, payment_system_declined, payment_system_canceled, refund_completed, Order,
  Refund, PaymentCallback, RefundCallback, Codec,
}
use paysuper_billing_server.Payment.Cardpay.{
  completed, is_signed, check_payment, with_status, with_cancellation, process_payment,
  process_refund,
}
use paysuper_billing_server.Payment.Callback.{is_complete}

module _ (fl : Floats) (codec : Codec fl) where
  open fl use {eq_f}

  -- The callback is signed with the secret of the order, has a status that is allowed, and names the
  -- payment method, the amount and the currency of the order.
  pub record IsGenuine (order : Order fl) (req : PaymentCallback fl) (raw signature : String)
      : Type 0 where
    pub signed : str_eq (codec.sha512_hex raw order.secret_callback) signature ≡ true
    pub allowed : req.is_payment_allowed_status ≡ true
    pub method : str_eq req.payment_method order.external_id ≡ true
    pub amount : eq_f req.amount order.charge_amount ≡ true
    pub currency : str_eq req.currency order.charge_currency ≡ true

  check_payment-IsGenuine :
      (order : Order fl) (req : PaymentCallback fl) (raw signature : String)
      {t : ℕ × List (String × String)}
      → check_payment fl codec order req raw signature ≡ inr t
      → IsGenuine order req raw signature
  unfolding check_payment is_signed
  check_payment-IsGenuine order req raw signature e = ground (arith)

  with_cancellation-status :
      (order : Order fl) → (with_cancellation fl order).private_status ≡ order.private_status
  unfolding with_cancellation
  with_cancellation-status order = ground (arith)

  with_status-completed :
      (now : ℕ) (req : PaymentCallback fl) (order : Order fl) {o : Order fl}
      → with_status fl now req order ≡ some o
      → is_complete o.private_status ≡ true
      → str_eq req.status completed ≡ true
  unfolding with_status
  with_status-completed now req order e c = ground (
    arith,
    with_cancellation-status (record order { private_status = payment_system_declined }),
    with_cancellation-status
        (record order { private_status = payment_system_canceled; canceled_at = some now }),
  )

  pub process_payment-IsGenuine :
      (now : ℕ) (order : Order fl) (req : PaymentCallback fl) (raw signature : String)
      → let p = process_payment fl codec now order req raw signature in
        is_complete p.0.private_status ≡ true
        → (p.1 ≡ none) × IsGenuine order req raw signature × (str_eq req.status completed ≡ true)
  unfolding process_payment
  process_payment-IsGenuine now order req raw signature c =
      let order' = record order { private_status = payment_system_reject } in
      elim (Sum-cases (check_payment fl codec order' req raw signature)) [
        | inl (m, e) ↦ ground (arith)
        | inr ((t, params), e) ↦
            let known = check_payment-IsGenuine order' req raw signature e in
            let order2 = record order' { txn_params = params } in
            elim (Option-cases (with_status fl now req order2)) [
              | inl f ↦ ground (arith)
              | inr (o, f) ↦ ground (arith, with_status-completed now req order2 f)
            ]
      ]

  pub process_payment-accepted :
      (now : ℕ) (order : Order fl) (req : PaymentCallback fl) (raw signature : String)
      → (process_payment fl codec now order req raw signature).1 ≡ none
      → IsGenuine order req raw signature
  unfolding process_payment
  process_payment-accepted now order req raw signature accepted =
      let order' = record order { private_status = payment_system_reject } in
      elim (Sum-cases (check_payment fl codec order' req raw signature)) [
        | inl (m, e) ↦ ground (arith)
        | inr (t, e) ↦
            let known = check_payment-IsGenuine order' req raw signature e in ground (arith)
      ]

  -- The refund callback is signed, allowed, and names the method, the amount and the currency.
  pub record IsGenuineRefund (order : Order fl) (refund : Refund fl) (req : RefundCallback fl)
      (raw signature : String) : Type 0 where
    pub signed : str_eq (codec.sha512_hex raw order.secret_callback) signature ≡ true
    pub allowed : req.is_refund_allowed_status ≡ true
    pub method : str_eq req.payment_method order.external_id ≡ true
    pub amount : eq_f req.refund_amount refund.amount ≡ true
    pub currency : str_eq req.refund_currency refund.currency ≡ true
    pub settled : str_eq req.refund_status completed ≡ true

  pub process_refund-IsGenuine :
      (now : ℕ) (order : Order fl) (refund : Refund fl) (req : RefundCallback fl)
      (raw signature : String)
      → let p = process_refund fl codec now order refund req raw signature in
        p.1 ≡ none → p.0.status ≡ refund_completed → IsGenuineRefund order refund req raw signature
  unfolding process_refund is_signed
  process_refund-IsGenuine now order refund req raw signature e c = ground (arith)
