-- ===== src/Payment/Inserted.antt =====
-- The orders that the callback about a refund inserts (ProcessRefundCallback and
-- createOrderByRefund in internal/service/refund.go).
use paysuper_billing_server.Base.{
  ℕ, ◌≡◌, refl, ap, subst, ◌∙◌, true, Option, none, some, List, [], ◌∷◌, ◌⊎◌, inl, inr, arith,
  Bool-cases,
}
use paysuper_billing_server.Base.Text.{String, str_eq}
use paysuper_billing_server.Floats.{Floats}
use paysuper_billing_server.Response.{Status}
use paysuper_billing_server.Handler.{go_on-keeps, Result-cases, Step-cases}
use paysuper_billing_server.Payment.{
  Message, Order, Refund, RefundCallback, Event, order_updated, refund_updated, receipt_mailed, Env,
  Gateway,
}
use paysuper_billing_server.Payment.Cardpay.{process_refund}
use paysuper_billing_server.Payment.View.{update_order_view-keeps}
use paysuper_billing_server.Payment.Update.{update_order}
use paysuper_billing_server.Payment.Refunding.{CallbackRequest, is_refund_completed}
use paysuper_billing_server.Payment.Copying.{create_order_by_refund}
use paysuper_billing_server.Payment.Reversal.{
  conclude_refund, on_refund_notify, link_refund, allow_again, count_refund, uncount_subscription,
  finish_refund, complete_refund, settle_refund, process_refund_callback,
}
use paysuper_billing_server.Payment.Copied.{
  orders_inserted, IsRefundOf, create_order_by_refund-Inserts,
}
use paysuper_billing_server.Payment.Reversed.{IsFound, process_refund_callback-settles}

module _ (fl : Floats) (env : Env fl) (mocks : String → Gateway fl) where
  -- What follows inserts no order.
  count_refund-inserts :
      (order : Order fl) (refund : Refund fl) (h : List (Event fl))
      → orders_inserted (count_refund fl env mocks order refund h).1 ≡ orders_inserted h
  unfolding count_refund update_order orders_inserted
  count_refund-inserts order refund h = ground (arith)

  on_refund_notify-inserts :
      (refund : Refund fl) (order : Order fl) (h : List (Event fl))
      → orders_inserted (on_refund_notify fl env mocks refund order h).1 ≡ orders_inserted h
  unfolding on_refund_notify orders_inserted
  on_refund_notify-inserts refund order h = ground (arith)

  uncount_subscription-inserts :
      (order : Order fl) (h : List (Event fl))
      → orders_inserted (uncount_subscription fl env mocks order h).1 ≡ orders_inserted h
  unfolding uncount_subscription orders_inserted
  uncount_subscription-inserts order h = ground (arith)

  conclude_refund-inserts :
      (refund : Refund fl) (made order : Order fl) (h : List (Event fl))
      → orders_inserted (conclude_refund fl env mocks refund made order h).1 ≡ orders_inserted h
  unfolding conclude_refund orders_inserted
  conclude_refund-inserts refund made order h =
      let n = on_refund_notify fl env mocks refund order h in
      elim (Step-cases n.0) [
        | inr (e, f) ↦ ground (arith, on_refund_notify-inserts refund order h)
        | inl (u, f) ↦ ground (
          arith,
          on_refund_notify-inserts refund order h,
          uncount_subscription-inserts order (receipt_mailed made ∷ n.1),
        )
      ]

  finish_refund-inserts :
      (order : Order fl) (refund : Refund fl) (made : Order fl) (h : List (Event fl))
      → orders_inserted (finish_refund fl env mocks order refund made h).1 ≡ orders_inserted h
  unfolding finish_refund orders_inserted
  finish_refund-inserts order refund made h =
      let written = refund_updated refund ∷ h in
      let c = count_refund fl env mocks order refund written in
      elim (Step-cases c.0) [
        | inr (e, f) ↦ ground (arith, count_refund-inserts order refund written)
        | inl (o, f) ↦ ground (
          arith,
          count_refund-inserts order refund written,
          conclude_refund-inserts refund made o c.1,
        )
      ]

  allow_again-inserts :
      (order : Order fl) (refund : Refund fl) (h : List (Event fl))
      → orders_inserted (allow_again fl env mocks order refund h).1 ≡ orders_inserted h
  unfolding allow_again orders_inserted
  allow_again-inserts order refund h =
      let again = record order { is_refund_allowed = order.method_refund_allowed } in
      ground (
        arith,
        update_order_view-keeps fl env orders_inserted (λ ids h'. refl) (order.id ∷ [])
            (order_updated again ∷ h),
      )

  -- One order is inserted for a refund that had none, or none.
  abbrev pub InsertsOnce : Order fl → Refund fl → List (Event fl) → List (Event fl) → Type 0
  InsertsOnce order refund h after =
      (orders_inserted after ≡ orders_inserted h)
      ⊎ (o : Order fl) × (str_eq refund.created_order_id "" ≡ true)
        × IsRefundOf fl env order refund o
        × (orders_inserted after ≡ o ∷ orders_inserted h)

  link_refund-inserts :
      (order : Order fl) (refund : Refund fl) (h : List (Event fl))
      → InsertsOnce order refund h (link_refund fl env mocks order refund h).1
  unfolding link_refund
  link_refund-inserts order refund h = elim (Bool-cases (str_eq refund.created_order_id "")) [
    | inr b ↦ inl (ground (arith))
    | inl b ↦
        let c = create_order_by_refund fl env order refund h in
        elim (create_order_by_refund-Inserts fl env order refund h) [
          | inl e ↦ inl (ground (arith))
          | inr (o, of, e) ↦ inr (o, b, of, ground (arith))
        ]
  ]

  complete_refund-inserts :
      (order : Order fl) (refund : Refund fl) (h : List (Event fl))
      → InsertsOnce order refund h (complete_refund fl env mocks order refund h).1
  unfolding complete_refund
  complete_refund-inserts order refund h =
      let finished =
        go_on-keeps orders_inserted (λ x. finish_refund fl env mocks x.0 x.1.0 x.1.1)
          (link_refund fl env mocks order refund h) (λ x. finish_refund-inserts x.0 x.1.0 x.1.1) in
      elim (link_refund-inserts order refund h) [
        | inl e ↦ inl (finished ∙ e)
        | inr (o, b, of, e) ↦ inr (o, b, of, finished ∙ e)
      ]

  settle_refund-inserts :
      (order : Order fl) (refund : Refund fl) (refusal : Option (Status × Message))
      (h : List (Event fl))
      → InsertsOnce order refund h (settle_refund fl env mocks order refund refusal h).1
  unfolding settle_refund orders_inserted
  settle_refund-inserts order refund (some e) h = inl (ground (arith))
  settle_refund-inserts order refund none h =
      elim (Result-cases (env.outcome (refund_updated refund ∷ h))) [
        | inr (e, f) ↦ inl (ground (arith))
        | inl (u, f) ↦ elim (Bool-cases (is_refund_completed refund.status)) [
          | inr c ↦
              inl (ground (arith, allow_again-inserts order refund (refund_updated refund ∷ h)))
          | inl c ↦ elim (complete_refund-inserts order refund (refund_updated refund ∷ h)) [
            | inl e ↦ inl (ground (arith))
            | inr (o, b, of, e) ↦ inr (o, b, of, ground (arith))
          ]
        ]
      ]

  process_refund-keeps :
      (now : ℕ) (order : Order fl) (refund : Refund fl) (callback : RefundCallback fl)
      (raw signature : String)
      → let judged = process_refund fl env.codec now order refund callback raw signature in
        (judged.0.created_order_id ≡ refund.created_order_id) × (judged.0.amount ≡ refund.amount)
  unfolding process_refund
  process_refund-keeps now order refund callback raw signature = ground (arith)

  -- If the refund and its order are found and the payment system is CardPay, a callback about the
  -- refund inserts no order, or one, of the amount of the refund and with the order as its parent,
  -- and then only if the refund had no order before.
  pub process_refund_callback-once :
      (req : CallbackRequest) (h : List (Event fl)) {callback : RefundCallback fl}
      {refund : Refund fl} {order : Order fl}
      → IsFound fl env mocks req h callback refund order
      → InsertsOnce order refund h (process_refund_callback fl env mocks req h).1
  process_refund_callback-once req h {callback} {refund} {order} f =
      let judged =
        process_refund fl env.codec (env.now h) order refund callback req.body req.signature in
      let (created, amount) =
        process_refund-keeps (env.now h) order refund callback req.body req.signature in
      let settled =
        ap (λ x. orders_inserted x.1) (process_refund_callback-settles fl env mocks req h f) in
      elim (settle_refund-inserts order judged.0 judged.1 h) [
        | inl e ↦ inl (settled ∙ e)
        | inr (o, b, (parent, sum), e) ↦
            inr (o, subst (λ x. str_eq x "" ≡ true) created b, (parent, sum ∙ amount), settled ∙ e)
      ]
