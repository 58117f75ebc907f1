-- ===== src/Payment/Asked.antt =====
-- What the making of a refund asks for and does (CreateRefund in internal/service/refund.go and in
-- internal/payment_system/cardpay.go).
use paysuper_billing_server.Base.{
  ◌≡◌, sym, ap, subst, ◌∙◌, true, false, List, ◌∷◌, ◌⊎◌, inl, inr, arith,
}
use paysuper_billing_server.Base.Text.{String}
use paysuper_billing_server.Floats.{Floats}
use paysuper_billing_server.Response.{Status}
use paysuper_billing_server.Handler.{next, done, ok, go_on, go_on-next, Result-cases, Step-cases}
use paysuper_billing_server.Payment.{
  handler_not_found, refund_error_unknown, refund_in_progress, refund_rejected, Order, Refund,
  Event, refund_inserted, refund_updated, refund_sent, Env, Gateway,
}
use paysuper_billing_server.Payment.Callback.{handler_cardpay, get_gateway, some_or_return}
use paysuper_billing_server.Payment.Sending as Sending
use paysuper_billing_server.Payment.Refunding.{
  is_refund, CreateRefundRequest, process_order, process_refunds_by_order, has_money_back_costs,
  process_create_refund, create_refund, insert_refund, store_refund, send_refund, answered, refused,
  Failure,
}

module _ (fl : Floats) (env : Env fl) (mocks : String → Gateway fl) where
  open fl use {F, less_f, zero_f}

  process_order-keeps :
      (req : CreateRefundRequest) (h : List (Event fl)) → (process_order fl env mocks req h).1 ≡ h
  unfolding process_order
  process_order-keeps req h = ground (arith)

  process_order-next :
      (req : CreateRefundRequest) (h : List (Event fl)) {order : Order fl}
      → (process_order fl env mocks req h).0 ≡ next order
      → (env.order_by_uuid_and_merchant h req.order_id req.merchant_id ≡ ok order)
        × (is_refund order.private_status ≡ false)
        × (env.refund_allowed order ≡ true)
  unfolding process_order
  process_order-next req h e = ground (arith)

  process_refunds_by_order-keeps :
      (order : Order fl) (h : List (Event fl))
      → (process_refunds_by_order fl env mocks order h).1 ≡ h
  unfolding process_refunds_by_order
  process_refunds_by_order-keeps order h = ground (arith)

  process_refunds_by_order-next :
      (order : Order fl) (h : List (Event fl)) {u : Unit {0}}
      → (process_refunds_by_order fl env mocks order h).0 ≡ next u
      → (amount : F) × (env.refund_amount_by_order h order.id ≡ ok amount)
        × (less_f zero_f amount ≡ false)
  unfolding process_refunds_by_order
  process_refunds_by_order-next order h e =
      elim (Result-cases (env.refund_amount_by_order h order.id)) [
        | inl (a, f) ↦ (a, f, ground (arith))
        | inr (x, f) ↦ ground (arith)
      ]

  -- The refund that is stored is of the whole amount of its order.
  abbrev pub IsWhole : Order fl → Refund fl → Type 0
  IsWhole order refund =
      (refund.amount ≡ order.charge_amount)
      × (refund.currency ≡ order.charge_currency)
      × (refund.original_order_id ≡ order.id)

  insert_refund-next :
      (req : CreateRefundRequest) (order : Order fl) (h : List (Event fl)) {o : Order fl}
      {refund : Refund fl}
      → (insert_refund fl env mocks req order h).0 ≡ next (o, refund)
      → (o ≡ order)
        × IsWhole o refund
        × ((insert_refund fl env mocks req order h).1 ≡ refund_inserted refund ∷ h)
  unfolding insert_refund
  insert_refund-next req order h e = ground (arith)

  has_money_back_costs-keeps :
      (req : CreateRefundRequest) (order : Order fl) (h : List (Event fl))
      → (has_money_back_costs fl env mocks req order h).1 ≡ h
  unfolding has_money_back_costs
  has_money_back_costs-keeps req order h = ground (arith)

  -- An order may be refunded.
  pub record IsRefundable (req : CreateRefundRequest) (h : List (Event fl)) (order : Order fl)
      : Type 0 where
    pub found : env.order_by_uuid_and_merchant h req.order_id req.merchant_id ≡ ok order
    pub unrefunded : is_refund order.private_status ≡ false
    pub allowed : env.refund_allowed order ≡ true
    pub sum : F
    pub summed : env.refund_amount_by_order h order.id ≡ ok sum
    pub nothing : less_f zero_f sum ≡ false

  process_create_refund-done :
      (req : CreateRefundRequest) (h : List (Event fl))
      → ((f : Failure) × (process_create_refund fl env mocks req h ≡ (done f, h)))
        ⊎ (order : Order fl) × IsRefundable req h order
          × (process_create_refund fl env mocks req h ≡ insert_refund fl env mocks req order h)
  unfolding process_create_refund
  process_create_refund-done req h =
      let m = process_order fl env mocks req h in
      elim (Step-cases m.0) [
        | inr (a, f) ↦ inl (a, ground (arith, process_order-keeps req h))
        | inl (o, f) ↦
            let first = go_on-next _ m f (process_order-keeps req h) in
            let c = has_money_back_costs fl env mocks req o h in
            elim (Step-cases c.0) [
              | inr (a, g) ↦ inl (a, first ∙ ground (arith, has_money_back_costs-keeps req o h))
              | inl (u, g) ↦
                  let second = go_on-next _ c g (has_money_back_costs-keeps req o h) in
                  let p = process_refunds_by_order fl env mocks o h in
                  elim (Step-cases p.0) [
                    | inr (a, k) ↦
                        inl
                          (a, first ∙ (second ∙ ground (arith, process_refunds_by_order-keeps o h)))
                    | inl (v, k) ↦
                        let (found, unrefunded, allowed) = process_order-next req h f in
                        let (sum, summed, nothing) = process_refunds_by_order-next o h k in
                        inr (
                          o,
                          record {
                            found = found;
                            unrefunded = unrefunded;
                            allowed = allowed;
                            sum = sum;
                            summed = summed;
                            nothing = nothing;
                          },
                          first ∙ (second ∙ go_on-next _ p k (process_refunds_by_order-keeps o h)),
                        )
                  ]
            ]
      ]

  pub send_refund-cardpay :
      (order : Order fl) (refund : Refund fl) (h : List (Event fl))
      → order.method_handler ≡ handler_cardpay
      → send_refund fl env mocks (order, refund) h
        ≡ store_refund fl env mocks order refund (Sending.cardpay fl env) h
  unfolding send_refund
  send_refund-cardpay order refund h m =
      ap
        (λ x. go_on (store_refund fl env mocks order refund) (
          some_or_return (get_gateway fl env mocks x)
            (ok (refused fl Status.bad_data handler_not_found)) h))
        m

  -- What becomes of a refund that CardPay takes, and of one that it does not take.
  store_refund-taken :
      (order : Order fl) (refund : Refund fl) (h : List (Event fl)) {r : Refund fl}
      → (store_refund fl env mocks order refund (Sending.cardpay fl env) h).0
        ≡ next (ok (answered fl r))
      → (r ≡ record refund { status = refund_in_progress; external_id = r.external_id })
        × ((store_refund fl env mocks order refund (Sending.cardpay fl env) h).1
            ≡ refund_updated r ∷ refund_sent order (record refund { status = refund_rejected }) ∷ h)
  unfolding store_refund Sending.create_refund
  store_refund-taken order refund h e = ground (arith)

  store_refund-refused :
      (order : Order fl) (refund : Refund fl) (h : List (Event fl))
      → (store_refund fl env mocks order refund (Sending.cardpay fl env) h).0
        ≡ next (ok (refused fl Status.bad_data refund_error_unknown))
      → (store_refund fl env mocks order refund (Sending.cardpay fl env) h).1
        ≡ refund_updated (record refund { status = refund_rejected })
          ∷ (Sending.create_refund fl env order refund h).1
  unfolding store_refund Sending.create_refund
  store_refund-refused order refund h e = ground (arith)

  create_refund-failed :
      (req : CreateRefundRequest) (h : List (Event fl)) {f : Failure}
      → (process_create_refund fl env mocks req h).0 ≡ done f
      → (create_refund fl env mocks req h).0 ≡ done (ok (refused fl f.0 f.1))
  unfolding create_refund
  create_refund-failed req h {f} e = ground (arith)

  create_refund-sent :
      (req : CreateRefundRequest) (h : List (Event fl)) {made : Order fl × Refund fl}
      {older : List (Event fl)}
      → (process_create_refund fl env mocks req h).0 ≡ next made
      → (process_create_refund fl env mocks req h).1 ≡ older
      → create_refund fl env mocks req h ≡ send_refund fl env mocks made older
  unfolding create_refund
  create_refund-sent req h {made} e f = ground (arith)

  -- A refund of an order is stored and sent to CardPay, or the request is answered early.
  create_refund-cases :
      (req : CreateRefundRequest) (h : List (Event fl)) {order : Order fl}
      → env.order_by_uuid_and_merchant h req.order_id req.merchant_id ≡ ok order
      → order.method_handler ≡ handler_cardpay
      → ((f : Failure) × ((create_refund fl env mocks req h).0 ≡ done (ok (refused fl f.0 f.1))))
        ⊎ (first : Refund fl) × IsRefundable req h order
          × IsWhole order first
          × (create_refund fl env mocks req h
              ≡ store_refund fl env mocks order first
                  (Sending.cardpay fl env)
                  (refund_inserted first ∷ h))
  create_refund-cases req h {order} o m = elim (process_create_refund-done req h) [
    | inl (f, e) ↦ inl (f, create_refund-failed req h (ap (λ x. x.0) e))
    | inr (found, known, e) ↦
        let i = insert_refund fl env mocks req found h in
        elim (Step-cases i.0) [
          | inr (f, g) ↦ inl (f, create_refund-failed req h (ap (λ x. x.0) e ∙ g))
          | inl ((order', first), g) ↦
              let (same, whole, written) = insert_refund-next req found h g in
              let here : found ≡ order = ground (arith, known.found) in
              let sent =
                create_refund-sent req h (ap (λ x. x.0) e ∙ g) (ap (λ x. x.1) e ∙ written) in
              inr (
                first,
                subst (λ x. IsRefundable req h x) here known,
                subst (λ x. IsWhole x first) (same ∙ here) whole,
                sent
                    ∙ (ap (λ x. send_refund fl env mocks (x, first) (refund_inserted first ∷ h))
                          (same ∙ here)
                        ∙ send_refund-cardpay order first (refund_inserted first ∷ h) m),
              )
        ]
  ]

  -- A refund that is asked for and answered as made, for an order that is found and paid by
  -- CardPay, is of the whole charged amount of an order that may be refunded, is not refunded, and
  -- whose earlier refunds sum to no positive amount; it is stored as created, sent, and stored as
  -- in progress, and nothing else is done.
  pub create_refund-taken :
      (req : CreateRefundRequest) (h : List (Event fl)) {order : Order fl} {r : Refund fl}
      → env.order_by_uuid_and_merchant h req.order_id req.merchant_id ≡ ok order
      → order.method_handler ≡ handler_cardpay
      → (create_refund fl env mocks req h).0 ≡ next (ok (answered fl r))
      → (first : Refund fl) × IsRefundable req h order
        × IsWhole order first
        × (r ≡ record first { status = refund_in_progress; external_id = r.external_id })
        × ((create_refund fl env mocks req h).1
            ≡ refund_updated r
              ∷ refund_sent order (record first { status = refund_rejected })
              ∷ refund_inserted first
              ∷ h)
  create_refund-taken req h {order} {r} o m e = elim (create_refund-cases req h o m) [
    | inl (f, g) ↦ ground (arith)
    | inr (first, known, whole, g) ↦
        let (made, written) =
          store_refund-taken order first (refund_inserted first ∷ h) (sym (ap (λ x. x.0) g) ∙ e) in
        (first, known, whole, made, ap (λ x. x.1) g ∙ written)
  ]

  pub create_refund-rejected :
      (req : CreateRefundRequest) (h : List (Event fl)) {order : Order fl}
      → env.order_by_uuid_and_merchant h req.order_id req.merchant_id ≡ ok order
      → order.method_handler ≡ handler_cardpay
      → (create_refund fl env mocks req h).0
        ≡ next (ok (refused fl Status.bad_data refund_error_unknown))
      → (first : Refund fl) × IsWhole order first
        × ((create_refund fl env mocks req h).1
            ≡ refund_updated (record first { status = refund_rejected })
              ∷ (Sending.create_refund fl env order first (refund_inserted first ∷ h)).1)
  create_refund-rejected req h {order} o m e = elim (create_refund-cases req h o m) [
    | inl (f, g) ↦ ground (arith)
    | inr (first, known, whole, g) ↦ (
      first,
      whole,
      ap (λ x. x.1) g
          ∙ store_refund-refused order first (refund_inserted first ∷ h)
              (sym (ap (λ x. x.0) g) ∙ e),
    )
  ]
