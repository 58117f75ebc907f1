-- ===== src/Payment/Stored.antt =====
-- What a payment callback writes (PaymentCallbackProcess in internal/service/order.go).
use paysuper_billing_server.Base.{
  ◌≡◌, refl, sym, ap, subst, ◌∙◌, Bool, true, false, Option, some, List, [], ◌∷◌, if◌then◌else◌,
  ◌⊎◌, inl, inr, arith, Option-cases,
}
use paysuper_billing_server.Base.Text.{String}
use paysuper_billing_server.Floats.{Floats}
use paysuper_billing_server.Handler.{next, done, Result, ok, go_on-next, Step-cases}
use paysuper_billing_server.Payment.{
  Message, NotifyStatus, Error, Order, PaymentCallback, Subscription, Event, order_inserted,
  order_updated, Env, Gateway, NotifyResponse,
}
use paysuper_billing_server.Payment.Cardpay.{process_payment}
use paysuper_billing_server.Payment.Sending.{cardpay}
use paysuper_billing_server.Payment.Requisites.{fill_payment_data}
use paysuper_billing_server.Payment.Update.{update_order, with_public_status}
use paysuper_billing_server.Payment.Callback.{
  is_complete, handler_cardpay, NotifyRequest, Answer, Received, response_of, receive,
  note_first_payment, take_subscription, store_payment, payment_callback_process,
}
use paysuper_billing_server.Payment.Genuine.{
  IsGenuine, process_payment-IsGenuine, process_payment-accepted,
}

module _ {fl : Floats} where
  -- The orders that a history has written as complete, the newest first.
  unfoldable pub completes_written : List (Event fl) → List (Order fl)
  completes_written [] = []
  completes_written (order_updated o ∷ h) =
      if is_complete o.private_status then o ∷ completes_written h else completes_written h
  completes_written (order_inserted o ∷ h) =
      if is_complete o.private_status then o ∷ completes_written h else completes_written h
  completes_written (_ ∷ h) = completes_written h

module _ (fl : Floats) (env : Env fl) (mocks : String → Gateway fl) where
  pub with_public_status-private :
      (original : Result Error (Order fl)) (order : Order fl)
      → (with_public_status fl env original order).private_status ≡ order.private_status
  unfolding with_public_status
  with_public_status-private original order = ground (arith)

  update_order-completes :
      (order : Order fl) (h : List (Event fl))
      → is_complete order.private_status ≡ false
      → completes_written (update_order fl env order h).1 ≡ completes_written h
  unfolding update_order completes_written
  update_order-completes order h c =
      ground (arith, with_public_status-private (env.order_by_id h order.id) order)

  pub receive-keeps :
      (req : NotifyRequest) (h : List (Event fl)) → (receive fl env mocks req h).1 ≡ h
  unfolding receive
  receive-keeps req h = ground (arith)

  pub fill_payment_data-private :
      (order : Order fl) {o : Order fl}
      → fill_payment_data fl env order ≡ some o
      → o.private_status ≡ order.private_status
  unfolding fill_payment_data
  fill_payment_data-private order e = ground (arith)

  note_first_payment-completes :
      (rsp : NotifyResponse) (order : Order fl) (h : List (Event fl))
      → completes_written (note_first_payment fl env mocks rsp order h).1 ≡ completes_written h
  unfolding note_first_payment completes_written
  note_first_payment-completes rsp order h = ground (arith)

  note_first_payment-private :
      (rsp : NotifyResponse) (order : Order fl) (h : List (Event fl)) {o : Order fl}
      → (note_first_payment fl env mocks rsp order h).0 ≡ next o
      → o.private_status ≡ order.private_status
  unfolding note_first_payment
  note_first_payment-private rsp order h e = ground (arith)

  take_subscription-completes :
      (rsp : NotifyResponse) (b : Bool) (order : Order fl) (h : List (Event fl))
      → completes_written (take_subscription fl env mocks rsp b order h).1 ≡ completes_written h
  unfolding take_subscription completes_written
  take_subscription-completes rsp false order h = refl
  take_subscription-completes rsp true order h = ground (arith)

  take_subscription-private :
      (rsp : NotifyResponse) (b : Bool) (order : Order fl) (h : List (Event fl))
      {o : Order fl × Option (Subscription fl)}
      → (take_subscription fl env mocks rsp b order h).0 ≡ next o
      → o.0.private_status ≡ order.private_status
  unfolding take_subscription
  take_subscription-private rsp false order h e = ground (arith)
  take_subscription-private rsp true order h e = ground (arith)

  store_payment-completes :
      (r : Received fl env mocks) (judged : Order fl) (refusal : NotifyStatus × Message)
      (h : List (Event fl))
      → is_complete judged.private_status ≡ false
      → completes_written (store_payment fl env mocks r judged (some refusal) h).1
        ≡ completes_written h
  unfolding store_payment
  store_payment-completes r judged refusal h c =
      elim (Option-cases (fill_payment_data fl env judged)) [
        | inl e ↦ ground (arith)
        | inr (filled, e) ↦
            let rsp = response_of (some refusal) in
            let n = note_first_payment fl env mocks rsp filled h in
            elim (Step-cases n.0) [
              | inr (a, f) ↦ ground (arith, note_first_payment-completes rsp filled h)
              | inl (noted, f) ↦
                  let b = r.gateway.is_subscription_callback r.callback in
                  let t = take_subscription fl env mocks rsp b noted n.1 in
                  elim (Step-cases t.0) [
                    | inr (a, g) ↦ ground (
                      arith,
                      note_first_payment-completes rsp filled h,
                      take_subscription-completes rsp b noted n.1,
                    )
                    | inl ((order, s), g) ↦ ground (
                      arith,
                      note_first_payment-completes rsp filled h,
                      take_subscription-completes rsp b noted n.1,
                      fill_payment_data-private judged e,
                      note_first_payment-private rsp filled h f,
                      take_subscription-private rsp b noted n.1 g,
                      update_order-completes order t.1,
                    )
                  ]
            ]
      ]

  pub receive-next :
      (req : NotifyRequest) (h : List (Event fl)) {order : Order fl} {callback : PaymentCallback fl}
      {r : Received fl env mocks}
      → env.order_by_id h req.order_id ≡ ok order
      → env.payment_system_by_id h order.payment_system_id ≡ ok handler_cardpay
      → env.payment_callback_of req.request ≡ some callback
      → (receive fl env mocks req h).0 ≡ next r
      → r ≡ record { order = order; gateway = cardpay fl env; callback = callback }
  unfolding receive
  receive-next req h o p c e = ground (arith)

  -- A callback that is received goes to the gateway, and what that makes of it is stored.
  pub payment_callback_process-next :
      (req : NotifyRequest) (h : List (Event fl)) {r : Received fl env mocks}
      → (receive fl env mocks req h).0 ≡ next r
      → let judged =
          r.gateway.process_payment (env.now h) r.order r.callback req.request req.signature in
        payment_callback_process fl env mocks req h
        ≡ store_payment fl env mocks r judged.0 judged.1 h
  unfolding payment_callback_process
  payment_callback_process-next req h e =
      go_on-next _ (receive fl env mocks req h) e (receive-keeps req h)

  unreceived-completes :
      (req : NotifyRequest) (h : List (Event fl)) {a : Answer}
      → (receive fl env mocks req h).0 ≡ done a
      → completes_written (payment_callback_process fl env mocks req h).1 ≡ completes_written h
  unfolding payment_callback_process
  unreceived-completes req h e = ground (arith, receive-keeps req h)

  refused_payment-completes :
      (req : NotifyRequest) (h : List (Event fl)) (order : Order fl) (callback : PaymentCallback fl)
      {refusal : NotifyStatus × Message}
      → let judged =
          process_payment fl env.codec (env.now h) order callback req.request req.signature in
        judged.1 ≡ some refusal → is_complete judged.0.private_status ≡ false
  refused_payment-completes req h order callback f = ground (
    arith,
    process_payment-IsGenuine fl env.codec (env.now h) order callback req.request req.signature,
  )

  -- If the order and the callback are read and the payment system is CardPay, a payment callback
  -- writes an order as complete only if it is signed with the secret of the order, has an allowed
  -- status, and names the payment method, the amount and the currency of the order.
  pub payment_callback_process-IsGenuine :
      (req : NotifyRequest) (h : List (Event fl)) {order : Order fl} {callback : PaymentCallback fl}
      → env.order_by_id h req.order_id ≡ ok order
      → env.payment_system_by_id h order.payment_system_id ≡ ok handler_cardpay
      → env.payment_callback_of req.request ≡ some callback
      → (completes_written (payment_callback_process fl env mocks req h).1 ≡ completes_written h)
        ⊎ IsGenuine fl env.codec order callback req.request req.signature
  payment_callback_process-IsGenuine req h {order} {callback} o p c =
      let judged =
        process_payment fl env.codec (env.now h) order callback req.request req.signature in
      let received : Received fl env mocks = record {
        order = order;
        gateway = cardpay fl env;
        callback = callback;
      } in
      elim (Step-cases (receive fl env mocks req h).0) [
        | inr (a, e) ↦ inl (unreceived-completes req h e)
        | inl (r, e) ↦ elim (Option-cases judged.1) [
          | inl accepted ↦ inr (
              process_payment-accepted fl env.codec (env.now h) order callback req.request
                req.signature accepted)
          | inr (refusal, f) ↦
              let e' : (receive fl env mocks req h).0 ≡ next received =
                subst (λ (x : Received fl env mocks). (receive fl env mocks req h).0 ≡ next x)
                  (receive-next req h o p c e) e in
              let stored =
                store_payment-completes received judged.0 refusal h
                  (refused_payment-completes req h order callback f) in
              inl (
                ap (λ x. completes_written x.1) (payment_callback_process-next req h e')
                ∙ subst
                    (λ x.
                      completes_written (store_payment fl env mocks received judged.0 x h).1
                      ≡ completes_written h)
                    (sym f) stored)
        ]
      ]
