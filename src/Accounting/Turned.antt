-- ===== src/Accounting/Turned.antt =====
-- The payments and refunds that are refused (processPaymentEvent and processRefundEvent in
-- internal/service/accounting_entry.go).
use paysuper_billing_server.Base.{
  true, List, [], ◌≡◌, refl, sym, ap, ◌∙◌, subst, arith, inl, inr, ◌≢◌,
}
use paysuper_billing_server.Floats.{Floats}
use paysuper_billing_server.Handler.{Result, ok, err, Step}
use paysuper_billing_server.Accounting.{
  Error, no_documents, of_order, of_refund, Country, Entry, Order, Refund, Merchant, Event, Env,
}
use paysuper_billing_server.Accounting.Build.{Basis, Build, lift, ◌>>=◌}
use paysuper_billing_server.Accounting.PaymentEvent.{
  process_payment_event, unless_found, payment_entries,
}
use paysuper_billing_server.Accounting.RefundEvent.{process_refund_event, check_new}
use paysuper_billing_server.Accounting.Paid.{payment_basis}
use paysuper_billing_server.Accounting.Refunded.{refund_basis}
use paysuper_billing_server.Accounting.Service.{
  Kind, payment_event, refund_event, built_entries, process_event, on_payment_notify,
  on_refund_notify,
}
use paysuper_billing_server.Accounting.Saved.{process_event-refused}
use paysuper_billing_server.Accounting.Notified.{
  entries_of, built-payment, built-refund, on_payment_notify-event, on_refund_notify-event,
}

module _ {fl : Floats} where
  -- The step ends with an error.
  pub record Fails {A : Type 0} (m : Build fl A) : Type 0 where
    pub at : (s : List (Entry fl)) → (e : Error) × (m s ≡ err e)

module _ {fl : Floats} {A : Type 0} where
  Fails-err : (e : Error) → Fails (lift fl {A = A} (err e))
  unfolding lift
  Fails-err e = record { at = λ s. (e, refl) }

module _ {fl : Floats} {A B : Type 0} where
  -- The steps before the one that fails may fail too.
  Fails-bind :
      (r : Result Error A) (f : A → Build fl B)
      → ((a : A) → r ≡ ok a → Fails (f a))
      → Fails (lift fl r >>= f)
  unfolding ◌>>=◌ lift
  Fails-bind (ok a) f kf = record { at = (kf a refl).at }
  Fails-bind (err e) f kf = record { at = λ s. (e, refl) }

module _ (fl : Floats) (env : Env fl) where
  open fl use {F}

  -- Nothing is done by an event whose entries cannot be built.
  gone :
      (kind : Kind fl) (basis : Basis fl) {h : List (Event fl)} {m : Build fl (Entry fl)}
      {r : Step Error (List (Entry fl)) × List (Event fl)}
      → r ≡ process_event fl env kind basis h
      → built_entries fl env kind basis h ≡ entries_of fl env (m [])
      → Fails m
      → r.1 ≡ h
  gone kind basis {h} p built fails =
      let (e, q) = fails.at [] in
      ap (λ x. x.1) p
      ∙ ap (λ x. x.1) (process_event-refused fl env kind basis h (built ∙ ap (entries_of fl env) q))

  payment-Fails :
      (order : Order fl) (merchant : Merchant fl) (country : Country) (h : List (Event fl))
      {entry : Entry fl}
      → env.entry_by_source h of_order order.id ≡ ok entry
      → Fails
          (process_payment_event fl env h (payment_basis fl order merchant country) order country)
  unfolding process_payment_event
  payment-Fails order merchant country h found =
      subst
        (λ r. Fails (
          unless_found fl env h (payment_basis fl order merchant country) r
            (payment_entries fl env h (payment_basis fl order merchant country) order country)))
        (sym found) (Fails-err _)

  check_new-ok :
      (h : List (Event fl)) (basis : Basis fl) (r : Result Error (Entry fl)) {u : Unit {0}}
      → check_new fl env h basis r ≡ ok u
      → r ≡ err no_documents
  check_new-ok h basis r q = ground (arith)

  created-Fails :
      (order refund_order : Order fl) (refund : Refund fl) (merchant : Merchant fl)
      (country : Country) (h : List (Event fl))
      → env.entry_by_source h of_refund refund.created_order_id ≢ err no_documents
      → Fails (
          process_refund_event fl env h
            (refund_basis fl order refund_order refund merchant country)
            order
            refund_order
            refund
            country)
  unfolding process_refund_event
  created-Fails order refund_order refund merchant country h found = Fails-bind _ _ λ u q.
      elim (found
        (check_new-ok h (refund_basis fl order refund_order refund merchant country) _ q)) [ ]

  exceeding-Fails :
      (order refund_order : Order fl) (refund : Refund fl) (merchant : Merchant fl)
      (country : Country) (h : List (Event fl))
      → fl.less_f env.one (fl.div_f refund.amount order.charge_amount) ≡ true
      → Fails (
          process_refund_event fl env h
            (refund_basis fl order refund_order refund merchant country)
            order
            refund_order
            refund
            country)
  unfolding process_refund_event
  exceeding-Fails order refund_order refund merchant country h exceeds =
      Fails-bind _ _
        λ _ _. Fails-bind _ _ λ _ _. Fails-bind _ _ λ _ _. Fails-bind _ _ λ u q. ground (arith)

  -- A notification of a payment does nothing if an entry of the order is found.
  pub on_payment_notify-once :
      (order : Order fl) (h : List (Event fl)) {entry : Entry fl}
      → env.entry_by_source h of_order order.id ≡ ok entry
      → (on_payment_notify fl env order h).1 ≡ h
  on_payment_notify-once order h found = elim (on_payment_notify-event fl env order h) [
    | inl same ↦ same
    | inr (merchant, country, p) ↦
        gone payment_event (payment_basis fl order merchant country) p
          (built-payment fl env order merchant country h)
          (payment-Fails order merchant country h found)
  ]

  -- A notification of a refund does nothing unless the look for entries of the created order finds
  -- that there is none.
  pub on_refund_notify-once :
      (refund : Refund fl) (order : Order fl) (h : List (Event fl))
      → env.entry_by_source h of_refund refund.created_order_id ≢ err no_documents
      → (on_refund_notify fl env refund order h).1 ≡ h
  on_refund_notify-once refund order h found = elim (on_refund_notify-event fl env refund order h) [
    | inl same ↦ same
    | inr (refund_order, merchant, country, _, p) ↦
        gone refund_event (refund_basis fl order refund_order refund merchant country) p
          (built-refund fl env order refund_order refund merchant country h)
          (created-Fails order refund_order refund merchant country h found)
  ]

  -- A notification of a refund does nothing if its amount divided by the charged amount of the
  -- order is above one.
  pub on_refund_notify-exceeding :
      (refund : Refund fl) (order : Order fl) (h : List (Event fl))
      → fl.less_f env.one (fl.div_f refund.amount order.charge_amount) ≡ true
      → (on_refund_notify fl env refund order h).1 ≡ h
  on_refund_notify-exceeding refund order h exceeds =
      elim (on_refund_notify-event fl env refund order h) [
        | inl same ↦ same
        | inr (refund_order, merchant, country, _, p) ↦
            gone refund_event (refund_basis fl order refund_order refund merchant country) p
              (built-refund fl env order refund_order refund merchant country h)
              (exceeding-Fails order refund_order refund merchant country h exceeds)
      ]
