-- ===== src/Accounting/Notified.antt =====
-- What the notifications of a payment and of a refund write (onPaymentNotify and onRefundNotify in
-- internal/service/accounting_entry.go).

use paysuper_billing_server.Base.{
  List, [], ◌∷◌, ◌≡◌, sym, ap, ◌∙◌, subst, arith, inl, inr, ◌⊎◌, Bool-cases,
}
use paysuper_billing_server.Floats.{Floats}
use paysuper_billing_server.Handler.{Result, ok, err, Result-cases}
use paysuper_billing_server.Accounting.{
  EntryType, Error, Country, Entry, Order, Refund, Merchant, Event, Env,
}
use paysuper_billing_server.Accounting.Build.{Basis, Build}
use paysuper_billing_server.Accounting.Adds.{Stamp, Fit, Adds}
use paysuper_billing_server.Accounting.PaymentEvent.{process_payment_event}
use paysuper_billing_server.Accounting.RefundEvent.{process_refund_event}
use paysuper_billing_server.Accounting.Paid.{
  KeepsSign, GainIsNotNegative, order_stamp, payment_basis, payment_types,
  process_payment_event-Adds,
}
use paysuper_billing_server.Accounting.Refunded.{
  Negates, DeltaIsNotNegative, refund_stamp, refund_basis, refund_types, process_refund_event-Adds,
}
use paysuper_billing_server.Accounting.Service.{
  Kind, payment_event, refund_event, built_entries, process_event, on_payment_notify,
  on_refund_notify,
}
use paysuper_billing_server.Accounting.Saved.{
  insertions, process_event-inserts, process_event-refused,
}

module _ {fl : Floats} (given : EntryType → Stamp fl) (Q : EntryType → fl.F → Type 0) where
  -- Nothing is done, or entries of these types are inserted, once, and all of them fit.
  abbrev pub Writes : List EntryType → List (Event fl) → List (Event fl) → Type 0
  Writes ts h h' =
      (h' ≡ h) ⊎ ((es : List (Entry fl)) × (insertions h' ≡ es ∷ insertions h) × Fit given Q ts es)

module _ (fl : Floats) (env : Env fl) where
  open fl use {F}

  abbrev pub entries_of : Result Error (Entry fl × List (Entry fl)) → Result Error (List (Entry fl))
  entries_of (ok x) = ok x.1
  entries_of (err e) = err e

  -- The rest of an event, after what it builds.
  process_event-Writes :
      {given : EntryType → Stamp fl} {Q : EntryType → F → Type 0} {ts : List EntryType}
      (kind : Kind fl) (basis : Basis fl) (h : List (Event fl)) (m : Build fl (Entry fl))
      → built_entries fl env kind basis h ≡ entries_of (m [])
      → Adds given Q ts m
      → Writes given Q ts h (process_event fl env kind basis h).1
  process_event-Writes kind basis h m p adds = elim (Result-cases (m [])) [
    | inr (e, q) ↦
        inl (ap (λ r. r.1) (process_event-refused fl env kind basis h (p ∙ ap entries_of q)))
    | inl ((e, es), q) ↦
        let (es', eq, fit) = adds.at [] q in
        inr (
          es,
          process_event-inserts fl env kind basis h (p ∙ ap entries_of q),
          subst (Fit _ _ _) (sym eq) fit,
        )
  ]

  pub built-payment :
      (order : Order fl) (merchant : Merchant fl) (country : Country) (h : List (Event fl))
      → built_entries fl env payment_event (payment_basis fl order merchant country) h
        ≡ entries_of (
            process_payment_event fl env h
              (payment_basis fl order merchant country)
              order
              country
              [])
  unfolding built_entries
  built-payment order merchant country h = ground (arith)

  pub built-refund :
      (order refund_order : Order fl) (refund : Refund fl) (merchant : Merchant fl)
      (country : Country) (h : List (Event fl))
      → built_entries fl env refund_event
          (refund_basis fl order refund_order refund merchant country)
          h
        ≡ entries_of (
            process_refund_event fl env h
              (refund_basis fl order refund_order refund merchant country)
              order
              refund_order
              refund
              country
              [])
  unfolding built_entries
  built-refund order refund_order refund merchant country h = ground (arith)

  pub on_payment_notify-event :
      (order : Order fl) (h : List (Event fl))
      → ((on_payment_notify fl env order h).1 ≡ h)
        ⊎ ((merchant : Merchant fl) × (country : Country) × (on_payment_notify fl env order h
              ≡ process_event fl env payment_event (payment_basis fl order merchant country) h))
  unfolding on_payment_notify
  on_payment_notify-event order h = elim (Bool-cases (env.is_processable order)) [
    | inr p ↦ inl (ground (arith))
    | inl p ↦ elim (Result-cases (env.country_by_code h order.country)) [
      | inr (e, q) ↦ inl (ground (arith))
      | inl (country, q) ↦ elim (Result-cases (env.merchant_by_id h order.merchant_id)) [
        | inr (e, r) ↦ inl (ground (arith))
        | inl (merchant, r) ↦ inr (merchant, country, ground (arith))
      ]
    ]
  ]

  -- If zero is not below itself and the precision keeps numbers from becoming negative, a
  -- notification of a payment does nothing, or inserts entries once, all together: of fifteen types
  -- in the order of the code, each from the order, of its merchant and company and at its closing,
  -- where the gain by way of the central bank is not negative.
  pub on_payment_notify-Writes :
      (order : Order fl) (h : List (Event fl))
      → KeepsSign fl env.to_precise
      → Writes
          (order_stamp fl order)
          (GainIsNotNegative fl)
          payment_types
          h
          (on_payment_notify fl env order h).1
  on_payment_notify-Writes order h keeps = elim (on_payment_notify-event order h) [
    | inl same ↦ inl same
    | inr (merchant, country, p) ↦
        subst (λ r. Writes (order_stamp fl order) (GainIsNotNegative fl) payment_types h r.1)
          (sym p)
          (process_event-Writes payment_event (payment_basis fl order merchant country) h _
            (built-payment order merchant country h)
            (process_payment_event-Adds fl env h order merchant country keeps))
  ]

  pub on_refund_notify-event :
      (refund : Refund fl) (order : Order fl) (h : List (Event fl))
      → ((on_refund_notify fl env refund order h).1 ≡ h)
        ⊎ ((refund_order : Order fl) × (merchant : Merchant fl) × (country : Country)
            × (env.order_by_id h refund.created_order_id ≡ ok refund_order)
            × (on_refund_notify fl env refund order h
                ≡ process_event fl env refund_event
                    (refund_basis fl order refund_order refund merchant country)
                    h))
  unfolding on_refund_notify
  on_refund_notify-event refund order h = elim (Bool-cases (env.is_processable order)) [
    | inr p ↦ inl (ground (arith))
    | inl p ↦ elim (Result-cases (env.country_by_code h order.country)) [
      | inr (e, q) ↦ inl (ground (arith))
      | inl (country, q) ↦ elim (Result-cases (env.order_by_id h refund.created_order_id)) [
        | inr (e, o) ↦ inl (ground (arith))
        | inl (refund_order, o) ↦
            elim (Result-cases (env.merchant_by_id h refund_order.merchant_id)) [
              | inr (e, r) ↦ inl (ground (arith))
              | inl (merchant, r) ↦ inr (refund_order, merchant, country, o, ground (arith))
            ]
      ]
    ]
  ]

  same_order : {r : Result Error (Order fl)} {a b : Order fl} → r ≡ ok a → r ≡ ok b → a ≡ b
  same_order p q = ground (arith)

  -- If the order that the refund has created is found, zero is not below itself, the precision
  -- keeps numbers from becoming negative, and minus one times a negative number is not negative, a
  -- notification of a refund does nothing, or inserts entries once, all together: of eleven types
  -- in the order of the code, each from the created order, of its merchant and company and at its
  -- closing, where the two deltas of the tax are not negative.
  pub on_refund_notify-Writes :
      (refund : Refund fl) (order refund_order : Order fl) (h : List (Event fl))
      → env.order_by_id h refund.created_order_id ≡ ok refund_order
      → KeepsSign fl env.to_precise
      → Negates fl env.minus_one
      → Writes
          (refund_stamp fl refund refund_order)
          (DeltaIsNotNegative fl)
          refund_types
          h
          (on_refund_notify fl env refund order h).1
  on_refund_notify-Writes refund order refund_order h found keeps negates =
      elim (on_refund_notify-event refund order h) [
        | inl same ↦ inl same
        | inr (o, merchant, country, found', p) ↦
            subst
              (λ r.
                Writes (refund_stamp fl refund refund_order) (DeltaIsNotNegative fl) refund_types h
                  r.1)
              (sym (
                p
                ∙ ap
                    (λ u.
                      process_event fl env refund_event
                        (refund_basis fl order u refund merchant country) h)
                    (same_order found' found)))
              (process_event-Writes refund_event
                (refund_basis fl order refund_order refund merchant country) h _
                (built-refund order refund_order refund merchant country h)
                (process_refund_event-Adds fl env h order refund_order refund merchant country keeps
                  negates))
      ]
