-- ===== src/Accounting/Rebuilt.antt =====
-- What is answered when entries are made again (RebuildAccountingEntries in
-- internal/service/accounting_entry.go).
use paysuper_billing_server.Base.{false, some, List, ◌≡◌, ◌≢◌, refl, ap, ◌∙◌, arith, if◌then◌else◌}
use paysuper_billing_server.Base.Text.{String, str_eq}
use paysuper_billing_server.Floats.{Floats}
use paysuper_billing_server.Handler.{ok, err, next, done, go_on, try_call, return_with}
use paysuper_billing_server.Accounting.{
  Error, panic, no_documents, message, other_error, Order, Refund, Event, Env,
}
use paysuper_billing_server.Accounting.Service.{on_refund_notify}
use paysuper_billing_server.Accounting.Create.{
  notify_refund, refund_notified, notify_again, rebuild_accounting_entries, notify_payment,
}

module _ (fl : Floats) (env : Env fl) where
  refund_notified-quiet :
      (e : Error) (h : List (Event fl))
      → e ≢ panic
      → refund_notified fl env (err e) h ≡ (next tt, h)
  refund_notified-quiet panic h p = elim (p refl) [ ]
  refund_notified-quiet no_documents h p = refl
  refund_notified-quiet (message m) h p = refl
  refund_notified-quiet other_error h p = refl

  rebuilt-again :
      (order_id : String) (order : Order fl) (h : List (Event fl))
      → str_eq order_id "" ≡ false
      → env.order_by_id h order_id ≡ ok order
      → rebuild_accounting_entries fl env order_id false h ≡ notify_again fl env order h
  unfolding rebuild_accounting_entries
  rebuilt-again order_id order h p q = ground (arith)

  again-refund :
      (order : Order fl) (h : List (Event fl))
      → order.type_of ≡ "refund"
      → notify_again fl env order h ≡ notify_refund fl env order h
  unfolding notify_again
  again-refund order h p =
      ap
        (λ s.
          (if str_eq s "order"
              then notify_payment fl env order
              else if str_eq s "refund"
              then notify_refund fl env order
              else return_with other_error)
            h)
        p

  refund-notified :
      (order : Order fl) (number : String) (refund : Refund fl) (h : List (Event fl))
      → order.receipt_number ≡ some number
      → env.refund_by_id h number ≡ ok refund
      → notify_refund fl env order h
        ≡ go_on (refund_notified fl env) (try_call (on_refund_notify fl env refund order) h)
  unfolding notify_refund
  refund-notified order number refund h p q = ground (arith)

  -- Where the notification of a refund fails with an error, its entries are reported as made again.
  pub rebuild_accounting_entries-unnoticed :
      (order_id : String) (order : Order fl) (number : String) (refund : Refund fl) (e : Error)
      (h h' : List (Event fl))
      → str_eq order_id "" ≡ false
      → env.order_by_id h order_id ≡ ok order
      → order.type_of ≡ "refund"
      → order.receipt_number ≡ some number
      → env.refund_by_id h number ≡ ok refund
      → on_refund_notify fl env refund order h ≡ (done e, h')
      → e ≢ panic
      → rebuild_accounting_entries fl env order_id false h ≡ (next tt, h')
  unfolding rebuild_accounting_entries notify_again
  rebuild_accounting_entries-unnoticed order_id order number refund e h h' given found type receipt
        refunded failed not_panic =
      rebuilt-again order_id order h given found
      ∙ (again-refund order h type
          ∙ (refund-notified order number refund h receipt refunded
              ∙ (ap
                    (λ x.
                      go_on (refund_notified fl env)
                        (next (elim x.0 [ next a ↦ ok a | done r ↦ err r ]), x.1))
                    failed
                  ∙ refund_notified-quiet e h' not_panic)))
