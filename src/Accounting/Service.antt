-- ===== src/Accounting/Service.antt =====
-- The events that make entries, and the notifications of a payment and of a refund (processEvent,
-- processManualCorrectionEvent, onPaymentNotify and onRefundNotify in
-- internal/service/accounting_entry.go).
use paysuper_billing_server.Base.{ℕ, Option, none, some, List, [], if◌then◌else◌, not}
use paysuper_billing_server.Base.Int.{ℤ}
use paysuper_billing_server.Base.Text.{String}
use paysuper_billing_server.Floats.{Floats}
use paysuper_billing_server.Handler.{Handler, Result, ok, err, ◌>>=◌, ◌>>◌, pure, ask, or_return}
use paysuper_billing_server.Accounting.{
  EntryType, of_merchant, merchant_not_found, Error, panic, message, other_error, Entry, Order,
  Refund, Merchant, Event, Env,
}
use paysuper_billing_server.Accounting.Add.{add_entry}
use paysuper_billing_server.Accounting.Build.{Basis, Build, new_entry}
use paysuper_billing_server.Accounting.PaymentEvent.{process_payment_event}
use paysuper_billing_server.Accounting.RefundEvent.{process_refund_event}
use paysuper_billing_server.Accounting.Save.{save_accounting_entries}

-- A request to create an entry (`CreateAccountingEntryRequest`).
pub record CreateRequest (F : Type 0) : Type 0 where
  pub type_of : EntryType
  pub order_id : String
  pub refund_id : String
  pub merchant_id : String
  pub country : String
  pub amount : F
  pub currency : String
  pub reason : String
  pub status : String
  pub date : ℤ

module _ (fl : Floats) where
  open fl use {F}

  -- The three kinds of an event. Any other text is refused (`accountingEntryUnknownEvent`), and no
  -- caller gives one.
  pub data Kind : Type 0 where
    payment_event refund_event : Kind
    manual_correction : CreateRequest F → Kind

module _ (fl : Floats) (env : Env fl) where
  open fl use {F}

  abbrev pub from_merchant : Option (Merchant fl) → Entry fl → Entry fl
  from_merchant none entry = entry
  from_merchant (some merchant) entry = record entry {
    source = some (of_merchant, merchant.id);
    merchant_id = merchant.id;
  }

  abbrev pub corrected : List (Event fl) → Basis fl → CreateRequest F → Option ℕ → Entry fl
  corrected h basis req created_at =
      from_merchant basis.merchant (record (new_entry fl env h basis req.type_of) {
        amount = req.amount;
        currency = req.currency;
        reason = req.reason;
        status = req.status;
        created_at = created_at;
      })

  unfoldable pub process_manual_correction_event :
      List (Event fl) → Basis fl → CreateRequest F → Build fl (Entry fl)
  process_manual_correction_event h basis req es = elim (env.timestamp_proto req.date) [
    | none ↦ err other_error
    | some t ↦ add_entry fl env h basis (corrected h basis req (some t)) es
  ]

  -- The documents that an event is about: it panics without one.
  abbrev process_payment : List (Event fl) → Basis fl → Build fl (Entry fl)
  process_payment h basis es = elim basis.order [
    | none ↦ err panic
    | some order ↦ elim basis.country [
      | none ↦ err panic
      | some country ↦ process_payment_event fl env h basis order country es
    ]
  ]

  abbrev process_refund : List (Event fl) → Basis fl → Build fl (Entry fl)
  process_refund h basis es = elim basis.order [
    | none ↦ err panic
    | some order ↦ elim basis.refund_order [
      | none ↦ err panic
      | some refund_order ↦ elim basis.refund [
        | none ↦ err panic
        | some refund ↦ elim basis.country [
          | none ↦ err panic
          | some country ↦ process_refund_event fl env h basis order refund_order refund country es
        ]
      ]
    ]
  ]

  abbrev entries_for : Kind fl → List (Event fl) → Basis fl → Build fl (Entry fl)
  unfolding process_manual_correction_event
  entries_for payment_event h basis = process_payment h basis
  entries_for refund_event h basis = process_refund h basis
  entries_for (manual_correction req) h basis = process_manual_correction_event h basis req

  -- The entries that an event adds.
  unfoldable pub built_entries :
      Kind fl → Basis fl → List (Event fl) → Result Error (List (Entry fl))
  unfolding process_manual_correction_event
  built_entries kind basis h = elim (entries_for kind h basis []) [
    | err e ↦ err e
    | ok (_, es) ↦ ok es
  ]

  -- The entries are answered too, for the caller to read.
  unfoldable pub process_event : Kind fl → Basis fl → Handler (Event fl) Error (List (Entry fl))
  unfolding built_entries save_accounting_entries
  process_event kind basis = do
    built ← ask (built_entries kind basis)
    entries ← or_return built (λ e. e)
    save_accounting_entries fl env basis entries
    pure entries

  abbrev merchant_missing : Error → Error
  merchant_missing e = message merchant_not_found

  -- Nothing is done for an order whose status is not processable.
  unfoldable pub on_payment_notify : Order fl → Handler (Event fl) Error (List (Entry fl))
  unfolding process_event
  on_payment_notify order = if not (env.is_processable order) then pure [] else do
    found ← ask (λ h. env.country_by_code h order.country)
    country ← or_return found (λ e. e)
    found ← ask (λ h. env.merchant_by_id h order.merchant_id)
    merchant ← or_return found merchant_missing
    process_event payment_event (record {
      order = some order;
      refund = none;
      refund_order = none;
      merchant = some merchant;
      country = some country;
      datetime = order.closed_at;
    })

  unfoldable pub on_refund_notify :
      Refund fl → Order fl → Handler (Event fl) Error (List (Entry fl))
  unfolding process_event
  on_refund_notify refunded order = if not (env.is_processable order) then pure [] else do
    found ← ask (λ h. env.country_by_code h order.country)
    country ← or_return found (λ e. e)
    found ← ask (λ h. env.order_by_id h refunded.created_order_id)
    refund_order ← or_return found (λ e. e)
    found ← ask (λ h. env.merchant_by_id h refund_order.merchant_id)
    merchant ← or_return found merchant_missing
    process_event refund_event (record {
      order = some order;
      refund = some refunded;
      refund_order = some refund_order;
      merchant = some merchant;
      country = some country;
      datetime = refund_order.closed_at;
    })
