-- ===== src/Accounting/RefundEvent.antt =====
-- The entries of a refund (processRefundEvent in internal/service/accounting_entry.go), in the
-- segments of their numbers. What a segment answers is what the later ones read.
use paysuper_billing_server.Base.{List, if◌then◌else◌, ◌&&◌}
use paysuper_billing_server.Base.Text.{String}
use paysuper_billing_server.Floats.{Floats}
use paysuper_billing_server.Handler.{Result, ok, err}
use paysuper_billing_server.Accounting.{
  real_tax_fee, merchant_tax_fee_cost_value, merchant_tax_fee_central_bank_fx, real_refund,
  real_refund_tax_fee, real_refund_fee, real_refund_fixed_fee, merchant_refund, merchant_refund_fee,
  merchant_refund_fixed_fee_cost_value, merchant_refund_fixed_fee, reverse_tax_fee,
  reverse_tax_fee_delta, ps_reverse_tax_fee_delta, other_type, EntryType, of_order, of_refund,
  already_created, original_tax_not_found, refund_exceeds_order_amount, Error, no_documents,
  message, Country, Entry, Order, Refund, MoneyBackCost, Event, Env,
}
use paysuper_billing_server.Accounting.Add.{add_entry}
use paysuper_billing_server.Accounting.Build.{
  Basis, Build, pure, lift, ◌>>=◌, new_entry, get_exchange_ps_common, get_exchange_ps_merchant,
}
use paysuper_billing_server.Accounting.Costs.{
  get_money_back_cost_merchant, get_money_back_cost_system,
}
use paysuper_billing_server.Accounting.PaymentEvent.{
  add_amount, add_charged, tax_part, fixed_fee, central_bank_gain,
}

module _ (fl : Floats) (env : Env fl) (h : List (Event fl)) (basis : Basis fl) where
  open fl use {F, zero_f, less_f, add_f, sub_f, mul_f, div_f}

  -- The share of the order that is refunded.
  abbrev partial_correction : Order fl → Refund fl → F
  partial_correction order refund = div_f refund.amount order.charge_amount

  -- The stored entry of a type that the order has.
  unfoldable pub stored : EntryType → Order fl → Result Error (Entry fl)
  stored t order = env.apply_source h t of_order order.id (new_entry fl env h basis (other_type ""))

  abbrev or_tax_not_found : Result Error (Entry fl) → Result Error (Entry fl)
  or_tax_not_found (ok entry) = ok entry
  or_tax_not_found (err no_documents) = err (message original_tax_not_found)
  or_tax_not_found (err e) = err e

  -- The share of the tax. The amount in the local currency is its share too, unless the refund is
  -- a deduction.
  abbrev pub refunded_tax : Order fl → Entry fl → F → Entry fl
  refunded_tax refund_order tax part =
      let base : Entry fl = record (new_entry fl env h basis real_refund_tax_fee) {
        amount = mul_f tax.amount part;
        currency = tax.currency;
        original_amount = mul_f tax.original_amount part;
        original_currency = tax.original_currency;
      } in
      if refund_order.is_vat_deduction then base else record base {
        local_amount = mul_f tax.local_amount part;
        local_currency = tax.local_currency;
      }

  unfoldable pub add_refunded_tax : Order fl → Order fl → F → Build fl (Entry fl)
  unfolding stored
  add_refunded_tax order refund_order part =
      lift fl (or_tax_not_found (stored real_tax_fee order)) >>= λ tax.
      add_entry fl env h basis (refunded_tax refund_order tax part)

  -- 1 to 4: what the refund costs really.
  unfoldable pub real_refund_entries :
      Order fl → Order fl → Refund fl → MoneyBackCost fl → Build fl (Entry fl)
  unfolding add_refunded_tax
  real_refund_entries order refund_order refund system =
      lift fl (get_exchange_ps_common fl env h basis order refund.currency refund.amount)
      >>= λ amount.
          add_charged fl env h basis real_refund refund.amount refund.currency amount >>= λ real.
          add_refunded_tax order refund_order (partial_correction order refund) >>= λ _.
          add_amount fl env h basis real_refund_fee (mul_f real.amount system.percent) >>= λ _.
          fixed_fee fl env h basis real_refund_fixed_fee (
            get_exchange_ps_common fl env h basis order system.fix_amount_currency
              system.fix_amount)

  -- The amount of a fee that is zero unless the merchant pays it.
  abbrev if_paid : MoneyBackCost fl → Result Error F → Result Error F
  if_paid cost amount = if cost.is_paid_by_merchant then amount else ok zero_f

  -- 5 to 10: what the merchant is charged. The amount of its refund is answered.
  unfoldable pub merchant_refund_entries :
      Order fl → Refund fl → MoneyBackCost fl → Build fl (Entry fl)
  merchant_refund_entries order refund cost =
      lift fl (get_exchange_ps_merchant fl env h basis order refund.currency refund.amount)
      >>= λ amount. add_amount fl env h basis merchant_refund amount >>= λ refunded.
          lift fl (if_paid cost (ok (mul_f refunded.amount cost.percent))) >>= λ fee.
          add_amount fl env h basis merchant_refund_fee fee >>= λ _.
          lift fl (
            if_paid cost (
              get_exchange_ps_common fl env h basis order cost.fix_amount_currency cost.fix_amount))
          >>= λ cost_value.
              lift fl (
                if_paid cost (
                  get_exchange_ps_merchant fl env h basis order cost.fix_amount_currency
                    cost.fix_amount))
              >>= λ fixed.
                  add_amount fl env h basis merchant_refund_fixed_fee_cost_value cost_value >>= λ _.
                  add_amount fl env h basis merchant_refund_fixed_fee fixed >>= λ _.
                  pure fl refunded

  abbrev pub reversed_tax : Entry fl → Entry fl → F → Entry fl
  reversed_tax cost fx part = record (new_entry fl env h basis reverse_tax_fee) {
    amount = mul_f (add_f cost.amount fx.amount) part;
    original_amount = mul_f (add_f cost.original_amount fx.amount) part;
    original_currency = cost.original_currency;
    local_amount = mul_f (add_f cost.local_amount fx.amount) part;
    local_currency = cost.local_currency;
  }

  -- 13: the tax that is given back. The gain by the central bank at the payment is answered, zero
  -- without VAT.
  unfoldable pub reverse_tax : Order fl → Country → F → Build fl F
  unfolding stored
  reverse_tax order country part =
      if country.vat_enabled
      then (lift fl (stored merchant_tax_fee_cost_value order) >>= λ cost.
          lift fl (stored merchant_tax_fee_central_bank_fx order) >>= λ fx.
          add_entry fl env h basis (reversed_tax cost fx part) >>= λ _. pure fl fx.amount)
      else (add_entry fl env h basis (new_entry fl env h basis reverse_tax_fee) >>= λ _.
          pure fl zero_f)

  -- The amounts of the merchant and of PaySuper, of which one is zero.
  unfoldable pub split_delta : F → F × F
  split_delta result =
      if less_f result zero_f then (zero_f, mul_f env.minus_one result) else (result, zero_f)

  unfoldable pub delta_amounts : Order fl → Country → F → F → Result Error (F × F)
  unfolding split_delta
  delta_amounts order country refunded gain =
      if country.vat_enabled && less_f zero_f gain
      then elim (tax_part fl env h basis order refunded) [
        | err e ↦ err e
        | ok restored ↦ elim (central_bank_gain fl env h basis order country restored) [
          | err e ↦ err e
          | ok new_gain ↦ ok (split_delta (sub_f gain new_gain))
        ]
      ]
      else ok (zero_f, zero_f)

  -- 14 and 15: what the rates of the tax have changed by.
  unfoldable pub add_deltas : Order fl → Country → F → F → Build fl (Entry fl)
  unfolding delta_amounts
  add_deltas order country refunded gain =
      lift fl (delta_amounts order country refunded gain) >>= λ deltas.
      add_amount fl env h basis reverse_tax_fee_delta deltas.0 >>= λ _.
      add_amount fl env h basis ps_reverse_tax_fee_delta deltas.1

  unfoldable pub refund_entries :
      Order fl
      → Order fl
      → Refund fl
      → Country
      → MoneyBackCost fl
      → MoneyBackCost fl
      → Build fl (Entry fl)
  unfolding real_refund_entries merchant_refund_entries reverse_tax add_deltas
  refund_entries order refund_order refund country cost system =
      real_refund_entries order refund_order refund system >>= λ _.
      merchant_refund_entries order refund cost >>= λ refunded.
      reverse_tax order country (partial_correction order refund) >>= λ gain.
      add_deltas order country refunded.amount gain

  abbrev undo_reason : Refund fl → String
  undo_reason refund = if refund.is_chargeback then "chargeback" else "reversal"

  abbrev pub check_amount : Order fl → Refund fl → Result Error (Unit {0})
  check_amount order refund =
      if less_f env.one (partial_correction order refund)
      then err (message refund_exceeds_order_amount)
      else ok tt

  -- Only that no entry was found lets the event go on.
  abbrev pub check_new : Result Error (Entry fl) → Result Error (Unit {0})
  check_new (ok found) = err (message already_created)
  check_new (err no_documents) = ok tt
  check_new (err e) = err e

  unfoldable pub process_refund_event :
      Order fl → Order fl → Refund fl → Country → Build fl (Entry fl)
  unfolding refund_entries
  process_refund_event order refund_order refund country =
      lift fl (check_new (env.entry_by_source h of_refund refund.created_order_id)) >>= λ _.
      lift fl
        (get_money_back_cost_merchant fl env h basis order refund country (undo_reason refund))
      >>= λ cost.
          lift fl
            (get_money_back_cost_system fl env h basis order refund country (undo_reason refund))
          >>= λ system. lift fl (check_amount order refund) >>= λ _.
              refund_entries order refund_order refund country cost system
