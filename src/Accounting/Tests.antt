-- ===== src/Accounting/Tests.antt =====
-- Tests of the entries, and the theorems at the service of the sample.
use paysuper_billing_server.Accounting.Add.{add_entry}
use paysuper_billing_server.Accounting.Costs.{
  get_payment_channel_cost_merchant, get_payment_channel_cost_system,
}
use paysuper_billing_server.Accounting.Build.{
  lift, ◌>>=◌, get_exchange_ps_common, new_entry, get_exchange_ps_merchant, get_exchange_cb_common,
  get_exchange_stock_common,
}
use paysuper_billing_server.Accounting.PaymentEvent.{
  process_payment_event, add_charged, add_amount, tax_part, tax_fx,
}
use paysuper_billing_server.Accounting.RefundEvent.{process_refund_event}
use paysuper_billing_server.Base.{Bool, true, false, [], ◌∷◌, ◌≡◌, refl, length, map, arith}
use paysuper_billing_server.Base.Int.{ℤ, pos, negsuc}
use paysuper_billing_server.Handler.{Result, ok, err, next}
use paysuper_billing_server.Accounting.{
  merchant_royalty_correction, other_error, message, Error, Entry, Env, already_created,
}
use paysuper_billing_server.Accounting.Paid.{
  KeepsSign, GainIsNotNegative, order_stamp, payment_types,
}
use paysuper_billing_server.Accounting.Refunded.{
  Negates, DeltaIsNotNegative, refund_stamp, refund_types,
}
use paysuper_billing_server.Accounting.Service.{
  CreateRequest, on_payment_notify, on_refund_notify, process_event, built_entries,
}
use paysuper_billing_server.Accounting.Create.{create_accounting_entry, rebuild_accounting_entries}
use paysuper_billing_server.Accounting.Fix.{fix_taxes}
use paysuper_billing_server.Accounting.Saved.{insertions}
use paysuper_billing_server.Accounting.Notified.{
  Writes, on_payment_notify-Writes, on_refund_notify-Writes,
}
use paysuper_billing_server.Accounting.Turned.{
  on_payment_notify-once, on_refund_notify-once, on_refund_notify-exceeding,
}
use paysuper_billing_server.Accounting.Created.{Inserts, create_accounting_entry-Inserts}
use paysuper_billing_server.Accounting.Rebuilt.{rebuild_accounting_entries-unnoticed}
use paysuper_billing_server.Accounting.Fixes.{Rewrites, fix_taxes-Rewrites}
use paysuper_billing_server.Accounting.Sample.{
  signed, order, refund, refund_order, sample, stored_entry,
}

sample-KeepsSign : KeepsSign signed sample.to_precise
sample-KeepsSign = (refl, λ a p. p)

sample-Negates : Negates signed sample.minus_one
sample-Negates (pos n) p = ground (arith)
sample-Negates (negsuc n) p = ground (arith)

on_payment_notify-Writes_example :
    Writes
      (order_stamp signed order)
      (GainIsNotNegative signed)
      payment_types
      []
      (on_payment_notify signed sample order []).1
on_payment_notify-Writes_example = on_payment_notify-Writes signed sample order [] sample-KeepsSign

on_refund_notify-Writes_example :
    Writes
      (refund_stamp signed refund refund_order)
      (DeltaIsNotNegative signed)
      refund_types
      []
      (on_refund_notify signed sample refund order []).1
on_refund_notify-Writes_example =
    on_refund_notify-Writes signed sample refund order refund_order [] refl sample-KeepsSign
      sample-Negates

-- A service that has an entry of every source.
abbrev taken : Env signed
taken = record sample { entry_by_source = λ h t id. ok stored_entry }

on_payment_notify-once_example : (on_payment_notify signed taken order []).1 ≡ []
on_payment_notify-once_example = on_payment_notify-once signed taken order [] refl

abbrev is_stored : Result Error (Entry signed) → Bool
is_stored (ok e) = true
is_stored (err e) = false

on_refund_notify-once_example : (on_refund_notify signed taken refund order []).1 ≡ []
on_refund_notify-once_example =
    on_refund_notify-once signed taken refund order [] (λ p. ground (arith))

on_refund_notify-exceeding_example :
    (on_refund_notify signed sample (record refund { amount = pos 2 }) order []).1 ≡ []
on_refund_notify-exceeding_example =
    on_refund_notify-exceeding signed sample (record refund { amount = pos 2 }) order [] refl

abbrev correction : CreateRequest ℤ
correction = record {
  type_of = merchant_royalty_correction;
  order_id = "";
  refund_id = "";
  merchant_id = "m1";
  country = "";
  amount = pos 12;
  currency = "USD";
  reason = "mistake";
  status = "available";
  date = pos 8;
}

create_accounting_entry-Inserts_example :
    Inserts signed sample correction [] (create_accounting_entry signed sample correction []).1
create_accounting_entry-Inserts_example =
    create_accounting_entry-Inserts signed sample correction []

rebuild_accounting_entries-unnoticed_example :
    rebuild_accounting_entries signed taken "o2" false [] ≡ (next tt, [])
unfolding on_refund_notify process_event built_entries process_refund_event lift ◌>>=◌
rebuild_accounting_entries-unnoticed_example =
    rebuild_accounting_entries-unnoticed signed taken "o2" refund_order "f1" refund
      (message already_created) [] [] refl refl refl refl refl refl (λ p. ground (arith))

-- A service whose currency service has no rates.
abbrev no_rates : Env signed
no_rates = record sample { exchange = λ h req. err other_error }

fix_taxes-Rewrites_example : Rewrites signed sample [] (fix_taxes signed sample []).1
fix_taxes-Rewrites_example = fix_taxes-Rewrites signed sample []

-- A payment of the sample is written in fifteen entries.
payment_size : map length (insertions (on_payment_notify signed sample order []).1) ≡ 15 ∷ []
unfolding on_payment_notify process_payment_event ◌>>=◌ get_exchange_ps_common add_charged add_entry
    new_entry add_amount get_exchange_ps_merchant tax_part tax_fx get_exchange_cb_common
    get_exchange_stock_common get_payment_channel_cost_merchant get_payment_channel_cost_system
payment_size = refl
