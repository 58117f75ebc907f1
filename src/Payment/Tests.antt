-- ===== src/Payment/Tests.antt =====
-- The theorems on payments and refunds at concrete documents.
use paysuper_billing_server.Base.{ℕ, ◌≡◌, refl, some, List, [], ◌∷◌, ◌⊎◌, arith}
use paysuper_billing_server.Base.Text.{String}
use paysuper_billing_server.Settlement.Sample.{whole}
use paysuper_billing_server.Payment.{
  payment_system_reject, refund_rejected, refund_in_progress, project_in_progress,
  payment_system_complete, Order, Refund, refund_inserted, refund_updated, refund_sent,
}
use paysuper_billing_server.Payment.Requisites.{fill_payment_data}
use paysuper_billing_server.Payment.Callback.{payment_callback_process}
use paysuper_billing_server.Payment.Genuine.{IsGenuine, IsGenuineRefund}
use paysuper_billing_server.Payment.Stored.{completes_written, payment_callback_process-IsGenuine}
use paysuper_billing_server.Payment.Forged.{last_written, payment_callback_process-forged}
use paysuper_billing_server.Payment.View.{cut, AreBatches, cut-enough}
use paysuper_billing_server.Payment.Refunding.{
  create_refund, process_order, has_money_back_costs, process_refunds_by_order, insert_refund,
  process_create_refund, send_refund, store_refund,
}
use paysuper_billing_server.Payment.Sending as Sending
use paysuper_billing_server.Payment.Asked.{IsRefundable, IsWhole, create_refund-taken}
use paysuper_billing_server.Payment.Reversal.{process_refund_callback}
use paysuper_billing_server.Payment.Reversed.{
  IsFound, undone_written, process_refund_callback-IsGenuine, process_refund_callback-forged,
}
use paysuper_billing_server.Payment.Inserted.{InsertsOnce, process_refund_callback-once}
use paysuper_billing_server.Payment.Sample.{
  order_with, refund_of, payment_of, refunding_of, paying, refunding, mocks, notify_with,
  callback_with, refund_request,
}

payment_callback_process-IsGenuine_example :
    (completes_written (payment_callback_process whole paying mocks (notify_with "s") []).1
      ≡ completes_written [])
    ⊎ IsGenuine whole paying.codec (order_with project_in_progress) payment_of "{}" "s"
payment_callback_process-IsGenuine_example =
    payment_callback_process-IsGenuine whole paying mocks (notify_with "s") [] refl refl refl

payment_callback_process-forged_example :
    (o : Order whole) × (last_written
        (payment_callback_process whole paying mocks (notify_with "x") []).1
      ≡ some o)
    × (o.id ≡ "o")
    × (o.private_status ≡ payment_system_reject)
unfolding fill_payment_data
payment_callback_process-forged_example =
    payment_callback_process-forged whole paying mocks (notify_with "x") [] refl refl refl refl refl
      refl refl refl refl

abbrev found_with :
    (s : String)
    → IsFound whole refunding mocks
        (callback_with s)
        []
        refunding_of
        (refund_of "")
        (order_with payment_system_complete)
found_with s = record {
  handler = refl;
  parsed = refl;
  id = "r";
  named = refl;
  stored = refl;
  original = refl;
  method = refl;
}

process_refund_callback-IsGenuine_example :
    (undone_written (process_refund_callback whole refunding mocks (callback_with "s") []).1
      ≡ undone_written [])
    ⊎ IsGenuineRefund whole refunding.codec
        (order_with payment_system_complete)
        (refund_of "")
        refunding_of
        "{}"
        "s"
process_refund_callback-IsGenuine_example =
    process_refund_callback-IsGenuine whole refunding mocks (callback_with "s") [] (found_with "s")
      refl

process_refund_callback-forged_example :
    (process_refund_callback whole refunding mocks (callback_with "x") []).1
    ≡ refund_updated (record (refund_of "") { status = refund_rejected }) ∷ []
process_refund_callback-forged_example =
    process_refund_callback-forged whole refunding mocks (callback_with "x") [] (found_with "x")
      refl

process_refund_callback-once_example :
    InsertsOnce whole refunding mocks
      (order_with payment_system_complete)
      (refund_of "")
      []
      (process_refund_callback whole refunding mocks (callback_with "s") []).1
process_refund_callback-once_example =
    process_refund_callback-once whole refunding mocks (callback_with "s") [] (found_with "s")

cut-enough_example :
    (batches : List (List ℕ)) × (cut 3 2 (1 ∷ 2 ∷ 3 ∷ []) ≡ some batches)
    × AreBatches 2 (1 ∷ 2 ∷ 3 ∷ []) batches
cut-enough_example = cut-enough 3 2 (1 ∷ 2 ∷ 3 ∷ []) (omega arith) (omega arith)

abbrev first_refund : Refund whole
first_refund = record (refund_of "") {
  id = "new";
  creator_id = "c";
  reason = "o";
  created_at = 9;
  updated_at = 9;
}

abbrev taken_refund : Refund whole
taken_refund = record first_refund { status = refund_in_progress; external_id = "x" }

create_refund-taken_example :
    (first : Refund whole) × IsRefundable whole refunding mocks refund_request []
      (order_with payment_system_complete)
    × IsWhole whole refunding mocks (order_with payment_system_complete) first
    × (taken_refund ≡ record first { status = refund_in_progress; external_id = "x" })
    × ((create_refund whole refunding mocks refund_request []).1
        ≡ refund_updated taken_refund
          ∷ refund_sent
              (order_with payment_system_complete)
              (record first { status = refund_rejected })
          ∷ refund_inserted first
          ∷ [])
unfolding create_refund process_create_refund process_order has_money_back_costs
    process_refunds_by_order insert_refund send_refund store_refund Sending.create_refund
create_refund-taken_example =
    create_refund-taken whole refunding mocks refund_request [] refl refl refl
