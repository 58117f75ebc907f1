-- ===== src/Settlement/Tests.antt =====
-- The theorems on payouts, balances and royalty reports at concrete documents.
use paysuper_billing_server.Base.{◌≡◌, refl, Bool, true, false, [], ◌∷◌, ◌⊎◌, inr}
use paysuper_billing_server.Handler.{ok}
use paysuper_billing_server.Settlement.{Merchant, balance_inserted}
use paysuper_billing_server.Settlement.Balance.{
  update_merchant_balance, get_rolling_reserve_for_balance, sum_reserve, get_merchant_balance,
}
use paysuper_billing_server.Settlement.Sources.{
  change_reports, check_sources, get_payout_document_sources, royalty_report_set_paid,
  royalty_report_unset_paid, royalty_report_set_payout_document_id, is_non_payout,
}
use paysuper_billing_server.Settlement.Create.{
  CreateRequest, add_report, add_reports, round_sums, build_payout, check_amount, finish_payout,
  store_payout, create_payout_document,
}
use paysuper_billing_server.Settlement.Update.{
  update_payout_document, check_status_change, write_change, carry_out, refresh_balance, changed,
  is_changed, is_status_change, becomes_paid, becomes_failed, needs_balance_update,
}
use paysuper_billing_server.Settlement.Review.{
  ReviewRequest, reviewed, merchant_review_royalty_report, accept_report, accept_reports,
  auto_accept_royalty_reports, royalty_report_changed_email, on_royalty_report_status_changed,
}
use paysuper_billing_server.Settlement.Record.{
  reports_written, payouts_written, balances_written, HasNew,
}
use paysuper_billing_server.Settlement.Transition.{IsAllowed, update_payout_document-once}
use paysuper_billing_server.Settlement.Payment.{
  IsPaidBy, update_payout_document-pays, update_payout_document-frees,
  update_payout_document-keeps_balance,
}
use paysuper_billing_server.Settlement.Money.{IsMadeFor, update_merchant_balance-writes}
use paysuper_billing_server.Settlement.Taken.{
  IsPayable, IsTakenBy, create_payout_document-IsPayable, create_payout_document-takes,
}
use paysuper_billing_server.Settlement.Decision.{
  IsAutoAccepted, merchant_review_royalty_report-any_merchant, merchant_review_royalty_report-once,
  auto_accept_royalty_reports-accepts,
}
use paysuper_billing_server.Settlement.Sample.{
  whole, report_with, payout_with, merchant, balance, accepted, unreviewed, change_to,
  accepted-IsFoundById,
}

update_payout_document-once_example :
    (payouts_written (update_payout_document whole accepted (change_to "paid") []).1 ≡ [])
    ⊎ ((payouts_written (update_payout_document whole accepted (change_to "paid") []).1
          ≡ changed whole (change_to "paid") 9 (payout_with "pending") ∷ [])
        × IsAllowed whole accepted (change_to "paid") (payout_with "pending"))
unfolding payouts_written
update_payout_document-once_example =
    update_payout_document-once whole accepted (change_to "paid") [] refl

update_payout_document-pays_example :
    HasNew whole accepted
      (IsPaidBy whole accepted "p")
      ("r1" ∷ "r2" ∷ [])
      []
      (reports_written (update_payout_document whole accepted (change_to "paid") []).1)
unfolding reports_written update_payout_document check_status_change carry_out write_change
    refresh_balance changed is_changed is_status_change becomes_paid becomes_failed
    needs_balance_update update_merchant_balance get_rolling_reserve_for_balance sum_reserve
    royalty_report_set_paid change_reports
update_payout_document-pays_example =
    update_payout_document-pays whole accepted accepted-IsFoundById (change_to "paid") [] refl refl
      refl

update_payout_document-frees_example :
    HasNew whole accepted
      (λ r. is_non_payout whole r ≡ true)
      ("r1" ∷ "r2" ∷ [])
      []
      (reports_written (update_payout_document whole accepted (change_to "canceled") []).1)
unfolding reports_written update_payout_document check_status_change carry_out write_change
    refresh_balance changed is_changed is_status_change becomes_paid becomes_failed
    needs_balance_update royalty_report_unset_paid change_reports
update_payout_document-frees_example =
    update_payout_document-frees whole accepted accepted-IsFoundById (change_to "canceled") [] refl
      refl refl refl

update_payout_document-keeps_balance_example :
    balances_written (update_payout_document whole accepted (change_to "canceled") []).1 ≡ []
unfolding balances_written
update_payout_document-keeps_balance_example =
    update_payout_document-keeps_balance whole accepted (change_to "canceled") [] (inr refl)

update_merchant_balance-writes_example :
    ((update_merchant_balance whole accepted "m" []).1 ≡ balance_inserted balance ∷ [])
    × ((m : Merchant whole) × (accepted.merchant_by_id [] "m" ≡ ok m)
        × IsMadeFor whole accepted m "m" [] balance)
unfolding update_merchant_balance get_rolling_reserve_for_balance sum_reserve
update_merchant_balance-writes_example = update_merchant_balance-writes whole accepted "m" [] refl

abbrev by_hand : CreateRequest
by_hand = record { merchant_id = "m"; description = ""; is_auto_generation = false }

create_payout_document-IsPayable_example : IsPayable whole accepted merchant 16 []
unfolding create_payout_document build_payout check_amount finish_payout store_payout add_report
    add_reports round_sums get_payout_document_sources check_sources get_merchant_balance
    royalty_report_set_payout_document_id change_reports update_merchant_balance
    get_rolling_reserve_for_balance sum_reserve
create_payout_document-IsPayable_example =
    create_payout_document-IsPayable whole accepted merchant by_hand [] refl

create_payout_document-takes_example :
    HasNew whole accepted
      (IsTakenBy whole accepted "p")
      ("r1" ∷ "r2" ∷ [])
      []
      (reports_written (create_payout_document whole accepted merchant by_hand []).1)
unfolding create_payout_document build_payout check_amount finish_payout store_payout add_report
    add_reports round_sums get_payout_document_sources check_sources get_merchant_balance
    royalty_report_set_payout_document_id change_reports update_merchant_balance
    get_rolling_reserve_for_balance sum_reserve reports_written
create_payout_document-takes_example =
    create_payout_document-takes whole accepted accepted-IsFoundById merchant by_hand [] refl

abbrev review_of : Bool → ReviewRequest
review_of is_accepted = record {
  report_id = "r1";
  merchant_id = "m";
  is_accepted = is_accepted;
  dispute_reason = "too low";
}

merchant_review_royalty_report-once_example :
    (reports_written (merchant_review_royalty_report whole unreviewed (review_of true) []).1 ≡ [])
    ⊎ ((reports_written (merchant_review_royalty_report whole unreviewed (review_of true) []).1
          ≡ reviewed whole (review_of true) 9 (report_with "r1" "pending") ∷ [])
        × (true ≡ true))
unfolding reports_written
merchant_review_royalty_report-once_example =
    merchant_review_royalty_report-once whole unreviewed (review_of true) [] refl

merchant_review_royalty_report-any_merchant_example :
    merchant_review_royalty_report whole unreviewed (review_of true) []
    ≡ merchant_review_royalty_report whole unreviewed
        (record (review_of true) { merchant_id = "other" })
        []
merchant_review_royalty_report-any_merchant_example =
    merchant_review_royalty_report-any_merchant whole unreviewed (review_of true) [] "other"

auto_accept_royalty_reports-accepts_example :
    HasNew whole unreviewed
      (IsAutoAccepted whole unreviewed)
      ("r1" ∷ "r2" ∷ [])
      []
      (reports_written (auto_accept_royalty_reports whole unreviewed []).1)
unfolding auto_accept_royalty_reports accept_reports accept_report update_merchant_balance
    get_rolling_reserve_for_balance sum_reserve royalty_report_changed_email
    on_royalty_report_status_changed reports_written
auto_accept_royalty_reports-accepts_example =
    auto_accept_royalty_reports-accepts whole unreviewed [] refl refl
