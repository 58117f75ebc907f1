-- ===== src/Settlement/Sample.antt =====
-- Concrete documents for the settlement methods (internal/service/payouts.go, royalty_report.go and
-- merchant_balance.go). Amounts are whole numbers.
use paysuper_billing_server.Base.{
  ℕ, ◌+◌, ◌-◌, ◌*◌, ltb, leb, ◌==◌, true, false, none, some, [], ◌∷◌, arith, arith,
}
use paysuper_billing_server.Base.Text.{String}
use paysuper_billing_server.Floats.{Floats}
use paysuper_billing_server.Handler.{Result, ok, err}
use paysuper_billing_server.Settlement.{
  Error, no_documents, Report, Payout, Merchant, MerchantBalance, Env,
}
use paysuper_billing_server.Settlement.Update.{UpdateRequest}
use paysuper_billing_server.Settlement.Record.{IsFoundById}

abbrev pub whole : Floats
whole = record {
  F = ℕ;
  zero_f = 0;
  hundred = 1;
  add_f = λ a b. a + b;
  sub_f = λ a b. a - b;
  mul_f = λ a b. a * b;
  div_f = λ a b. a;
  less_f = ltb;
  le_f = leb;
  eq_f = λ a b. a == b;
  round_f = λ a. a;
}

abbrev pub report_with : String → String → Report whole
report_with id status = record {
  id = id;
  merchant_id = "m";
  currency = "EUR";
  status = status;
  totals = record {
    transactions_count = 3;
    fee_amount = 1;
    payout_amount = 12;
    correction_amount = 0;
    rolling_reserve_amount = 2;
    final_payout_amount = 10;
    b2b_vat_base = 1;
    b2b_vat_rate = 0;
    b2b_vat_amount = 0;
  };
  payout_document_id = "";
  period_from = 1;
  period_to = 2;
  string_period_from = "2020-01-01";
  string_period_to = "2020-01-08";
  updated_at = 2;
  accepted_at = none;
  payout_date = none;
  is_auto_accepted = false;
  dispute_reason = "";
  dispute_started_at = none;
  dispute_closed_at = none;
}

abbrev pub payout_with : String → Payout whole
payout_with status = record {
  id = "p";
  status = status;
  source_id = "r1" ∷ "r2" ∷ [];
  description = "";
  created_at = 3;
  updated_at = 3;
  arrival_date = 8;
  merchant_id = "m";
  destination = "bank";
  company = "company";
  merchant_agreement_number = "1";
  operating_company_id = "o";
  autoincrement_id = 1;
  currency = "EUR";
  total_fees = 24;
  fees_excluding_vat = 20;
  balance = 16;
  total_transactions = 6;
  b2b_vat_base = 2;
  b2b_vat_rate = 0;
  b2b_vat_amount = 0;
  period_from = 1;
  period_to = 2;
  string_period_from = "2020-01-01";
  string_period_to = "2020-01-08";
  paid_at = none;
  transaction = "";
  failure_code = "";
  failure_message = "";
  failure_transaction = "";
}

abbrev pub merchant : Merchant whole
merchant = record {
  id = "m";
  payout_currency = "EUR";
  manual_payouts_enabled = true;
  banking = "bank";
  company = "company";
  agreement_number = "1";
  operating_company_id = "o";
  minimal_payout = some (("EUR", 5) ∷ []);
  min_payout_amount = 7;
}

-- Every report has the same status, and every write succeeds. `stored` is the stored balance. The payout is pending.
abbrev pub env_with : String → Result Error (MerchantBalance whole) → Env whole
env_with status stored = record {
  now = λ h. 9;
  new_id = λ h. "p";
  object_id_from_hex = λ s. some 1;
  timestamp = ok;
  timestamp_proto = ok;
  to_precise = λ a. a;
  arrival_date = λ h. 14;
  payout_autoincrement_id = λ h. ok 1;
  merchant_by_id = λ h id. ok merchant;
  payout_by_id = λ h id. ok (payout_with "pending");
  report_by_id = λ h id. ok (report_with id status);
  non_payout_reports = λ h id currency. ok (report_with "r1" status ∷ report_with "r2" status ∷ []);
  expired_reports = λ h now s. ok (report_with "r1" status ∷ report_with "r2" status ∷ []);
  merchants_with_auto_payouts = λ h. ok (merchant ∷ []);
  balance_by_id_and_currency = λ h id currency. stored;
  debit_amount = λ h id currency. ok 30;
  credit_amount = λ h id currency. ok 4;
  last_payout = λ h id currency. ok none;
  reserve_entries = λ h id currency since.
      ok
        (record { is_release = false; amount = 3 } ∷ record { is_release = true; amount = 1 } ∷ []);
  outcome = λ h. ok tt;
}

abbrev pub balance : MerchantBalance whole
balance = record {
  merchant_id = "m";
  currency = "EUR";
  debit = 30;
  credit = 4;
  rolling_reserve = 2;
  total = 24;
  created_at = 9;
}

abbrev pub accepted : Env whole
accepted = env_with "accepted" (ok balance)

abbrev pub unreviewed : Env whole
unreviewed = env_with "pending" (err no_documents)

pub accepted-IsFoundById : IsFoundById whole accepted
accepted-IsFoundById h id r e = ground (arith)

abbrev pub change_to : String → UpdateRequest
change_to status = record {
  payout_document_id = "p";
  status = status;
  transaction = "t";
  failure_code = "";
  failure_message = "";
  failure_transaction = "";
}
