-- ===== src/Accounting/Sample.antt =====
-- A service with signed whole numbers for the tests of the entries: every document is found, and
-- the currency service adds one.
use paysuper_billing_server.Base.Text.{str_eq}
use paysuper_billing_server.Base.{
  not, ◌&&◌, ℕ, true, false, none, some, [], ◌∷◌, if◌then◌else◌, ltb, ◌+◌, ◌-◌, ◌*◌, suc,
}
use paysuper_billing_server.Base.Int.{ℤ, pos, negsuc, pos_part, neg_part, ltb_ℤ}
use paysuper_billing_server.Floats.{Floats}
use paysuper_billing_server.Handler.{ok, err}
use paysuper_billing_server.Accounting.{
  no_documents, real_tax_fee, of_order, Country, Entry, Order, Refund, Merchant, MoneyBackCost,
  PaylinkStat, Env,
}

abbrev difference : ℕ → ℕ → ℤ
difference p n = if ltb p n then negsuc (n - p - 1) else pos (p - n)

abbrev times : ℤ → ℤ → ℤ
times (pos a) (pos b) = pos (a * b)
times (pos a) (negsuc b) = difference 0 (a * suc b)
times (negsuc a) (pos b) = difference 0 (suc a * b)
times (negsuc a) (negsuc b) = pos (suc a * suc b)

abbrev pub signed : Floats
signed = record {
  F = ℤ;
  zero_f = pos 0;
  hundred = pos 100;
  add_f = λ a b. difference (pos_part a + pos_part b) (neg_part a + neg_part b);
  sub_f = λ a b. difference (pos_part a + neg_part b) (neg_part a + pos_part b);
  mul_f = times;
  div_f = λ a b. a;
  less_f = ltb_ℤ;
  le_f = λ a b. not (ltb_ℤ b a);
  eq_f = λ a b. not (ltb_ℤ a b) && not (ltb_ℤ b a);
  round_f = λ a. a;
}

abbrev pub order : Order signed
order = record {
  id = "o1";
  type_of = "order";
  merchant_id = "m1";
  royalty_currency = "USD";
  operating_company_id = "c1";
  mcc_code = "5816";
  closed_at = some 7;
  charge_currency = "RUB";
  charge_amount = pos 100;
  tax_rate = some (pos 20);
  country = "RU";
  issuer_reference_type = "paylink";
  issuer_reference = "p1";
  project_merchant_id = "m1";
  receipt_number = none;
  is_vat_deduction = false;
}

-- The order that a refund has created.
abbrev pub refund_order : Order signed
refund_order = record order { id = "o2"; type_of = "refund"; receipt_number = some "f1" }

abbrev pub refund : Refund signed
refund = record {
  id = "f1";
  original_order_id = "o1";
  created_order_id = "o2";
  amount = pos 1;
  currency = "RUB";
  is_chargeback = false;
  created_at = some 9;
}

abbrev country : Country
country = record {
  iso_code = "RU";
  vat_enabled = true;
  vat_currency = "RUB";
  vat_currency_rates_source = "cbrf";
  price_group_id = "g1";
  payer_tariff_region = "russia_and_cis";
}

abbrev merchant : Merchant signed
merchant = record {
  id = "m1";
  payout_currency = "USD";
  operating_company_id = "c1";
  mcc_code = "5816";
  company_country = some "RU";
}

abbrev money_back : MoneyBackCost signed
money_back = record {
  percent = pos 1;
  fix_amount = pos 2;
  fix_amount_currency = "EUR";
  is_paid_by_merchant = true;
}

abbrev stat : PaylinkStat signed
stat = record {
  total_transactions = 1;
  returns_count = 0;
  sales_count = 1;
  transactions_currency = "USD";
  gross_total_amount = pos 101;
  gross_sales_amount = pos 101;
  gross_returns_amount = pos 0;
}

-- An entry that is stored, with an amount of five.
abbrev pub stored_entry : Entry signed
stored_entry = record {
  id = "e1";
  type_of = real_tax_fee;
  source = some (of_order, "o1");
  merchant_id = "m1";
  status = "available";
  created_at = some 7;
  country = "RU";
  currency = "USD";
  amount = pos 5;
  original_amount = pos 5;
  original_currency = "RUB";
  local_amount = pos 5;
  local_currency = "RUB";
  amount_rounded = pos 5;
  original_amount_rounded = pos 5;
  local_amount_rounded = pos 5;
  reason = "";
  operating_company_id = "c1";
}

abbrev pub sample : Env signed
sample = record {
  now = λ h. 8;
  new_id = λ h t. "new";
  is_object_id = λ s. true;
  to_precise = λ a. a;
  percent_part = λ a rate. a;
  one = pos 1;
  minus_one = negsuc 0;
  round = λ h es m a. some a;
  timestamp_proto = λ t. some (pos_part t);
  is_processable = λ o. true;
  tax_in_charge_currency = λ o. pos 20;
  cost_method_name = λ o. ok "VISA";
  vat_currency_code = λ c. c.vat_currency;
  whole_days = λ a b. pos 0;
  is_paylink_expired = λ l. false;
  update_conversion = λ l. l;
  exchange = λ h req. ok (signed.add_f req.amount (pos 1));
  price_group_currency = λ h id. ok "RUB";
  channel_cost_merchant = λ h req. ok (record {
    ps_percent = pos 1;
    method_percent = pos 1;
    method_fix_amount = pos 3;
    method_fix_amount_currency = "EUR";
    ps_fixed_fee = pos 4;
    ps_fixed_fee_currency = "EUR";
  });
  channel_cost_system =
      λ h req. ok (record { percent = pos 1; fix_amount = pos 2; fix_amount_currency = "EUR" });
  money_back_cost_merchant = λ h req. ok money_back;
  money_back_cost_system = λ h req. ok money_back;
  entry_by_source = λ h t id. err no_documents;
  apply_source = λ h t s id e. ok stored_entry;
  entries_with_taxes = λ h. ok (stored_entry ∷ []);
  order_by_id = λ h id. if str_eq id "o2" then ok refund_order else ok order;
  refund_by_id = λ h id. ok refund;
  merchant_by_id = λ h id. ok merchant;
  country_by_code = λ h code. ok country;
  paylink_by_id = λ h id m. ok (record { id = id; visits = 0; stat = stat; is_expired = false });
  count_visits = λ h id. some 3;
  paylink_stat = λ h id m. ok stat;
  outcome = λ h. ok tt;
}
