-- ===== src/Tariffs/Tests.antt =====
-- Tests of the costs, and the theorems at concrete inputs.
use paysuper_billing_server.Tariffs.Setting.{with_region, check_codes}
use paysuper_billing_server.Response.{bad_data}
use paysuper_billing_server.Base.{
  ℕ, true, false, none, some, List, [], ◌∷◌, ◌≡◌, refl, All, ltb, leb, ◌⊎◌, inl, inr, arith,
}
use paysuper_billing_server.Base.Text.{str_eq}
use paysuper_billing_server.Mongo.{In}
use paysuper_billing_server.Handler.{ok, next}
use paysuper_billing_server.Tariffs.{
  channel_merchant, Cost, answered_with, cost_inserted, tariffs_updated, Env, currency,
}
use paysuper_billing_server.Tariffs.Sample.{sort, insert, sort-Sorts}
use paysuper_billing_server.Tariffs.Choice.{choose, matched}
use paysuper_billing_server.Tariffs.Latest.{IsLatest, choose-IsLatest, choose-found}
use paysuper_billing_server.Tariffs.Channel.{
  validate_all, validate_payment_channel_cost_merchant, set_payment_channel_cost_merchant,
  set_all_payment_channel_cost_merchant,
}
use paysuper_billing_server.Tariffs.Checked.{
  IsValidFor, set_all_payment_channel_cost_merchant-checks,
  set_payment_channel_cost_merchant-unchecked,
}

-- Intervals that are their beginnings, in two sets.
abbrev sets : List (List ℕ)
sets = (30 ∷ []) ∷ (0 ∷ 9 ∷ 5 ∷ []) ∷ []

ltb-irreflexive : (t : ℕ) → ltb t t ≡ false
ltb-irreflexive t = ground (arith)

choose-IsLatest_example :
    (set : List ℕ) × In set sets × IsLatest (λ a. a) ltb leb (λ _. sort) 7 set 5
unfolding choose matched sort insert
choose-IsLatest_example =
    choose-IsLatest (λ a. a) ltb leb (λ _. sort) 7 sort-Sorts ltb-irreflexive sets refl

choose-found_example : (a : ℕ) × (choose (λ a. a) ltb leb (λ _. sort) 7 sets ≡ ok a)
choose-found_example =
    choose-found (λ a. a) ltb leb (λ _. sort) 7 sort-Sorts ltb-irreflexive sets (0 ∷ 9 ∷ 5 ∷ []) 5
      (inr (inl refl)) (inr (inr (inl refl))) refl

abbrev cost : Cost
cost = record {
  id = "";
  merchant_id = "m1";
  name = "VISA";
  payout_currency = "USD";
  region = "europe";
  country = "DE";
  mcc_code = "5816";
  operating_company_id = "c1";
  fix_amount_currency = "EUR";
  ps_fixed_fee_currency = "EUR";
  method_fix_amount_currency = "EUR";
  is_active = false;
  created_at = 0;
  updated_at = 0;
}

abbrev sample : Env
sample = record {
  now = λ h. 8;
  new_id = λ h. "new";
  merchant_exists = λ h m. str_eq m "m1";
  country_region = λ h c. some "europe";
  is_region_supported = λ h r. true;
  settlement_currencies = λ h. some ("USD" ∷ "EUR" ∷ []);
  supported_mcc_codes = "5816" ∷ [];
  company_exists = λ h c. true;
  cost_by_id = λ k h id. some cost;
  find_system = λ h n r c m o. ok none;
  outcome = λ h. ok tt;
}

-- A cost with a currency that is not supported, as it is stored.
abbrev wrong : Cost
wrong = record cost { payout_currency = "XXX" }

abbrev wrong_stored : Cost
wrong_stored = record wrong { id = "new"; is_active = true }

set_payment_channel_cost_merchant-unchecked_example :
    set_payment_channel_cost_merchant sample wrong [] ≡ (
      next (answered_with (currency channel_merchant) wrong_stored),
      tariffs_updated "m1" wrong_stored ∷ cost_inserted channel_merchant wrong_stored ∷ [],
    )
unfolding validate_payment_channel_cost_merchant with_region check_codes
set_payment_channel_cost_merchant-unchecked_example =
    set_payment_channel_cost_merchant-unchecked sample [] wrong wrong_stored bad_data
      (currency channel_merchant) refl refl refl refl refl

set_all_payment_channel_cost_merchant-checks_example :
    ((set_all_payment_channel_cost_merchant sample "m1" (record cost { id = "1" } ∷ []) []).1 ≡ [])
    ⊎ ((valid : List Cost) × (validate_all sample "m1" (record cost { id = "1" } ∷ []) []
          ≡ (next valid, []))
        × All (IsValidFor sample [] "m1") valid)
set_all_payment_channel_cost_merchant-checks_example =
    set_all_payment_channel_cost_merchant-checks sample [] "m1" (record cost { id = "1" } ∷ [])
