-- ===== src/Onboarding/Tests.antt =====
-- Tests of the changes of a merchant's status, and the theorem at a concrete input.
use paysuper_billing_server.Base.{true, false, none, some, [], ◌∷◌, ◌≡◌, refl, ◌⊎◌}
use paysuper_billing_server.Handler.{ok}
use paysuper_billing_server.Onboarding.{accepted, op_company_selected, Merchant, Env}
use paysuper_billing_server.Onboarding.Changes.{
  with_status, set_merchant_accepted_status, find_acceptable, announce_accepted, add_notification,
}
use paysuper_billing_server.Onboarding.Accepting.{
  merchants_written, IsAcceptable, set_merchant_accepted_status-IsAcceptable,
}

abbrev merchant : Merchant
merchant = record {
  id = "m1";
  status = op_company_selected;
  status_last_updated_at = none;
  operating_company_id = "c1";
  dont_charge_vat = false;
  is_signed = false;
  has_merchant_signature = false;
  has_psp_signature = false;
  received_date = none;
  manual_payouts_enabled = false;
}

abbrev sample : Env
sample = record {
  now = λ h. 8;
  is_object_id = λ s. true;
  merchant_by_id = λ h id. some merchant;
  company_by_id = λ h id. ok id;
  can_change_status_to = λ m s. true;
  is_data_complete = λ m. true;
  has_active_tariff = λ h id. true;
  outcome = λ h. ok tt;
}

set_merchant_accepted_status-IsAcceptable_example :
    ((set_merchant_accepted_status sample "m1" []).1 ≡ [])
    ⊎ ((m : Merchant) × IsAcceptable sample "m1" [] m
        × (merchants_written (set_merchant_accepted_status sample "m1" []).1
            ≡ with_status sample accepted 8 m ∷ []))
set_merchant_accepted_status-IsAcceptable_example =
    set_merchant_accepted_status-IsAcceptable sample "m1" []

-- The sample's merchant is accepted.
accepted_merchant :
    merchants_written (set_merchant_accepted_status sample "m1" []).1
    ≡ with_status sample accepted 8 merchant ∷ []
unfolding set_merchant_accepted_status find_acceptable announce_accepted add_notification
accepted_merchant = refl
