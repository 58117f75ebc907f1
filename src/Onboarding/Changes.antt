-- ===== src/Onboarding/Changes.antt =====
-- The methods that change the status of a merchant (ChangeMerchantStatus, ChangeMerchantData,
-- SetMerchantOperatingCompany, SetMerchantAcceptedStatus and ChangeMerchantManualPayouts in
-- internal/service/onboarding.go).
use paysuper_billing_server.Base.{
  ℕ, Bool, true, false, Option, none, some, if◌then◌else◌, not, ◌||◌, ◌&&◌,
}
use paysuper_billing_server.Base.Text.{String, str_eq}
use paysuper_billing_server.Response.{Status, bad_data, not_found, system_error}
use paysuper_billing_server.Handler.{
  Handler, ◌>>=◌, ◌>>◌, pure, return_with, ask, emit, return_if, or_return,
}
use paysuper_billing_server.Onboarding.{
  MerchantStatus, agreement_signing, agreement_signed, accepted, op_company_selected, other_status,
  Merchant, merchant_not_found, merchant_unknown, status_change_not_possible,
  notification_setting_not_found, operating_company_not_found, onboarding_not_complete,
  tariffs_not_found, merchant_id_incorrect, Error, message, other_error, Response, answered,
  not_changed, refused, raised, Event, merchant_written, notification_inserted,
  notification_published, admin_published, signed_mail_sent, agreement_ordered, letter_sent, Env,
  panicked,
}

abbrev pub Call : Type 0 → Type 0
Call A = Handler Event Response A

-- `merchantStatusChangesMessages`
abbrev pub has_message : MerchantStatus → Bool
has_message op_company_selected = false
has_message (other_status n) = false
has_message s = true

abbrev pub is_op_company_selected : MerchantStatus → Bool
is_op_company_selected op_company_selected = true
is_op_company_selected s = false

module _ (env : Env) where
  abbrev pub found_or : {A : Type 0} → Option A → Response → Call A
  found_or (some a) r = pure a
  found_or none r = return_with r

  -- A call that changes the outside, with what its error is answered with.
  abbrev pub do_to : (Error → Response) → Event → Call (Unit {0})
  do_to f e = do emit e; outcome ← ask env.outcome; or_return outcome f

  abbrev pub unknown : Error → Response
  unknown e = refused system_error merchant_unknown

  -- The message of a status must be known, and the merchant's identifier well formed.
  unfoldable pub add_notification :
      MerchantStatus → String → Option (MerchantStatus × MerchantStatus) → Call (Unit {0})
  add_notification status id change = do
    return_if (str_eq id "" || not (env.is_object_id id))
        (refused system_error merchant_id_incorrect)
    do_to unknown (notification_inserted status id change)
    do_to unknown (notification_published status id change)

  abbrev pub check_message : MerchantStatus → Call (Unit {0})
  check_message status =
      return_if (not (has_message status)) (refused system_error notification_setting_not_found)

  abbrev pub find_merchant : Status → String → Call Merchant
  find_merchant status id = do
    found ← ask (λ h. env.merchant_by_id h id)
    found_or found (refused status merchant_not_found)

  abbrev pub with_status : MerchantStatus → ℕ → Merchant → Merchant
  with_status status now merchant = record merchant {
    status = status;
    status_last_updated_at = some now;
  }

  unfoldable pub change_merchant_status : String → MerchantStatus → Call Response
  unfolding add_notification
  change_merchant_status id status = do
    merchant ← find_merchant bad_data id
    return_if (not (env.can_change_status_to merchant status))
        (refused bad_data status_change_not_possible)
    check_message status
    add_notification status merchant.id (some (merchant.status, status))
    now ← ask env.now
    do_to unknown (merchant_written (with_status status now merchant))
    pure (answered (with_status status now merchant))

  -- An error that is no message of the service is a Go error.
  abbrev pub refuse_or_raise : Status → Error → Response
  refuse_or_raise status (message m) = refused status m
  refuse_or_raise status other_error = raised other_error

  -- An error that is no message of the service fails the type assertion of the method.
  abbrev pub refuse_or_panic : Status → Error → Response
  refuse_or_panic status (message m) = refused status m
  refuse_or_panic status other_error = panicked

  unfoldable pub set_merchant_operating_company : String → String → Bool → Call Response
  set_merchant_operating_company id company_id dont_charge_vat = do
    merchant ← find_merchant not_found id
    found ← ask (λ h. env.company_by_id h company_id)
    company ← or_return found (refuse_or_raise bad_data)
    return_if (not (env.is_data_complete merchant)) (refused bad_data onboarding_not_complete)
    now ← ask env.now
    let selected =
        with_status op_company_selected now
          (record merchant { operating_company_id = company; dont_charge_vat = dont_charge_vat })
    do_to unknown (merchant_written selected)
    pure (answered selected)

  -- The agreement and the letter, after the merchant is written. The status before that is notified
  -- is read after the change. The error of the agreement is taken for a message of the service, and
  -- that of the letter is looked at.
  unfoldable pub announce_accepted : Merchant → Call (Unit {0})
  unfolding add_notification
  announce_accepted merchant = do
    check_message merchant.status
    add_notification merchant.status merchant.id (some (merchant.status, accepted))
    do_to (refuse_or_panic system_error) (agreement_ordered merchant)
    do_to (refuse_or_raise system_error) (letter_sent merchant)

  -- What lets a merchant be accepted.
  unfoldable pub find_acceptable : String → Call Merchant
  find_acceptable id = do
    merchant ← find_merchant not_found id
    found ← ask (λ h. env.company_by_id h merchant.operating_company_id)
    company ← or_return found (λ _. refused bad_data operating_company_not_found)
    return_if (not (is_op_company_selected merchant.status))
        (refused bad_data status_change_not_possible)
    has_tariff ← ask (λ h. env.has_active_tariff h merchant.id)
    return_if (not has_tariff) (refused bad_data tariffs_not_found)
    pure merchant

  unfoldable pub set_merchant_accepted_status : String → Call Response
  unfolding find_acceptable announce_accepted
  set_merchant_accepted_status id = do
    merchant ← find_acceptable id
    now ← ask env.now
    do_to unknown (merchant_written (with_status accepted now merchant))
    announce_accepted (with_status accepted now merchant)
    pure (answered (with_status accepted now merchant))

  unfoldable pub change_merchant_manual_payouts : String → Bool → Call Response
  change_merchant_manual_payouts id enabled = do
    merchant ← find_merchant not_found id
    return_if (if merchant.manual_payouts_enabled then enabled else not enabled) not_changed
    do_to unknown (merchant_written (record merchant { manual_payouts_enabled = enabled }))
    pure (answered (record merchant { manual_payouts_enabled = enabled }))

  -- The signatures that a request adds. The time of the merchant's own is noted, and the admins are
  -- told; whether they are is not looked at.
  abbrev pub add_merchant_signature : Bool → Merchant → Call Merchant
  add_merchant_signature has_signature merchant =
      if not merchant.has_merchant_signature && has_signature
      then (ask env.now >>= λ now.
          emit admin_published
          >> pure (record merchant { received_date = some now; has_merchant_signature = true }))
      else pure merchant

  abbrev pub with_psp_signature : Bool → Merchant → Merchant
  with_psp_signature has_signature merchant = record merchant {
    has_psp_signature = merchant.has_psp_signature || has_signature;
  }

  abbrev pub with_signed : Merchant → Merchant
  with_signed merchant = record merchant {
    is_signed = merchant.has_psp_signature && merchant.has_merchant_signature;
  }

  -- A merchant that has signed is in signing, and with the other signature it is signed.
  unfoldable pub sign : Merchant → Call (Merchant × Option (MerchantStatus × MerchantStatus))
  sign merchant =
      if merchant.has_merchant_signature
      then (ask env.now >>= λ now.
          (let signing = with_status agreement_signing now merchant in
            let change : MerchantStatus × MerchantStatus = (merchant.status, agreement_signing) in
            if merchant.is_signed
            then (do_to unknown (signed_mail_sent (with_status agreement_signed now signing))
                >> pure (
                  with_status agreement_signed now signing,
                  some (agreement_signing, agreement_signed),
                ))
            else pure (signing, some change)))
      else pure (merchant, none)

  abbrev pub is_fully_signed : Merchant → Bool
  is_fully_signed merchant =
      merchant.is_signed && (merchant.has_merchant_signature && merchant.has_psp_signature)

  unfoldable pub write_signed : Merchant × Option (MerchantStatus × MerchantStatus) → Call Response
  unfolding add_notification
  write_signed (merchant, change) = do
    check_message merchant.status
    add_notification merchant.status merchant.id change
    do_to unknown (merchant_written merchant)
    pure (answered merchant)

  unfoldable pub change_merchant_data : String → Bool → Bool → Call Response
  unfolding sign write_signed
  change_merchant_data id has_merchant_signature has_psp_signature = do
    merchant ← find_merchant not_found id
    return_if (is_fully_signed merchant) (answered merchant)
    merchant ←
        add_merchant_signature has_merchant_signature
          (with_psp_signature has_psp_signature merchant)
    signed ← sign (with_signed merchant)
    write_signed signed
