-- ===== src/Onboarding.antt =====
-- The status of a merchant: the document and what is outside. The children hold the methods
-- (internal/service/onboarding.go).
pub mod Changes
pub mod Accepting
mod Tests
use paysuper_billing_server.Base.{ℕ, Bool, true, false, Option, none, some, List, [], ◌∷◌}
use paysuper_billing_server.Base.Text.{String}
use paysuper_billing_server.Handler.{Result}
use paysuper_billing_server.Response.{Status}

-- `billingpb.MerchantStatus…`: those that the methods name, and any other number.
pub data MerchantStatus : Type 0 where
  agreement_signing agreement_signed merchant_deleted rejected pending accepted suspend :
      MerchantStatus
  op_company_selected : MerchantStatus
  other_status : ℕ → MerchantStatus

-- The fields of a merchant that the methods read or write.
pub record Merchant : Type 0 where
  pub id : String
  pub status : MerchantStatus
  pub status_last_updated_at : Option ℕ
  pub operating_company_id : String
  pub dont_charge_vat : Bool
  pub is_signed : Bool
  pub has_merchant_signature : Bool
  pub has_psp_signature : Bool
  pub received_date : Option ℕ
  pub manual_payouts_enabled : Bool

pub data Message : Type 0 where
  merchant_not_found merchant_unknown status_change_not_possible notification_setting_not_found :
      Message
  operating_company_not_found onboarding_not_complete tariffs_not_found merchant_id_incorrect :
      Message
  other_message : String → Message

-- A Go error: a message of the service or another.
pub data Error : Type 0 where
  message : Message → Error
  other_error : Error

-- What a method answers: a status with a message or a merchant, or an error; or it panics.
pub data Response : Type 0 where
  answered : Merchant → Response
  not_changed : Response
  refused : Status → Message → Response
  raised : Error → Response
  panicked : Response

-- What the methods do to the outside. A notification names the statuses before and after, if it has
-- any.
pub data Event : Type 0 where
  merchant_written : Merchant → Event
  notification_inserted notification_published :
      MerchantStatus → String → Option (MerchantStatus × MerchantStatus) → Event
  admin_published : Event
  signed_mail_sent agreement_ordered letter_sent : Merchant → Event

-- The repositories, the clock, the brokers and the reporter. Each answer may depend on all that was
-- done before.
pub record Env : Type 0 where
  pub now : List Event → ℕ
  pub is_object_id : String → Bool
  pub merchant_by_id : List Event → String → Option Merchant
  pub company_by_id : List Event → String → Result Error String
  pub can_change_status_to : Merchant → MerchantStatus → Bool
  pub is_data_complete : Merchant → Bool
  pub has_active_tariff : List Event → String → Bool
  -- the outcome of an event, when it is the newest of the history
  pub outcome : List Event → Result Error (Unit {0})
