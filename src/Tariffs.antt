-- ===== src/Tariffs.antt =====
-- The costs of payments and of refunds: the documents and what is outside. The children hold the
-- methods (internal/service/money_back_cost_merchant.go, money_back_cost_system.go,
-- payment_channel_cost_merchant.go and payment_channel_cost_system.go).
pub mod Choice
pub mod Latest
pub mod Setting
pub mod Channel
pub mod Valid
pub mod Checked
mod Sample
mod Tests
use paysuper_billing_server.Base.{ℕ, Bool, true, false, Option, none, some, List, [], ◌∷◌}
use paysuper_billing_server.Base.Text.{String}
use paysuper_billing_server.Handler.{Result}
use paysuper_billing_server.Response.{Status}

-- The four collections.
pub data Kind : Type 0 where
  money_back_merchant money_back_system channel_merchant channel_system : Kind

-- The fields of a cost that the methods read or write. A field that a collection has not is empty.
pub record Cost : Type 0 where
  pub id : String
  pub merchant_id : String
  pub name : String
  pub payout_currency : String
  pub region : String
  pub country : String
  pub mcc_code : String
  pub operating_company_id : String
  pub fix_amount_currency : String
  pub ps_fixed_fee_currency : String
  pub method_fix_amount_currency : String
  pub is_active : Bool
  pub created_at : ℕ
  pub updated_at : ℕ

-- The messages, of a collection where each has its own.
pub data Message : Type 0 where
  set_failed delete_failed currency already_exist mcc_code company_not_exists : Kind → Message
  merchant_not_found country_not_found region_not_exists cost_rate_not_found : Message
  tariff_update cost_id_not_found : Message

-- What a method answers: a status, with a message or a cost, or with both; a call that writes
-- several costs is refused with those that it has written.
pub data Response : Type 0 where
  answered : Cost → Response
  answered_with : Message → Cost → Response
  deleted : Response
  all_set : List Cost → Response
  refused : Status → Message → Response
  refused_after : List Cost → Status → Message → Response

-- A write that fails, by a duplicate key or otherwise.
pub data WriteError : Type 0 where
  duplicate write_failed : WriteError

-- What the methods do to the outside.
pub data Event : Type 0 where
  cost_inserted cost_updated cost_deleted : Kind → Cost → Event
  tariffs_updated : String → Cost → Event

-- The repositories, the clock and the currency service. Each answer may depend on all that was done
-- before.
pub record Env : Type 0 where
  pub now : List Event → ℕ
  pub new_id : List Event → String
  pub merchant_exists : List Event → String → Bool
  -- the tariff region of a country that is found
  pub country_region : List Event → String → Option String
  pub is_region_supported : List Event → String → Bool
  -- no list if the service fails
  pub settlement_currencies : List Event → Option (List String)
  pub supported_mcc_codes : List String
  pub company_exists : List Event → String → Bool
  pub cost_by_id : Kind → List Event → String → Option Cost
  -- the system cost of a name, a region, a country, a code and a company: none if there is none,
  -- and an error if it is not known
  pub find_system :
      List Event → String → String → String → String → String → Result (Unit {0}) (Option Cost)
  -- the outcome of an event, when it is the newest of the history
  pub outcome : List Event → Result WriteError (Unit {0})
