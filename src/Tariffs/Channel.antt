-- ===== src/Tariffs/Channel.antt =====
-- The costs of payments to a merchant are set (SetPaymentChannelCostMerchant,
-- SetAllPaymentChannelCostMerchant and validatePaymentChannelCostMerchant in
-- internal/service/payment_channel_cost_merchant.go).
use paysuper_billing_server.Base.{true, none, some, List, [], ◌∷◌, if◌then◌else◌, not, ◌++◌, Option}
use paysuper_billing_server.Base.Text.{String, str_eq}
use paysuper_billing_server.Response.{bad_data, not_found, system_error}
use paysuper_billing_server.Handler.{
  ◌>>=◌, ◌>>◌, pure, ask, emit, return_if, or_return, try_call, Result, err,
}
use paysuper_billing_server.Tariffs.{
  channel_merchant, Cost, set_failed, merchant_not_found, tariff_update, cost_id_not_found,
  Response, answered, all_set, refused, Event, cost_inserted, cost_updated, tariffs_updated, Env,
  Message, WriteError, answered_with, refused_after,
}
use paysuper_billing_server.Tariffs.Setting.{
  Call, found_or, with_region, check_codes, write, write_unseen, keep_merchant, refused_write,
}

module _ (env : Env) where
  -- The request as the validation leaves it: its region is assigned where its country is found.
  abbrev pub region_assigned : List Event → Cost → Cost
  region_assigned h req =
      if str_eq req.country "" then req else elim (env.country_region h req.country) [
        | none ↦ req
        | some region ↦ record req { region = region }
      ]

  abbrev pub channel_names : Cost → List String
  channel_names c = c.payout_currency ∷ c.ps_fixed_fee_currency ∷ c.method_fix_amount_currency ∷ []

  -- What is not valid is refused.
  unfoldable pub validate_payment_channel_cost_merchant : Cost → Call Cost
  unfolding with_region check_codes
  validate_payment_channel_cost_merchant req = do
    exists ← ask (λ h. env.merchant_exists h req.merchant_id)
    return_if (not exists) (refused not_found merchant_not_found)
    req ← with_region env req
    check_codes env channel_merchant (channel_names req) req
    pure req

  -- The request after its validation, whether or not it is valid: no region is assigned without
  -- the merchant.
  abbrev pub after_validation : Cost → List Event → Cost
  after_validation req h =
      if env.merchant_exists h req.merchant_id then region_assigned h req else req

  abbrev pub update_tariffs : Cost → Call (Unit {0})
  update_tariffs cost = do
    emit (tariffs_updated cost.merchant_id cost)
    outcome ← ask env.outcome
    or_return outcome (λ _. refused system_error tariff_update)

  -- The update of the cost that the identifier names, or the insertion of a new one. The error of
  -- the update is not looked at.
  unfoldable pub save_channel : Cost → Call Cost
  save_channel req =
      if str_eq req.id ""
      then (ask env.new_id >>= λ id.
          (let new : Cost = record req { id = id } in
            write env channel_merchant (cost_inserted channel_merchant new) >> pure new))
      else (ask (λ h. env.cost_by_id channel_merchant h req.id) >>= λ found.
          found_or env found (refused system_error (set_failed channel_merchant)) >>= λ old.
          (let kept : Cost = keep_merchant env old req in
            write_unseen env (cost_updated channel_merchant kept) >> pure kept))

  -- The message that the validation has left in the response.
  abbrev pub left_message : Result Response Cost → Option Message
  left_message (err (refused status m)) = some m
  left_message checked = none

  -- A successful end sets the status and the cost of the response, and not its message.
  abbrev pub answer_saved : Option Message → Cost → Response
  answer_saved none saved = answered saved
  answer_saved (some m) saved = answered_with m saved

  unfoldable pub set_validated : Option Message → Cost → Call Response
  unfolding save_channel
  set_validated left validated = do
    saved ← save_channel (record validated { is_active = true })
    update_tariffs saved
    pure (answer_saved left saved)

  -- The validation writes its status and its message to the response, where a refusal replaces both
  -- and a successful end the status only.
  unfoldable pub set_payment_channel_cost_merchant : Cost → Call Response
  unfolding validate_payment_channel_cost_merchant set_validated
  set_payment_channel_cost_merchant req = do
    checked ← try_call (validate_payment_channel_cost_merchant req)
    validated ← ask (after_validation req)
    set_validated (left_message checked) validated

  -- All costs are validated before one is written.
  unfoldable pub validate_all : String → List Cost → Call (List Cost)
  unfolding validate_payment_channel_cost_merchant
  validate_all merchant [] = pure []
  validate_all merchant (cost ∷ costs) = do
    return_if (str_eq cost.id "") (refused bad_data cost_id_not_found)
    valid ← validate_payment_channel_cost_merchant (record cost { merchant_id = merchant })
    rest ← validate_all merchant costs
    pure (valid ∷ rest)

  -- A refusal beside the costs that are in the response.
  abbrev pub beside : List Cost → Response → Response
  beside items (refused status m) = refused_after items status m
  beside items r = r

  -- A write that comes after others of the same call.
  abbrev pub write_after : List Cost → (WriteError → Response) → Event → Call (Unit {0})
  write_after items f e = do
    emit e
    outcome ← ask env.outcome
    or_return outcome (λ failed. beside items (f failed))

  -- The costs are written one after the other; those that are written are in the response.
  unfoldable pub update_all : List Cost → List Cost → Call (List Cost)
  update_all items [] = pure items
  update_all items (cost ∷ costs) = do
    write_after items (refused_write env channel_merchant) (cost_updated channel_merchant cost)
    write_after items (λ _. refused system_error tariff_update)
        (tariffs_updated cost.merchant_id cost)
    update_all (items ++ cost ∷ []) costs

  unfoldable pub set_all_payment_channel_cost_merchant : String → List Cost → Call Response
  unfolding validate_all update_all
  set_all_payment_channel_cost_merchant merchant costs = do
    valid ← validate_all merchant costs
    updated ← update_all [] valid
    pure (all_set updated)
