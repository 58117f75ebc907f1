-- ===== src/Tariffs/Setting.antt =====
-- The costs of refunds, and those of payments to the system, are set and deleted
-- (SetMoneyBackCostMerchant, SetMoneyBackCostSystem, SetPaymentChannelCostSystem and the deletions
-- in internal/service/money_back_cost_merchant.go, money_back_cost_system.go and
-- payment_channel_cost_system.go).
use paysuper_billing_server.Base.{
  Bool, true, false, Option, none, some, List, [], ◌∷◌, if◌then◌else◌, not, ◌||◌,
}
use paysuper_billing_server.Base.Text.{String, str_eq}
use paysuper_billing_server.Response.{Status, bad_data, not_found, system_error}
use paysuper_billing_server.Handler.{
  Handler, ◌>>=◌, ◌>>◌, pure, return_with, ask, emit, return_if, or_return,
}
use paysuper_billing_server.Tariffs.{
  Kind, money_back_merchant, money_back_system, channel_system, Cost, set_failed, delete_failed,
  currency, already_exist, mcc_code, company_not_exists, merchant_not_found, country_not_found,
  region_not_exists, cost_rate_not_found, Response, answered, deleted, refused, WriteError,
  duplicate, write_failed, Event, cost_inserted, cost_updated, cost_deleted, Env, channel_merchant,
}

abbrev pub Call : Type 0 → Type 0
Call A = Handler Event Response A

-- `helper.Contains`
abbrev pub contains : List String → String → Bool
contains [] s = false
contains (t ∷ ts) s = str_eq s t || contains ts s

module _ (env : Env) where
  abbrev pub found_or : {A : Type 0} → Option A → Response → Call A
  found_or (some a) r = pure a
  found_or none r = return_with r

  -- The region is the country's, or must be one that tariffs know.
  unfoldable pub with_region : Cost → Call Cost
  with_region req =
      if str_eq req.country ""
      then (ask (λ h. env.is_region_supported h req.region) >>= λ exists.
          return_if (not exists) (refused not_found region_not_exists) >> pure req)
      else (ask (λ h. env.country_region h req.country) >>= λ found.
          found_or found (refused not_found country_not_found) >>= λ region.
          pure (record req { region = region }))

  abbrev pub check_currency : Kind → List String → String → Call (Unit {0})
  check_currency kind currencies c =
      return_if (not (contains currencies c)) (refused bad_data (currency kind))

  -- The currencies are looked at in this order.
  abbrev pub check_all : Kind → List String → List String → Call (Unit {0})
  check_all kind currencies [] = pure tt
  check_all kind currencies (c ∷ cs) =
      check_currency kind currencies c >> check_all kind currencies cs

  -- The currencies of a cost and its code.
  unfoldable pub check_codes : Kind → List String → Cost → Call (Unit {0})
  check_codes kind names req = do
    found ← ask env.settlement_currencies
    currencies ← found_or found (refused bad_data (currency kind))
    check_all kind currencies names
    return_if (not (contains env.supported_mcc_codes req.mcc_code))
        (refused bad_data (mcc_code kind))

  abbrev pub check_company : Kind → Cost → Call (Unit {0})
  check_company kind req = do
    exists ← ask (λ h. env.company_exists h req.operating_company_id)
    return_if (not exists) (refused bad_data (company_not_exists kind))

  abbrev pub refused_write : Kind → WriteError → Response
  refused_write kind duplicate = refused bad_data (already_exist kind)
  refused_write kind write_failed = refused system_error (set_failed kind)

  -- A write whose error is looked at.
  abbrev pub write : Kind → Event → Call (Unit {0})
  write kind e = do emit e; outcome ← ask env.outcome; or_return outcome (refused_write kind)

  -- An update whose error is assigned to a variable of its block: the one that is looked at has
  -- none.
  abbrev pub write_unseen : Event → Call (Unit {0})
  write_unseen e = emit e

  -- The update of the cost that the identifier names, or the insertion of a new one.
  unfoldable pub save : Kind → (Cost → Cost → Cost) → Status → Cost → Call Cost
  save kind keep status req =
      if str_eq req.id ""
      then (ask env.new_id >>= λ id. ask env.now >>= λ now.
          (let new : Cost = record req { id = id; created_at = now } in
            write kind (cost_inserted kind new) >> pure new))
      else (ask (λ h. env.cost_by_id kind h req.id) >>= λ found.
          found_or found (refused status (set_failed kind)) >>= λ old.
          (let kept : Cost = keep old req in write_unseen (cost_updated kind kept) >> pure kept))

  abbrev pub activated : Cost → Call Cost
  activated req = ask env.now >>= λ now. pure (record req { updated_at = now; is_active = true })

  -- A cost keeps its merchant, its identifier and the time of its creation.
  abbrev pub keep_merchant : Cost → Cost → Cost
  keep_merchant old req = record req {
    id = old.id;
    merchant_id = old.merchant_id;
    created_at = old.created_at;
  }

  abbrev pub keep_created : Cost → Cost → Cost
  keep_created old req = record req { id = old.id; created_at = old.created_at }

  unfoldable pub set_money_back_cost_merchant : Cost → Call Response
  unfolding with_region check_codes save
  set_money_back_cost_merchant req = do
    exists ← ask (λ h. env.merchant_exists h req.merchant_id)
    return_if (not exists) (refused not_found merchant_not_found)
    req ← with_region req
    check_codes money_back_merchant (req.payout_currency ∷ req.fix_amount_currency ∷ []) req
    req ← activated req
    saved ← save money_back_merchant keep_merchant not_found req
    pure (answered saved)

  unfoldable pub set_money_back_cost_system : Cost → Call Response
  unfolding with_region check_codes save
  set_money_back_cost_system req = do
    req ← with_region req
    check_codes money_back_system (req.payout_currency ∷ req.fix_amount_currency ∷ []) req
    check_company money_back_system req
    req ← activated req
    saved ← save money_back_system keep_created not_found req
    pure (answered saved)

  -- The cost is looked for by its fields as they are given, before the region is known. Here the
  -- error of each write is looked at.
  abbrev pub save_system : Option Cost → Cost → Call Cost
  save_system none req = do
    id ← ask env.new_id
    write channel_system (cost_inserted channel_system (record req { id = id }))
    pure (record req { id = id })
  save_system (some old) req = do
    write channel_system (cost_updated channel_system (keep_created old req))
    pure (keep_created old req)

  unfoldable pub set_payment_channel_cost_system : Cost → Call Response
  unfolding with_region check_codes
  set_payment_channel_cost_system req = do
    found ← ask (λ h.
        env.find_system h req.name req.region req.country req.mcc_code req.operating_company_id)
    val ← or_return found (λ _. refused system_error (set_failed channel_system))
    req ← with_region req
    check_codes channel_system (req.fix_amount_currency ∷ []) req
    check_company channel_system req
    saved ← save_system val (record req { is_active = true })
    pure (answered saved)

  -- The deletion of a cost, in each of the four collections.
  unfoldable pub delete_cost : Kind → String → Call Response
  delete_cost kind id = do
    found ← ask (λ h. env.cost_by_id kind h id)
    cost ← found_or found (refused not_found cost_rate_not_found)
    emit (cost_deleted kind cost)
    outcome ← ask env.outcome
    or_return outcome (λ _. refused system_error (delete_failed kind))
    pure deleted

  abbrev pub delete_money_back_cost_merchant : String → Call Response
  unfolding delete_cost
  delete_money_back_cost_merchant id = delete_cost money_back_merchant id

  abbrev pub delete_money_back_cost_system : String → Call Response
  unfolding delete_cost
  delete_money_back_cost_system id = delete_cost money_back_system id

  abbrev pub delete_payment_channel_cost_merchant : String → Call Response
  unfolding delete_cost
  delete_payment_channel_cost_merchant id = delete_cost channel_merchant id

  abbrev pub delete_payment_channel_cost_system : String → Call Response
  unfolding delete_cost
  delete_payment_channel_cost_system id = delete_cost channel_system id
