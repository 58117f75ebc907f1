-- ===== src/Tariffs/Checked.antt =====
-- What is written of a cost that is set (SetPaymentChannelCostMerchant and
-- SetAllPaymentChannelCostMerchant in internal/service/payment_channel_cost_merchant.go): a cost that
-- has been checked, or not.

use paysuper_billing_server.Response.{Status}
use paysuper_billing_server.Base.{
  true, false, List, [], ◌∷◌, ◌≡◌, sym, ap, ◌∙◌, subst, ◌⊎◌, inl, inr, All, arith, Bool-cases, some,
}
use paysuper_billing_server.Base.Text.{String, str_eq}
use paysuper_billing_server.Handler.{
  Result, ok, err, Step, next, done, go_on, go_on-next, go_on-done, Step-cases, pure,
}
use paysuper_billing_server.Tariffs.{
  channel_merchant, Cost, Response, Event, cost_inserted, tariffs_updated, Env, Message, refused,
  answered_with,
}
use paysuper_billing_server.Tariffs.Channel.{
  validate_payment_channel_cost_merchant, validate_all, after_validation,
  set_payment_channel_cost_merchant, set_all_payment_channel_cost_merchant, save_channel,
  set_validated, left_message,
}
use paysuper_billing_server.Tariffs.Valid.{
  IsValid, with_region-HasRegion, validate-IsValid, at_region, at_codes, after_region,
  validate_all-quiet,
}

module _ (env : Env) (h : List Event) where
  -- What is written for a merchant.
  abbrev pub IsValidFor : String → Cost → Type 0
  IsValidFor merchant c = IsValid env h c × (c.merchant_id ≡ merchant)

  validate-merchant :
      (req : Cost) {c : Cost} {h' : List Event}
      → validate_payment_channel_cost_merchant env req h ≡ (next c, h')
      → c.merchant_id ≡ req.merchant_id
  validate-merchant req {c} q =
      let (known, (d, w)) = at_region env h req q in
      let (same, _, _) = at_codes env h c (sym (after_region env h req known w) ∙ q) in
      subst (λ x. x.merchant_id ≡ req.merchant_id) same (with_region-HasRegion env h req w).2

  abbrev validated : String → Cost → Step Response Cost × List Event
  validated merchant c =
      validate_payment_channel_cost_merchant env (record c { merchant_id = merchant }) h

  abbrev rest_step : String → List Cost → Step Response (List Cost) × List Event
  rest_step merchant costs = validate_all env merchant costs h

  cons-step :
      (merchant : String) (c : Cost) (costs : List Cost) {d : Cost}
      → str_eq c.id "" ≡ false
      → validated merchant c ≡ (next d, h)
      → validate_all env merchant (c ∷ costs) h
        ≡ go_on (λ ds. pure (d ∷ ds)) (rest_step merchant costs)
  unfolding validate_all
  cons-step merchant c costs p q = ground (arith)

  first-valid :
      (merchant : String) (c : Cost) (costs : List Cost) {valid : List Cost} {h' : List Event}
      → validate_all env merchant (c ∷ costs) h ≡ (next valid, h')
      → (str_eq c.id "" ≡ false) × ((d : Cost) × (validated merchant c ≡ (next d, h)))
  unfolding validate_all
  first-valid merchant c costs q = elim (Bool-cases (str_eq c.id "")) [
    | inl p ↦ ground (arith)
    | inr p ↦ elim (Step-cases (validated merchant c).0) [
      | inr (r, s) ↦ ground (arith)
      | inl (d, s) ↦
          let e = ap (λ x. (x, (validated merchant c).1)) s in
          (p, (d, e ∙ ap (λ x. (next d, x)) (validate-IsValid env h _ e).0))
    ]
  ]

  the_costs :
      {c d : List Cost} {a b : List Event}
      → ◌≡◌ {A = Step Response (List Cost) × List Event} (next d, a) (next c, b)
      → d ≡ c
  the_costs e = ground (arith)

  validate_all-IsValidFor :
      (merchant : String) (costs : List Cost) {valid : List Cost} {h' : List Event}
      → validate_all env merchant costs h ≡ (next valid, h')
      → (h' ≡ h) × All (IsValidFor merchant) valid
  unfolding validate_all
  validate_all-IsValidFor merchant [] q =
      (sym (ap (λ x. x.1) q), subst (All (IsValidFor merchant)) (the_costs q) tt)
  validate_all-IsValidFor merchant (c ∷ costs) q =
      let (given, (d, v)) = first-valid merchant c costs q in
      let step = sym (cons-step merchant c costs given v) ∙ q in
      elim (Step-cases (rest_step merchant costs).0) [
        | inr (r, s) ↦ ground (arith)
        | inl (ds, s) ↦
            let k =
              validate_all-IsValidFor merchant costs
                (ap (λ x. (x, (rest_step merchant costs).1)) s) in
            let e =
              sym (go_on-next (λ es. pure (d ∷ es)) (rest_step merchant costs) s k.0) ∙ step in
            (
              sym (ap (λ x. x.1) e),
              subst (All (IsValidFor merchant)) (the_costs e)
                  (((validate-IsValid env h _ v).1, validate-merchant _ v), k.1),
            )
      ]

  -- When all costs of a merchant are set, nothing is done, or the validation passes every cost
  -- first: all that it passes are of the merchant, which is known, have the region of their country
  -- or one that tariffs know, and have currencies and a code that are supported.
  pub set_all_payment_channel_cost_merchant-checks :
      (merchant : String) (costs : List Cost)
      → ((set_all_payment_channel_cost_merchant env merchant costs h).1 ≡ h)
        ⊎ ((valid : List Cost) × (validate_all env merchant costs h ≡ (next valid, h))
            × All (IsValidFor merchant) valid)
  unfolding set_all_payment_channel_cost_merchant
  set_all_payment_channel_cost_merchant-checks merchant costs =
      elim (Step-cases (rest_step merchant costs).0) [
        | inr (r, s) ↦
            inl
              (go_on-done _ (rest_step merchant costs) s ∙ validate_all-quiet env merchant costs h)
        | inl (valid, s) ↦
            let e = ap (λ x. (x, (rest_step merchant costs).1)) s in
            let k = validate_all-IsValidFor merchant costs e in
            inr (valid, e ∙ ap (λ x. (next valid, x)) k.0, k.1)
      ]

  same_id : (req : Cost) → (str_eq (after_validation env req h).id "") ≡ str_eq req.id ""
  same_id req = ground (arith)

  validated-written :
      (req c : Cost) (m : Message)
      → str_eq req.id "" ≡ true
      → c ≡ record req { is_active = true; id = env.new_id h }
      → env.outcome (cost_inserted channel_merchant c ∷ h) ≡ ok tt
      → env.outcome (tariffs_updated c.merchant_id c ∷ cost_inserted channel_merchant c ∷ h) ≡ ok tt
      → set_validated env (some m) req h ≡ (
        next (answered_with m c),
        tariffs_updated c.merchant_id c ∷ cost_inserted channel_merchant c ∷ h,
      )
  unfolding set_validated save_channel
  validated-written req c m new made inserted updated = ground (arith)

  -- A new cost of payments to a merchant that the validation refuses is inserted as active, written
  -- to the tariffs of the merchant and answered with the status of success beside the message of the
  -- validation, if both writes succeed.
  pub set_payment_channel_cost_merchant-unchecked :
      (req c : Cost) (s : Status) (m : Message)
      → validate_payment_channel_cost_merchant env req h ≡ (done (refused s m), h)
      → str_eq req.id "" ≡ true
      → c ≡ record (after_validation env req h) { is_active = true; id = env.new_id h }
      → env.outcome (cost_inserted channel_merchant c ∷ h) ≡ ok tt
      → env.outcome (tariffs_updated c.merchant_id c ∷ cost_inserted channel_merchant c ∷ h) ≡ ok tt
      → set_payment_channel_cost_merchant env req h ≡ (
        next (answered_with m c),
        tariffs_updated c.merchant_id c ∷ cost_inserted channel_merchant c ∷ h,
      )
  unfolding set_payment_channel_cost_merchant save_channel
  set_payment_channel_cost_merchant-unchecked req c s m invalid new made inserted updated =
      ap
        (λ x.
          go_on {A = Result Response Cost}
            (λ checked k.
              set_validated env (left_message env checked) (after_validation env req k) k)
            (next (elim x.0 [ next a ↦ ok a | done e ↦ err e ]), x.1))
        invalid
      ∙ validated-written (after_validation env req h) c m (same_id req ∙ new) made inserted updated
