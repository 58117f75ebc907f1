-- ===== src/Tariffs/Valid.antt =====
-- The checks of a cost (validatePaymentChannelCostMerchant and what the other Set… methods share with
-- it in internal/service): they do nothing to the outside, and let only valid costs pass.
use paysuper_billing_server.Response.{bad_data, not_found}
use paysuper_billing_server.Base.{
  true, false, some, List, [], ◌∷◌, ◌≡◌, refl, sym, ap, ◌∙◌, subst, ◌⊎◌, inl, inr, All, arith,
  Bool-cases, Option-cases, not,
}
use paysuper_billing_server.Base.Text.{String, str_eq}
use paysuper_billing_server.Handler.{
  Step, next, go_on, go_on-next, go_on-keeps, Step-cases, ◌>>=◌, pure, return_if,
}
use paysuper_billing_server.Tariffs.{
  Kind, channel_merchant, Cost, Response, Event, Env, refused, merchant_not_found,
  cost_id_not_found,
}
use paysuper_billing_server.Tariffs.Setting.{Call, contains, with_region, check_codes, check_all}
use paysuper_billing_server.Tariffs.Channel.{
  validate_payment_channel_cost_merchant, validate_all, channel_names,
}

module _ (env : Env) where
  -- The checks do nothing to the outside.
  pub with_region-quiet : (req : Cost) (h : List Event) → (with_region env req h).1 ≡ h
  unfolding with_region
  with_region-quiet req h = ground (arith)

  pub check_all-quiet :
      (kind : Kind) (currencies names : List String) (h : List Event)
      → (check_all env kind currencies names h).1 ≡ h
  check_all-quiet kind currencies [] h = refl
  check_all-quiet kind currencies (n ∷ names) h =
      ground (arith, check_all-quiet kind currencies names h)

  pub check_codes-quiet :
      (kind : Kind) (names : List String) (req : Cost) (h : List Event)
      → (check_codes env kind names req h).1 ≡ h
  unfolding check_codes
  check_codes-quiet kind names req h = elim (Option-cases (env.settlement_currencies h)) [
    | inl p ↦ ground (arith)
    | inr (currencies, p) ↦ ground (arith, check_all-quiet kind currencies names h)
  ]

  pub validate-quiet :
      (req : Cost) (h : List Event) → (validate_payment_channel_cost_merchant env req h).1 ≡ h
  unfolding validate_payment_channel_cost_merchant
  validate-quiet req h = elim (Bool-cases (env.merchant_exists h req.merchant_id)) [
    | inr p ↦ ground (arith)
    | inl p ↦
        ap
          (λ b.
            (go_on (λ _. rest req) (return_if (not b) (refused not_found merchant_not_found) h)).1)
          p
        ∙ (go_on-keeps (λ k. k) (λ d. codes d) (with_region env req h)
              (λ d k.
                go_on-keeps (λ k. k) (λ _. pure d)
                  (check_codes env channel_merchant (channel_names env d) d k) (λ _ _. refl)
                ∙ check_codes-quiet channel_merchant (channel_names env d) d k)
            ∙ with_region-quiet req h)
  ]
    where
      codes : Cost → Call Cost
      codes d = check_codes env channel_merchant (channel_names env d) d >>= λ _. pure d

      rest : Cost → Call Cost
      rest d = with_region env d >>= codes

  pub validate_all-quiet :
      (merchant : String) (costs : List Cost) (h : List Event)
      → (validate_all env merchant costs h).1 ≡ h
  unfolding validate_all
  validate_all-quiet merchant [] h = refl
  validate_all-quiet merchant (c ∷ costs) h = elim (Bool-cases (str_eq c.id "")) [
    | inl p ↦ ground (arith)
    | inr p ↦
        ap (λ b. (go_on (λ _. rest) (return_if b (refused bad_data cost_id_not_found) h)).1) p
        ∙ (go_on-keeps (λ k. k) (λ d. others d)
              (validate_payment_channel_cost_merchant env (record c { merchant_id = merchant }) h)
              (λ d k.
                go_on-keeps (λ k. k) (λ ds. pure (d ∷ ds)) (validate_all env merchant costs k)
                  (λ _ _. refl)
                ∙ validate_all-quiet merchant costs k)
            ∙ validate-quiet _ h)
  ]
    where
      others : Cost → Call (List Cost)
      others d = validate_all env merchant costs >>= λ ds. pure (d ∷ ds)

      rest : Call (List Cost)
      rest =
          validate_payment_channel_cost_merchant env (record c { merchant_id = merchant })
          >>= others

module _ (env : Env) (h : List Event) where
  -- The region is the country's, or, without a country, one that tariffs know.
  abbrev pub HasRegion : Cost → Type 0
  HasRegion c =
      ((str_eq c.country "" ≡ false) × (env.country_region h c.country ≡ some c.region))
      ⊎ ((str_eq c.country "" ≡ true) × (env.is_region_supported h c.region ≡ true))

  -- The currencies of a list are supported, and the code.
  abbrev pub HasCodes : List String → Cost → Type 0
  HasCodes names c =
      (currencies : List String) × (env.settlement_currencies h ≡ some currencies)
      × All (λ n. contains currencies n ≡ true) names
      × (contains env.supported_mcc_codes c.mcc_code ≡ true)

  pub with_region-HasRegion :
      (req : Cost) {c : Cost} {h' : List Event}
      → with_region env req h ≡ (next c, h')
      → (h' ≡ h) × HasRegion c × (c.merchant_id ≡ req.merchant_id)
  unfolding with_region
  with_region-HasRegion req q = ground (arith)

  passed :
      (kind : Kind) (currencies : List String) (n : String) (names : List String)
      → contains currencies n ≡ true
      → check_all env kind currencies (n ∷ names) h ≡ check_all env kind currencies names h
  passed kind currencies n names p = ground (arith)

  check_all-contained :
      (kind : Kind) (currencies names : List String) {u : Unit {0}} {h' : List Event}
      → check_all env kind currencies names h ≡ (next u, h')
      → (h' ≡ h) × All (λ n. contains currencies n ≡ true) names
  check_all-contained kind currencies [] q = ground (arith)
  check_all-contained kind currencies (n ∷ names) q = elim (Bool-cases (contains currencies n)) [
    | inr p ↦ ground (arith)
    | inl p ↦
        let rest =
          check_all-contained kind currencies names (sym (passed kind currencies n names p) ∙ q) in
        (rest.0, (p, rest.1))
  ]

  after :
      (kind : Kind) (currencies names : List String) (req : Cost) {u v : Unit {0}} {h' : List Event}
      → env.settlement_currencies h ≡ some currencies
      → (check_all env kind currencies names h).0 ≡ next v
      → contains env.supported_mcc_codes req.mcc_code ≡ true
      → check_codes env kind names req h ≡ (next u, h')
      → h' ≡ (check_all env kind currencies names h).1
  unfolding check_codes
  after kind currencies names req p s m q = ground (arith)

  check_codes-HasCodes :
      (kind : Kind) (names : List String) (req : Cost) {u : Unit {0}} {h' : List Event}
      → check_codes env kind names req h ≡ (next u, h')
      → (h' ≡ h) × HasCodes names req
  unfolding check_codes
  check_codes-HasCodes kind names req {u} {h'} q =
      elim (Option-cases (env.settlement_currencies h)) [
        | inl p ↦ ground (arith)
        | inr (currencies, p) ↦ elim (Step-cases (check_all env kind currencies names h).0) [
          | inr (r, s) ↦ ground (arith)
          | inl (v, s) ↦
              let c =
                check_all-contained kind currencies names
                  (ap (λ x. (x, (check_all env kind currencies names h).1)) s) in
              elim (Bool-cases (contains env.supported_mcc_codes req.mcc_code)) [
                | inr m ↦ ground (arith)
                | inl m ↦ (after kind currencies names req p s m q ∙ c.0, (currencies, p, c.1, m))
              ]
        ]
      ]

  -- A cost of a merchant that is known, with a region and codes that are.
  abbrev pub IsValid : Cost → Type 0
  IsValid c =
      (env.merchant_exists h c.merchant_id ≡ true) × HasRegion c × HasCodes (channel_names env c) c

  abbrev pub codes_step : Cost → Step Response (Unit {0}) × List Event
  codes_step c = check_codes env channel_merchant (channel_names env c) c h

  pub after_region :
      (req : Cost) {c : Cost}
      → env.merchant_exists h req.merchant_id ≡ true
      → with_region env req h ≡ (next c, h)
      → validate_payment_channel_cost_merchant env req h ≡ go_on (λ _. pure c) (codes_step c)
  unfolding validate_payment_channel_cost_merchant
  after_region req p q = ground (arith)

  pub at_region :
      (req : Cost) {c : Cost} {h' : List Event}
      → validate_payment_channel_cost_merchant env req h ≡ (next c, h')
      → (env.merchant_exists h req.merchant_id ≡ true)
        × ((d : Cost) × (with_region env req h ≡ (next d, h)))
  unfolding validate_payment_channel_cost_merchant
  at_region req q = elim (Bool-cases (env.merchant_exists h req.merchant_id)) [
    | inr p ↦ ground (arith)
    | inl p ↦ elim (Step-cases (with_region env req h).0) [
      | inr (r, s) ↦ ground (arith)
      | inl (d, s) ↦
          let e = ap (λ x. (x, (with_region env req h).1)) s in
          (p, (d, e ∙ ap (λ x. (next d, x)) (with_region-HasRegion req e).0))
    ]
  ]

  the_cost :
      {c d : Cost} {a b : List Event}
      → ◌≡◌ {A = Step Response Cost × List Event} (next d, a) (next c, b)
      → d ≡ c
  the_cost e = ground (arith)

  pub at_codes :
      (c : Cost) {d : Cost} {h' : List Event}
      → go_on (λ _. pure d) (codes_step d) ≡ (next c, h')
      → (d ≡ c) × (h' ≡ h) × HasCodes (channel_names env d) d
  at_codes c {d} {h'} q = elim (Step-cases (codes_step d).0) [
    | inr (r, s) ↦ ground (arith)
    | inl (u, s) ↦
        let k =
          check_codes-HasCodes channel_merchant (channel_names env d) d
            (ap (λ x. (x, (codes_step d).1)) s) in
        let e = sym (go_on-next (λ _. pure d) (codes_step d) s k.0) ∙ q in
        (the_cost e, sym (ap (λ x. x.1) e), k.1)
  ]

  pub validate-IsValid :
      (req : Cost) {c : Cost} {h' : List Event}
      → validate_payment_channel_cost_merchant env req h ≡ (next c, h')
      → (h' ≡ h) × IsValid c
  unfolding validate_payment_channel_cost_merchant
  validate-IsValid req {c} {h'} q =
      let (known, (d, w)) = at_region req q in
      let region = with_region-HasRegion req w in
      let (same, quiet, codes) = at_codes c (sym (after_region req known w) ∙ q) in
      (
        quiet,
        subst IsValid same
            (subst (λ m. env.merchant_exists h m ≡ true) (sym region.2) known, region.1, codes),
      )
