-- ===== src/Settlement/Money.antt =====
-- What the calls on the balance of a merchant write (internal/service/merchant_balance.go).
use mathlib.Core.List.{append_assoc, append-nil}
use paysuper_billing_server.Base.{
  ◌≡◌, some, List, ◌∷◌, ◌⊎◌, inl, inr, arith, ℕ, Bool, true, false, none, Option, [], ◌++◌, refl,
  subst, Bool-cases, ap, sym, if◌then◌else◌,
}
use paysuper_billing_server.Base.Text.{String}
use paysuper_billing_server.Floats.{Floats}
use paysuper_billing_server.Handler.{next, done, ok, run, Result-cases, Result, err}
use paysuper_billing_server.Settlement.{
  no_documents, Merchant, MerchantBalance, Event, balance_inserted, Env, Error, message,
  other_error, Payout, ReserveEntry,
}
use paysuper_billing_server.Settlement.Balance.{
  update_merchant_balance, get_rolling_reserve_for_balance, get_merchant_balance,
  get_merchant_balance_request, sum_reserve, last_or_none, reserve_since,
}

module _ (fl : Floats) (env : Env fl) where
  open fl use {F, zero_f, add_f, sub_f}

  -- The total of entries: what is released is taken off, all else is added, one after the other.
  pub data IsTotal : List (ReserveEntry fl) → F → Type 0 where
    empty : IsTotal [] zero_f
    held :
        {items : List (ReserveEntry fl)} {t : F} (i : ReserveEntry fl)
        → i.is_release ≡ false
        → IsTotal items t
        → IsTotal (items ++ i ∷ []) (add_f t i.amount)
    released :
        {items : List (ReserveEntry fl)} {t : F} (i : ReserveEntry fl)
        → i.is_release ≡ true
        → IsTotal items t
        → IsTotal (items ++ i ∷ []) (sub_f t i.amount)

  -- The time of the last payout, or the zero time without one.
  abbrev pub IsLastPayoutTime : String → String → List (Event fl) → ℕ → Type 0
  IsLastPayoutTime merchant_id currency h since =
      (((env.last_payout h merchant_id currency ≡ ok none)
          ⊎ (env.last_payout h merchant_id currency ≡ err no_documents))
        × (since ≡ 0))
      ⊎ ((pd : Payout fl) × (env.last_payout h merchant_id currency ≡ ok (some pd))
          × (env.timestamp pd.created_at ≡ ok since))

  -- The total of the entries that the repository answers since the last payout.
  abbrev pub IsReserve : String → String → List (Event fl) → F → Type 0
  IsReserve merchant_id currency h rr =
      (since : ℕ) × (items : List (ReserveEntry fl)) × IsLastPayoutTime merchant_id currency h since
      × (env.reserve_entries h merchant_id currency since ≡ ok items)
      × IsTotal items rr

  -- A balance made of what the repositories answer for the merchant.
  unfoldable pub IsMadeFor : Merchant fl → String → List (Event fl) → MerchantBalance fl → Type 0
  IsMadeFor merchant merchant_id h b =
      (env.debit_amount h merchant.id merchant.payout_currency ≡ ok b.debit)
      × (env.credit_amount h merchant.id merchant.payout_currency ≡ ok b.credit)
      × IsReserve merchant_id merchant.payout_currency h b.rolling_reserve
      × (b.total ≡ sub_f (sub_f b.debit b.credit) b.rolling_reserve)
      × (b.merchant_id ≡ merchant_id)
      × (b.currency ≡ merchant.payout_currency)
      × (b.created_at ≡ env.now h)

  sum_reserve-IsTotal :
      (before items : List (ReserveEntry fl)) (t : F)
      → IsTotal before t
      → IsTotal (before ++ items) (sum_reserve fl env t items)
  unfolding sum_reserve
  sum_reserve-IsTotal before [] t h = rw (append-nil before) h
  sum_reserve-IsTotal before (i ∷ items) t h =
      let sum : Bool → F =
        λ b. sum_reserve fl env (if b then sub_f t i.amount else add_f t i.amount) items in
      subst (λ l. IsTotal l (sum i.is_release)) (append_assoc before (i ∷ []) items)
        (elim (Bool-cases i.is_release) [
          | inl e ↦
              subst (IsTotal ((before ++ i ∷ []) ++ items)) (ap sum (sym e))
                (sum_reserve-IsTotal (before ++ i ∷ []) items _ (released i e h))
          | inr e ↦
              subst (IsTotal ((before ++ i ∷ []) ++ items)) (ap sum (sym e))
                (sum_reserve-IsTotal (before ++ i ∷ []) items _ (held i e h))
        ])

  last_or_none-cases :
      (r : Result Error (Option (Payout fl)))
      → (((r ≡ ok none) ⊎ (r ≡ err no_documents)) × (last_or_none fl env r ≡ ok none))
        ⊎ (((pd : Payout fl) × (r ≡ ok (some pd)) × (last_or_none fl env r ≡ ok (some pd)))
            ⊎ ((e : Error) × (last_or_none fl env r ≡ err e)))
  last_or_none-cases (ok none) = inl (inl refl, refl)
  last_or_none-cases (ok (some pd)) = inr (inl (pd, refl, refl))
  last_or_none-cases (err no_documents) = inl (inr refl, refl)
  last_or_none-cases (err (message m)) = inr (inr (message m, refl))
  last_or_none-cases (err other_error) = inr (inr (other_error, refl))

  -- What follows the answer on the last payout.
  since_sum :
      (merchant_id currency : String) (h : List (Event fl)) {rr : F} (pd : Option (Payout fl))
      → last_or_none fl env (env.last_payout h merchant_id currency) ≡ ok pd
      → (get_rolling_reserve_for_balance fl env merchant_id currency h).0 ≡ next rr
      → (since : ℕ) × (items : List (ReserveEntry fl)) × (reserve_since fl env pd ≡ ok since)
        × (env.reserve_entries h merchant_id currency since ≡ ok items)
        × (sum_reserve fl env zero_f items ≡ rr)
  unfolding get_rolling_reserve_for_balance
  since_sum merchant_id currency h pd o e = elim (Result-cases (reserve_since fl env pd)) [
    | inr (x, p) ↦ ground (arith)
    | inl (since, p) ↦ elim (Result-cases (env.reserve_entries h merchant_id currency since)) [
      | inr (x, q) ↦ ground (arith)
      | inl (items, q) ↦ (since, items, p, q, ground (arith))
    ]
  ]

  total_of :
      (items : List (ReserveEntry fl)) {rr : F}
      → sum_reserve fl env zero_f items ≡ rr
      → IsTotal items rr
  total_of items e = subst (IsTotal items) e (sum_reserve-IsTotal [] items zero_f empty)

  get_rolling_reserve_for_balance-IsReserve :
      (merchant_id currency : String) (h : List (Event fl)) {rr : F}
      → (get_rolling_reserve_for_balance fl env merchant_id currency h).0 ≡ next rr
      → IsReserve merchant_id currency h rr
  unfolding get_rolling_reserve_for_balance
  get_rolling_reserve_for_balance-IsReserve merchant_id currency h e =
      elim (last_or_none-cases (env.last_payout h merchant_id currency)) [
        | inl (never, o) ↦
            let (since, items, p, q, s) = since_sum merchant_id currency h none o e in
            (since, items, inl (never, ground (arith)), q, total_of items s)
        | inr (inl (pd, last, o)) ↦
            let (since, items, p, q, s) = since_sum merchant_id currency h (some pd) o e in
            (since, items, inr (pd, last, p), q, total_of items s)
        | inr (inr (x, o)) ↦ ground (arith)
      ]

  get_rolling_reserve_for_balance-keeps :
      (merchant_id currency : String) (h : List (Event fl))
      → (get_rolling_reserve_for_balance fl env merchant_id currency h).1 ≡ h
  unfolding get_rolling_reserve_for_balance
  get_rolling_reserve_for_balance-keeps merchant_id currency h = ground (arith)

  -- What a balance is made of, with the reserve as the service computes it.
  balance_parts :
      (merchant : Merchant fl) (merchant_id : String) (h : List (Event fl)) {b : MerchantBalance fl}
      → env.merchant_by_id h merchant_id ≡ ok merchant
      → (update_merchant_balance fl env merchant_id h).0 ≡ next b
      → (env.debit_amount h merchant.id merchant.payout_currency ≡ ok b.debit)
        × (env.credit_amount h merchant.id merchant.payout_currency ≡ ok b.credit)
        × ((get_rolling_reserve_for_balance fl env merchant_id merchant.payout_currency h).0
            ≡ next b.rolling_reserve)
        × (b.total ≡ sub_f (sub_f b.debit b.credit) b.rolling_reserve)
        × (b.merchant_id ≡ merchant_id)
        × (b.currency ≡ merchant.payout_currency)
        × (b.created_at ≡ env.now h)
  unfolding update_merchant_balance
  balance_parts merchant merchant_id h p e =
      let keeps = get_rolling_reserve_for_balance-keeps merchant_id merchant.payout_currency h in
      ground (arith)

  update_merchant_balance-IsMadeFor :
      (merchant : Merchant fl) (merchant_id : String) (h : List (Event fl)) {b : MerchantBalance fl}
      → env.merchant_by_id h merchant_id ≡ ok merchant
      → (update_merchant_balance fl env merchant_id h).0 ≡ next b
      → IsMadeFor merchant merchant_id h b
  unfolding IsMadeFor
  update_merchant_balance-IsMadeFor merchant merchant_id h p e =
      let (debit, credit, reserve, total, merchant_id_of, currency_of, made_at) =
        balance_parts merchant merchant_id h p e in
      let is_reserve =
        get_rolling_reserve_for_balance-IsReserve merchant_id merchant.payout_currency h reserve in
      (debit, credit, is_reserve, total, merchant_id_of, currency_of, made_at)

  -- A refresh of the balance that succeeds stores one balance, of the merchant, in its currency and
  -- made now, and does nothing else; its debit and credit are those that the repositories answer for
  -- the merchant and its currency, its rolling reserve is the total of the entries that they answer
  -- since the last payout, or since the zero time without one, with what is released taken off and
  -- all else added, and its total is the debit less the credit less the reserve.
  pub update_merchant_balance-writes :
      (merchant_id : String) (h : List (Event fl)) {b : MerchantBalance fl}
      → (update_merchant_balance fl env merchant_id h).0 ≡ next b
      → ((update_merchant_balance fl env merchant_id h).1 ≡ balance_inserted b ∷ h)
        × ((merchant : Merchant fl) × (env.merchant_by_id h merchant_id ≡ ok merchant)
            × IsMadeFor merchant merchant_id h b)
  unfolding update_merchant_balance
  update_merchant_balance-writes merchant_id h e =
      elim (Result-cases (env.merchant_by_id h merchant_id)) [
        | inr (r, p) ↦ ground (arith)
        | inl (merchant, p) ↦ (
          ground (arith),
          (merchant, p, update_merchant_balance-IsMadeFor merchant merchant_id h p e),
        )
      ]

  pub get_merchant_balance-keeps :
      (merchant_id : String) (h : List (Event fl))
      → (get_merchant_balance fl env merchant_id h).1 ≡ h
  unfolding get_merchant_balance
  get_merchant_balance-keeps merchant_id h = ground (arith)

  update_merchant_balance-inserts :
      (merchant_id : String) (h : List (Event fl)) (b : MerchantBalance fl)
      → (update_merchant_balance fl env merchant_id h).0 ≡ next b
      → (update_merchant_balance fl env merchant_id h).1 ≡ balance_inserted b ∷ h
  update_merchant_balance-inserts merchant_id h b e =
      (update_merchant_balance-writes merchant_id h e).0

  -- The answered balance is the stored one, and nothing is done, or there is no stored one, and
  -- the answered one is stored and nothing else is done.
  pub get_merchant_balance_request-item :
      (merchant_id : String) (h : List (Event fl)) {b : MerchantBalance fl}
      → (run (get_merchant_balance_request fl env merchant_id) h).0.1.item ≡ some b
      → (((get_merchant_balance fl env merchant_id h).0 ≡ next b)
          × ((run (get_merchant_balance_request fl env merchant_id) h).1 ≡ h))
        ⊎ (((get_merchant_balance fl env merchant_id h).0 ≡ done no_documents)
            × ((run (get_merchant_balance_request fl env merchant_id) h).1
                ≡ balance_inserted b ∷ h))
  unfolding get_merchant_balance_request
  get_merchant_balance_request-item merchant_id h {b} e = ground (
    arith,
    get_merchant_balance-keeps merchant_id h,
    update_merchant_balance-inserts merchant_id h b,
  )
