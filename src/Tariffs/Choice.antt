-- ===== src/Tariffs/Choice.antt =====
-- The choice of the interval of a cost (getMoneyBackCostMerchant, getMoneyBackCostSystem and
-- getPaymentChannelCostMerchant in internal/service): of the intervals that a value has reached,
-- the one that begins last.
use paysuper_billing_server.Base.Text.{String}
use paysuper_billing_server.Base.{
  ℕ, suc, Bool, Option, none, some, List, [], ◌∷◌, if◌then◌else◌, not, zero,
}
use paysuper_billing_server.Base.Int.{ℤ, ltb_ℤ}
use paysuper_billing_server.Floats.{Floats}
use paysuper_billing_server.Handler.{Result, ok, err}

-- `kvIntInt` and `kvIntFloat`: the index of an interval and where it begins.
pub record KeyValue (T : Type 0) : Type 0 where
  pub key : ℕ
  pub value : T

-- Why no interval is answered: none is found, none is reached, or the repository's error.
pub data ChoiceError : Type 0 where
  panic not_found not_matched repository_error : ChoiceError

-- An interval that begins at `start`, of a tariff `A`; `lt` and `le` order the beginnings, and
-- `sort_slice` is `sort.Slice` for an order.
module _ {A T : Type 0} (start : A → T) (lt le : T → T → Bool)
    (sort_slice : (KeyValue T → KeyValue T → Bool) → List (KeyValue T) → List (KeyValue T))
    (value : T) where
  -- A value has reached what is not above it.
  abbrev pub is_reached : A → Bool
  is_reached a = le (start a) value

  unfoldable pub matched : ℕ → List A → List (KeyValue T)
  matched k [] = []
  matched k (a ∷ tail) =
      let rest = matched (suc k) tail in
      if is_reached a then record { key = k; value = start a } ∷ rest else rest

  abbrev pub begins_later : KeyValue T → KeyValue T → Bool
  begins_later a b = lt b.value a.value

  abbrev pub get_elem? : List A → ℕ → Option A
  get_elem? [] k = none
  get_elem? (a ∷ tail) zero = some a
  get_elem? (a ∷ tail) (suc k) = get_elem? tail k

  abbrev pub at_first : List A → List (KeyValue T) → Result ChoiceError A
  at_first set [] = err panic
  at_first set (m ∷ ms) = elim (get_elem? set m.key) [ none ↦ err panic | some a ↦ ok a ]

  abbrev pub choose_in : List A → Result ChoiceError A → List (KeyValue T) → Result ChoiceError A
  choose_in set rest [] = rest
  choose_in set rest (m ∷ ms) = at_first set (sort_slice begins_later (m ∷ ms))

  -- The first set with an interval that is reached.
  unfoldable pub choose : List (List A) → Result ChoiceError A
  unfolding matched
  choose [] = err not_matched
  choose (set ∷ sets) = let rest = choose sets in choose_in set rest (matched 0 set)

  -- No list is an error of the repository, or a nil.
  unfoldable pub get_cost : Result (Unit {0}) (Option (List (List A))) → Result ChoiceError A
  unfolding choose
  get_cost (err e) = err repository_error
  get_cost (ok none) = err not_found
  get_cost (ok (some sets)) = choose sets

-- An interval of a cost of a refund begins at a day, and one of a payment at an amount.
pub record MoneyBackInterval : Type 0 where
  pub days_from : ℤ
  pub id : String

module _ (fl : Floats) where
  open fl use {F, less_f, le_f}

  pub record ChannelInterval : Type 0 where
    pub min_amount : F
    pub id : String

  unfoldable pub get_payment_channel_cost_merchant :
      ((KeyValue F → KeyValue F → Bool) → List (KeyValue F) → List (KeyValue F))
      → Result (Unit {0}) (Option (List (List ChannelInterval)))
      → F
      → Result ChoiceError ChannelInterval
  unfolding get_cost
  get_payment_channel_cost_merchant sort_slice found amount =
      get_cost (λ i. i.min_amount) less_f le_f sort_slice amount found

abbrev le_ℤ : ℤ → ℤ → Bool
le_ℤ a b = not (ltb_ℤ b a)

unfoldable pub get_money_back_cost_merchant :
    ((KeyValue ℤ → KeyValue ℤ → Bool) → List (KeyValue ℤ) → List (KeyValue ℤ))
    → Result (Unit {0}) (Option (List (List MoneyBackInterval)))
    → ℤ
    → Result ChoiceError MoneyBackInterval
unfolding get_cost
get_money_back_cost_merchant sort_slice found days =
    get_cost (λ i. i.days_from) ltb_ℤ le_ℤ sort_slice days found

unfoldable pub get_money_back_cost_system :
    ((KeyValue ℤ → KeyValue ℤ → Bool) → List (KeyValue ℤ) → List (KeyValue ℤ))
    → Result (Unit {0}) (Option (List (List MoneyBackInterval)))
    → ℤ
    → Result ChoiceError MoneyBackInterval
unfolding get_cost
get_money_back_cost_system sort_slice found days =
    get_cost (λ i. i.days_from) ltb_ℤ le_ℤ sort_slice days found
