-- ===== src/BankCard/Outcome.antt =====
-- The outcome of the whole check.
use paysuper_billing_server.BankCard.Luhn.{validate_number_iff, luhn, luhn-luhn_sum}
use paysuper_billing_server.Base.{◌≤◌, ◌<◌, ◌≡◌, ◌↔◌, ◌%◌, arith, none, length}
use paysuper_billing_server.Strconv.{atoi}
use paysuper_billing_server.BankCard.{BankCardValidator, Today, full_year, validate}
use paysuper_billing_server.BankCard.Expiry.{IsCurrent, validate_expire_iff}

-- What the service accepts as a card.
pub record IsAccepted (now tn : Today) (v : BankCardValidator) : Type 0 where
  pub holder_given : 0 < length v.holder
  pub current : IsCurrent tn (full_year now v.year) (atoi v.month)
  pub month_given : 0 < length v.month
  pub year_given : 0 < length v.year
  pub cvv_length : (3 ≤ length v.cvv) × (length v.cvv ≤ 4)
  pub pan_length : (13 ≤ length v.pan) × (length v.pan ≤ 19)
  pub check_digit : luhn v.pan % 10 ≡ 0

validate-IsAccepted :
    (now tn : Today) (v : BankCardValidator) → validate now tn v ≡ none → IsAccepted now tn v
unfolding validate
validate-IsAccepted now tn v h =
    ground (arith, validate_expire_iff now tn v, validate_number_iff v.pan, luhn-luhn_sum v.pan)

IsAccepted-validate :
    (now tn : Today) (v : BankCardValidator) → IsAccepted now tn v → validate now tn v ≡ none
unfolding validate
IsAccepted-validate now tn v h =
    ground (arith, validate_expire_iff now tn v, validate_number_iff v.pan, luhn-luhn_sum v.pan)

-- A card is accepted exactly if every field is given, the month is not over, the code has three or
-- four bytes, and the number has 13 to 19 bytes and a Luhn sum that is a multiple of ten.
pub validate_iff :
    (now tn : Today) (v : BankCardValidator) → (validate now tn v ≡ none) ↔ IsAccepted now tn v
validate_iff now tn v = (validate-IsAccepted now tn v, IsAccepted-validate now tn v)
