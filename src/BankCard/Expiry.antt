-- ===== src/BankCard/Expiry.antt =====
-- What a passed expiry check means, and how short years are read.
use paysuper_billing_server.Base.{◌≡◌, ◌↔◌, arith, none}
use paysuper_billing_server.Base.Int.{ℤ, pos, ◌≤ℤ◌}
use paysuper_billing_server.Strconv.{atoi}
use paysuper_billing_server.BankCard.{BankCardValidator, Today, full_year, validate_expire}

-- The card's month and year, as the check reads them, are not before the month of the clock.
abbrev pub IsCurrent : Today → ℤ → ℤ → Type 0
IsCurrent tn year month =
    (pos 1 ≤ℤ month)
    × (month ≤ℤ pos 12)
    × (pos tn.this_year ≤ℤ year)
    × (year ≤ℤ pos tn.this_year → pos tn.this_month ≤ℤ month)

-- The expiry check passes exactly for a month from 1 to 12 that is not over.
pub validate_expire_iff :
    (now tn : Today) (v : BankCardValidator)
    → (validate_expire now tn v ≡ none) ↔ IsCurrent tn (full_year now v.year) (atoi v.month)
unfolding validate_expire
validate_expire_iff now tn v = ground arith
