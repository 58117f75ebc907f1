-- ===== src/BankCard.antt =====
-- The bank card check (internal/service/bank_card.go): required fields, expiry date, code and the
-- check digit of the number. A Go string is the list of its bytes; `strconv` is modelled as far as
-- the check uses it.
pub mod Luhn
pub mod Digits
pub mod Expiry
pub mod Outcome
mod Tests
use paysuper_billing_server.Base.{
  ℕ, zero, suc, ◌+◌, ◌*◌, ◌%◌, Bool, true, false, not, ◌&&◌, ◌||◌, Option, none, some, List, ◌++◌,
  length, get_or, take, ltb, leb, ◌==◌, if◌then◌else◌, [], ◌∷◌,
}
use paysuper_billing_server.Strconv.{atoi, itoa}
use paysuper_billing_server.Base.Int.{ℤ, pos, pos_part, ltb_ℤ}

pub record BankCardValidator : Type 0 where
  pub pan : List ℕ
  pub cvv : List ℕ
  pub month : List ℕ
  pub year : List ℕ
  pub holder : List ℕ

pub data CardError : Type 0 where
  pan_is_required cvv_is_required expire_month_is_required expire_year_is_required : CardError
  holder_is_required month_is_invalid is_expired cvv_is_invalid pan_is_invalid : CardError

-- What `time.Now().UTC()` gives: the year and the month from 1 to 12.
pub record Today : Type 0 where
  pub this_year : ℕ
  pub this_month : ℕ

-- One digit's share of the sum; `string(v.Pan[i])` is read by `Atoi`, whose error is dropped.
pub weigh : Bool → ℕ → ℕ
weigh alternate byte =
    let mod' = pos_part (atoi (byte ∷ [])) in
    if alternate then (if ltb 9 (mod' * 2) then (mod' * 2) % 10 + 1 else mod' * 2) else mod'

-- The loop from the last byte down to the first: `i` bytes are still to be read.
pub sum_digits : List ℕ → ℕ → ℕ → Bool → ℕ
unfolding weigh
sum_digits pan zero sum alternate = sum
sum_digits pan (suc i) sum alternate =
    sum_digits pan i (sum + weigh alternate (get_or pan i 0)) (not alternate)

unfoldable pub validate_number : List ℕ → Bool
unfolding sum_digits
validate_number pan =
    let number_len = length pan in
    if ltb number_len 13 || ltb 19 number_len
    then false
    else sum_digits pan number_len 0 false % 10 == 0

-- A year of one or two bytes is read behind the first two digits of the current year.
pub full_year : Today → List ℕ → ℤ
full_year now year =
    if ltb (length year) 3 then atoi (take 2 (itoa now.this_year) ++ year) else atoi year

-- The two readings of the clock are arguments of their own.
pub validate_expire : Today → Today → BankCardValidator → Option CardError
unfolding full_year
validate_expire now tn v =
    let year = full_year now v.year in
    let month = atoi v.month in
    if ltb_ℤ month (pos 1) || ltb_ℤ (pos 12) month
    then some month_is_invalid
    else if ltb_ℤ year (pos tn.this_year)
    then some is_expired
    else if not (ltb_ℤ (pos tn.this_year) year) && ltb_ℤ month (pos tn.this_month)
    then some is_expired
    else none

-- What follows a passed expiry check.
pub validate_code : BankCardValidator → Option CardError
unfolding validate_number
validate_code v =
    if ltb (length v.cvv) 3 || ltb 4 (length v.cvv)
    then some cvv_is_invalid
    else if ltb (length v.pan) 13
    then some pan_is_invalid
    else if not (validate_number v.pan)
    then some pan_is_invalid
    else none

-- `if err := …; err != nil { return err }` before the rest.
abbrev pub or_else : Option CardError → Option CardError → Option CardError
or_else (some err) rest = some err
or_else none rest = rest

-- `none` is Go's nil error.
pub validate : Today → Today → BankCardValidator → Option CardError
unfolding validate_expire validate_code
validate now tn v =
    if leb (length v.pan) 0
    then some pan_is_required
    else if leb (length v.cvv) 0
    then some cvv_is_required
    else if leb (length v.month) 0
    then some expire_month_is_required
    else if leb (length v.year) 0
    then some expire_year_is_required
    else if leb (length v.holder) 0
    then some holder_is_required
    else or_else (validate_expire now tn v) (validate_code v)
