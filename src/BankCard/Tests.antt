-- ===== src/BankCard/Tests.antt =====
-- Runs of the card check, and the theorems at concrete cards.
use paysuper_billing_server.Base.{ℕ, ◌≡◌, ◌↔◌, refl, List, [], ◌∷◌, ◌++◌, none, some, true}
use paysuper_billing_server.Strconv.{atoi, itoa}
use paysuper_billing_server.BankCard.{
  BankCardValidator, Today, validate, validate_number, is_expired, month_is_invalid,
}
use paysuper_billing_server.BankCard.Outcome.{IsAccepted, validate_iff}

-- 4000000000000002, with its last two digits apart.
abbrev front : List ℕ
front =
    b'4' ∷ b'0' ∷ b'0' ∷ b'0' ∷ b'0' ∷ b'0' ∷ b'0' ∷ b'0' ∷ b'0' ∷ b'0' ∷ b'0' ∷ b'0' ∷ b'0' ∷ b'0'
    ∷ []

abbrev pan : List ℕ
pan = front ++ (b'0' ∷ b'2' ∷ [])

abbrev today : Today
today = record { this_year = 2026; this_month = 7 }

abbrev card : BankCardValidator
card = record {
  pan = pan;
  cvv = b'1' ∷ b'2' ∷ b'3' ∷ [];
  month = b'0' ∷ b'7' ∷ [];
  year = b'2' ∷ b'6' ∷ [];
  holder = b'M' ∷ [];
}

card_accepted : validate today today card ≡ none
unfolding validate atoi itoa
card_accepted = refl

abbrev old : BankCardValidator
old = record card { month = b'6' ∷ [] }

old_refused : validate today today old ≡ some is_expired
unfolding validate atoi itoa
old_refused = refl

-- A sign is read as part of the number.
signed_month : validate today today (record card { month = b'+' ∷ b'9' ∷ [] }) ≡ none
unfolding validate atoi itoa
signed_month = refl

negative_month :
    validate today today (record card { month = b'-' ∷ b'9' ∷ [] }) ≡ some month_is_invalid
unfolding validate atoi itoa
negative_month = refl

pan_valid : validate_number pan ≡ true
unfolding validate_number atoi
pan_valid = refl

validate_iff_example : (validate today today card ≡ none) ↔ IsAccepted today today card
validate_iff_example = validate_iff today today card
