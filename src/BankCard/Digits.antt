-- ===== src/BankCard/Digits.antt =====
-- What the check digit detects: a digit that is mistyped, and two neighbours that are swapped.
use paysuper_billing_server.Base.{
  ℕ, ◌+◌, ◌*◌, ◌-◌, ◌%◌, ◌≤◌, ◌≡◌, ◌≢◌, refl, sym, ◌∙◌, Bool, true, false, not, List, ◌∷◌, ◌++◌,
  arith, length, ltb, if◌then◌else◌, inl, inr, Bool-cases, ◌⊎◌,
}
use paysuper_billing_server.Strconv.{atoi}
use paysuper_billing_server.BankCard.{weigh, validate_number}
use paysuper_billing_server.BankCard.Luhn.{
  is_doubled, luhn_sum, sum_before, luhn_sum-append, validate_number_iff,
}

abbrev pub IsDigit : ℕ → Type 0
IsDigit c = (b'0' ≤ c) × (c ≤ b'9')

weigh_plain : (c : ℕ) → IsDigit c → weigh false c ≡ c - b'0'
unfolding weigh atoi
weigh_plain c h = ground arith

weigh_doubled :
    (c : ℕ)
    → IsDigit c
    → weigh true c ≡ (if ltb 9 ((c - b'0') * 2) then ((c - b'0') * 2) % 10 + 1 else (c - b'0') * 2)
unfolding weigh atoi
weigh_doubled c h = ground arith

-- Doubling keeps different digits different.
weigh_injective :
    (alternate : Bool) (c d n : ℕ)
    → IsDigit c
    → IsDigit d
    → (n + weigh alternate c) % 10 ≡ (n + weigh alternate d) % 10
    → c ≡ d
weigh_injective false c d n hc hd e = ground (arith, weigh_plain c hc, weigh_plain d hd)
weigh_injective true c d n hc hd e = ground (arith, weigh_doubled c hc, weigh_doubled d hd)

-- Two digits that may be swapped unseen.
abbrev pub IsNinetyPair : ℕ → ℕ → Type 0
IsNinetyPair c d = ((c ≡ b'0') × (d ≡ b'9')) ⊎ ((c ≡ b'9') × (d ≡ b'0'))

weigh_swap :
    (alternate : Bool) (c d n : ℕ)
    → IsDigit c
    → IsDigit d
    → (n + weigh (not alternate) c + weigh alternate d) % 10
      ≡ (n + weigh (not alternate) d + weigh alternate c) % 10
    → (c ≡ d) ⊎ IsNinetyPair c d
weigh_swap false c d n hc hd e =
    ground (arith, weigh_plain c hc, weigh_plain d hd, weigh_doubled c hc, weigh_doubled d hd)
weigh_swap true c d n hc hd e =
    ground (arith, weigh_plain c hc, weigh_plain d hd, weigh_doubled c hc, weigh_doubled d hd)

-- Where two numbers share a beginning, their sums modulo ten are compared on the ends.
luhn_sum-tail :
    (s t u : List ℕ)
    → length t ≡ length u
    → luhn_sum (s ++ t) % 10 ≡ 0
    → luhn_sum (s ++ u) % 10 ≡ 0
    → (sum_before (length t) s + luhn_sum t) % 10 ≡ (sum_before (length t) s + luhn_sum u) % 10
luhn_sum-tail s t u e p q =
    let p' = rw (luhn_sum-append s t) at p in
    let q' = rw (← e) at (rw (luhn_sum-append s u) at q) in p' ∙ sym q'

-- A number with one digit changed is never accepted beside the original.
pub validate_number-changed_digit :
    (s t : List ℕ) (c d : ℕ)
    → IsDigit c
    → IsDigit d
    → c ≢ d
    → validate_number (s ++ (c ∷ t)) ≡ true
    → validate_number (s ++ (d ∷ t)) ≡ false
validate_number-changed_digit s t c d hc hd ne ok =
    elim (Bool-cases (validate_number (s ++ (d ∷ t)))) [
      | inr refused ↦ refused
      | inl also ↦ absurd (
          ne (
            weigh_injective (is_doubled (length t)) c d (sum_before (length (c ∷ t)) s + luhn_sum t)
              hc hd
              (unfold luhn_sum in
                omega (
                  arith,
                  luhn_sum-tail s (c ∷ t) (d ∷ t) refl ((validate_number_iff _).0 ok).2
                      ((validate_number_iff _).0 also).2,
                ))))
    ]

-- Two different neighbours that are swapped are noticed, unless they are 0 and 9.
pub validate_number-swapped_digits :
    (s t : List ℕ) (c d : ℕ)
    → IsDigit c
    → IsDigit d
    → c ≢ d
    → ¬ IsNinetyPair c d
    → validate_number (s ++ (c ∷ d ∷ t)) ≡ true
    → validate_number (s ++ (d ∷ c ∷ t)) ≡ false
validate_number-swapped_digits s t c d hc hd ne nine ok =
    elim (Bool-cases (validate_number (s ++ (d ∷ c ∷ t)))) [
      | inr refused ↦ refused
      | inl also ↦
          let same =
            weigh_swap (is_doubled (length t)) c d (sum_before (length (c ∷ d ∷ t)) s + luhn_sum t)
              hc hd
              (unfold luhn_sum in
                omega (
                  arith,
                  luhn_sum-tail s (c ∷ d ∷ t) (d ∷ c ∷ t) refl ((validate_number_iff _).0 ok).2
                      ((validate_number_iff _).0 also).2,
                )) in
          elim same [ inl e ↦ absurd (ne e) | inr e ↦ absurd (nine e) ]
    ]
