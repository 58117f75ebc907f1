-- ===== src/BankCard/Luhn.antt =====
-- The loop over the card number computes the Luhn sum, digit by digit from the right.
use paysuper_billing_server.Strconv.{atoi}
use native.Mathlib.Nat.{add-zero, zero-add}
use paysuper_billing_server.Base.{
  ℕ, zero, suc, ◌+◌, ◌%◌, ◌≤◌, ◌<◌, ◌≡◌, refl, ◌↔◌, ap, ◌∙◌, Bool, true, false, not, List, [], ◌∷◌,
  ◌++◌, arith, length, take, get_or, length-append, ◌*◌, ◌/◌, ◌-◌, leb, ◌&&◌, if◌then◌else◌,
}
use paysuper_billing_server.BankCard.{weigh, sum_digits, validate_number}

-- Whether a digit with `n` digits to its right is doubled.
abbrev pub is_doubled : ℕ → Bool
is_doubled zero = false
is_doubled (suc n) = not (is_doubled n)

-- The Luhn sum from the left: every second digit from the right, the last not counted, is doubled.
unfoldable pub luhn_sum : List ℕ → ℕ
luhn_sum [] = 0
luhn_sum (c ∷ s) = weigh (is_doubled (length s)) c + luhn_sum s

-- A byte that is no digit is read as 0.
abbrev digit_of : ℕ → ℕ
digit_of c = if leb b'0' c && leb c b'9' then c - b'0' else 0

-- What a byte counts for: a digit for itself, a doubled one for the sum of the digits of its double,
-- and any other byte for nothing.
abbrev share : Bool → ℕ → ℕ
share true c = (digit_of c * 2) / 10 + (digit_of c * 2) % 10
share false c = digit_of c

-- The Luhn sum of a number as it is commonly described.
unfoldable pub luhn : List ℕ → ℕ
luhn [] = 0
luhn (c ∷ s) = share (is_doubled (length s)) c + luhn s

share-weigh : (alternate : Bool) (c : ℕ) → share alternate c ≡ weigh alternate c
unfolding weigh atoi
share-weigh true c = ground (arith)
share-weigh false c = ground (arith)

pub luhn-luhn_sum : (s : List ℕ) → luhn s ≡ luhn_sum s
unfolding luhn luhn_sum
luhn-luhn_sum [] = refl
luhn-luhn_sum (c ∷ s) = omega (arith, share-weigh (is_doubled (length s)) c, luhn-luhn_sum s)

-- The same with `k` more digits to the right.
pub sum_before : ℕ → List ℕ → ℕ
sum_before k [] = 0
sum_before k (c ∷ s) = weigh (is_doubled (length s + k)) c + sum_before k s

length-take-suc :
    (i : ℕ) (s : List ℕ) → i < length s → length (take (suc i) s) ≡ suc (length (take i s))
length-take-suc i [] h = elim h [ ]
length-take-suc zero (c ∷ s) h = refl
length-take-suc (suc i) (c ∷ s) h = ap suc (length-take-suc i s (omega arith))

sum_before-take :
    (k i : ℕ) (s : List ℕ)
    → i < length s
    → sum_before k (take (suc i) s)
      ≡ sum_before (suc k) (take i s) + weigh (is_doubled k) (get_or s i 0)
unfolding sum_before
sum_before-take k i [] h = elim h [ ]
sum_before-take k zero (c ∷ s) h = rw zero-add (omega arith)
sum_before-take k (suc i) (c ∷ s) h =
    let e : length (take (suc i) s) + k ≡ length (take i s) + suc k =
      omega (arith, length-take-suc i s (omega arith)) in
    rw e (omega (arith, sum_before-take k i s (omega arith)))

sum_digits-sum_before :
    (pan : List ℕ) (i k sum : ℕ)
    → i ≤ length pan
    → sum_digits pan i sum (is_doubled k) ≡ sum + sum_before k (take i pan)
unfolding sum_digits sum_before
sum_digits-sum_before pan zero k sum h = omega arith
sum_digits-sum_before pan (suc i) k sum h =
    sum_digits-sum_before pan i (suc k) (sum + weigh (is_doubled k) (get_or pan i 0)) (omega arith)
    ∙ omega (arith, sum_before-take k i pan (omega arith))

take-length : (s : List ℕ) → take (length s) s ≡ s
take-length [] = refl
take-length (c ∷ s) = rw (take-length s)

sum_before-luhn_sum : (s : List ℕ) → sum_before 0 s ≡ luhn_sum s
unfolding sum_before luhn_sum
sum_before-luhn_sum [] = refl
sum_before-luhn_sum (c ∷ s) = rw (add-zero, sum_before-luhn_sum s)

pub sum_digits-luhn_sum : (pan : List ℕ) → sum_digits pan (length pan) 0 false ≡ luhn_sum pan
sum_digits-luhn_sum pan =
    rw (sum_digits-sum_before pan (length pan) 0 0 (omega arith))
      (rw (take-length pan) (omega (arith, sum_before-luhn_sum pan)))

-- The number passes exactly if it has 13 to 19 bytes and its Luhn sum is a multiple of ten.
pub validate_number_iff :
    (pan : List ℕ)
    → (validate_number pan ≡ true)
      ↔ ((13 ≤ length pan) × (length pan ≤ 19) × (luhn_sum pan % 10 ≡ 0))
unfolding validate_number
validate_number_iff pan = rw (sum_digits-luhn_sum pan) (ground arith)

pub luhn_sum-append :
    (s : List ℕ) (t : List ℕ) → luhn_sum (s ++ t) ≡ sum_before (length t) s + luhn_sum t
unfolding luhn_sum sum_before
luhn_sum-append [] t = omega arith
luhn_sum-append (c ∷ s) t = rw (length-append s t) (omega (arith, luhn_sum-append s t))
