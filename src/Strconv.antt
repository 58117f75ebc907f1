-- ===== src/Strconv.antt =====
-- `strconv.Atoi` on the bytes of a string, its error dropped as the callers drop it, and
-- `strconv.Itoa` of a number that is not negative. Words have 64 bits.
use paysuper_billing_server.Base.{
  ℕ, zero, suc, ◌+◌, ◌-◌, ◌*◌, ◌/◌, ◌%◌, ◌^◌, Bool, ◌&&◌, List, [], ◌∷◌, ◌++◌, ltb, leb, ◌==◌,
  if◌then◌else◌,
}
use paysuper_billing_server.Base.Int.{ℤ, pos, negsuc}

pub is_digit : ℕ → Bool
is_digit c = leb b'0' c && leb c b'9'

pub data Parsed : Type 0 where
  syntax_error range_error : Parsed
  value : ℕ → Parsed

-- `ParseUint` in base 10, which stops at the first byte that is no digit or that overflows.
parse_uint : ℕ → List ℕ → Parsed
unfolding is_digit
parse_uint n [] = value n
parse_uint n (c ∷ s) =
    let n' = n * 10 + (c - b'0') in
    let rest = parse_uint n' s in
    if is_digit c then (if leb (2 ^ 64) n' then range_error else rest) else syntax_error

parse_digits : List ℕ → Parsed
unfolding parse_uint
parse_digits [] = syntax_error
parse_digits (c ∷ s) = parse_uint 0 (c ∷ s)

-- A value out of range is cut to the nearest one in range.
int_pos : Parsed → ℤ
int_pos syntax_error = pos 0
int_pos range_error = pos (2 ^ 63 - 1)
int_pos (value n) = if leb (2 ^ 63) n then pos (2 ^ 63 - 1) else pos n

int_neg : Parsed → ℤ
int_neg syntax_error = pos 0
int_neg range_error = negsuc (2 ^ 63 - 1)
int_neg (value zero) = pos 0
int_neg (value (suc n)) = if leb (2 ^ 63) n then negsuc (2 ^ 63 - 1) else negsuc n

unfoldable pub atoi : List ℕ → ℤ
unfolding parse_digits int_pos int_neg
atoi [] = pos 0
atoi (c ∷ s) =
    if c == b'-'
    then int_neg (parse_digits s)
    else if c == b'+'
    then int_pos (parse_digits s)
    else int_pos (parse_digits (c ∷ s))

-- `fuel` is above the number of digits.
digits : ℕ → ℕ → List ℕ
digits zero n = []
digits (suc fuel) n =
    let more = digits fuel (n / 10) ++ (b'0' + n % 10) ∷ [] in
    if ltb n 10 then (b'0' + n) ∷ [] else more

unfoldable pub itoa : ℕ → List ℕ
unfolding digits
itoa n = digits (suc n) n
