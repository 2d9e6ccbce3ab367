-- ===== src/Number.antt =====
-- Numbers as text: what the agent uses of strconv, and the verbs %d and %X of fmt.
-- A parse returns Go's value together with whether its error is nil; an overflow gives the bound.
pub mod Laws
use flux_pg_cluster.Base.{
  ℕ, zero, suc, ◌+◌, ◌-◌, ◌*◌, ◌/◌, ◌%◌, ◌^◌, Bool, true, false, ◌&&◌, Option, none, some, [], ◌∷◌,
  ◌++◌, ◌==◌, leb, ltb, if◌then◌else◌,
}
use flux_pg_cluster.Base.Int.{ℤ, pos, negsuc}
use flux_pg_cluster.Text.{Text}

unfoldable pub digit_value : ℕ → Option ℕ
digit_value c =
    if leb b'0' c && leb c b'9'
    then some (c - 48)
    else if leb b'a' c && leb c b'z'
    then some (c - 87)
    else if leb b'A' c && leb c b'Z'
    then some (c - 55)
    else none

unfoldable pub add_digit : ℕ → ℕ → Option ℕ → Option ℕ
add_digit base acc none = none
add_digit base acc (some d) = if ltb d base then some (acc * base + d) else none

abbrev pub or_fail : Option ℕ → (ℕ → Option ℕ) → Option ℕ
or_fail none f = none
or_fail (some n) f = f n

-- The digits of a text in some base, read onto a number.
unfoldable pub read_digits : ℕ → Text → ℕ → Option ℕ
unfolding add_digit digit_value
read_digits base [] acc = some acc
read_digits base (c ∷ s) acc =
    or_fail (add_digit base acc (digit_value c)) (λ n. read_digits base s n)

-- At least one digit.
unfoldable pub read_number : ℕ → Text → Option ℕ
unfolding read_digits
read_number base [] = none
read_number base (c ∷ s) = read_digits base (c ∷ s) 0

abbrev pub clamp_uint : ℕ → Option ℕ → ℕ × Bool
clamp_uint bits none = (0, false)
clamp_uint bits (some n) = if ltb n (2 ^ bits) then (n, true) else (2 ^ bits - 1, false)

-- strconv.ParseUint(s, base, bits)
unfoldable pub parse_uint : Text → ℕ → ℕ → ℕ × Bool
unfolding read_number
parse_uint s base bits = clamp_uint bits (read_number base s)

abbrev pub clamp_pos : Option ℕ → ℤ × Bool
clamp_pos none = (pos 0, false)
clamp_pos (some n) = if ltb n (2 ^ 63) then (pos n, true) else (pos (2 ^ 63 - 1), false)

abbrev pub negate : ℕ → ℤ
negate zero = pos 0
negate (suc n) = negsuc n

abbrev pub clamp_neg : Option ℕ → ℤ × Bool
clamp_neg none = (pos 0, false)
clamp_neg (some n) = if leb n (2 ^ 63) then (negate n, true) else (negsuc (2 ^ 63 - 1), false)

-- strconv.Atoi(s), and strconv.ParseInt(s, 10, 64)
unfoldable pub atoi : Text → ℤ × Bool
unfolding read_number
atoi [] = (pos 0, false)
atoi (c ∷ s) =
    if c == b'-'
    then clamp_neg (read_number 10 s)
    else if c == b'+'
    then clamp_pos (read_number 10 s)
    else clamp_pos (read_number 10 (c ∷ s))

abbrev pub digit_byte : ℕ → ℕ
digit_byte d = if ltb d 10 then 48 + d else 55 + d

-- The digits of a number, on fuel: a number below the fuel is written in full.
unfoldable pub to_digits : ℕ → ℕ → ℕ → Text
to_digits base zero n = []
to_digits base (suc fuel) n =
    let front = to_digits base fuel (n / base) in
    if ltb n base then digit_byte n ∷ [] else front ++ digit_byte (n % base) ∷ []

-- %d of an unsigned number
unfoldable pub print_nat : ℕ → Text
unfolding to_digits
print_nat n = to_digits 10 (suc n) n

-- %X
unfoldable pub print_hex : ℕ → Text
unfolding to_digits
print_hex n = to_digits 16 (suc n) n

-- strconv.Itoa, strconv.FormatInt(n, 10) and %d
unfoldable pub itoa : ℤ → Text
unfolding print_nat
itoa (pos n) = print_nat n
itoa (negsuc n) = b'-' ∷ print_nat (suc n)
