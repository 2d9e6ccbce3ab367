-- ===== src/Number/Laws.antt =====
-- Reading a printed number gives the number, and a printed number holds digits only.
use mathlib.Core.Path.{fun_ext}
use mathlib.Core.List.{concat-ne-nil}
use native.Mathlib.Nat.{pow-suc}
use flux_pg_cluster.Base.{
  ℕ, zero, suc, ◌+◌, ◌*◌, ◌/◌, ◌%◌, ◌^◌, ◌<◌, ◌≤◌, ◌^◌, ◌≡◌, ◌≢◌, refl, sym, ◌∙◌, ap, ◌⊎◌, inl, inr,
  true, false, Option, none, some, [], ◌∷◌, ◌++◌, ltb, arith, All, All-append, All-map, length,
  length-append, Bool-cases,
}
use flux_pg_cluster.Base.Int.{ℤ, pos, negsuc, FitsInt64}
use flux_pg_cluster.Text.{Text, is_space}
use flux_pg_cluster.Number.{
  digit_value, add_digit, or_fail, read_digits, read_number, parse_uint, atoi, clamp_pos, clamp_neg,
  digit_byte, to_digits, print_nat, print_hex, itoa,
}

or_fail_assoc :
    (o : Option ℕ) (f g : ℕ → Option ℕ) → or_fail (or_fail o f) g ≡ or_fail o (λ n. or_fail (f n) g)
or_fail_assoc none f g = refl
or_fail_assoc (some n) f g = refl

read_digits-append :
    (base : ℕ) (s t : Text) (acc : ℕ)
    → read_digits base (s ++ t) acc ≡ or_fail (read_digits base s acc) (λ n. read_digits base t n)
unfolding read_digits
read_digits-append base [] t acc = refl
read_digits-append base (c ∷ s) t acc =
    ap (or_fail (add_digit base acc (digit_value c))) (fun_ext (λ n. read_digits-append base s t n))
    ∙ sym (or_fail_assoc (add_digit base acc (digit_value c)) _ _)

-- The bases that the agent prints in.
abbrev IsBase : ℕ → Type 0
IsBase base = (base ≡ 10) ⊎ (base ≡ 16)

read_digit :
    (base d acc : ℕ)
    → IsBase base
    → d < base
    → read_digits base (digit_byte d ∷ []) acc ≡ some (acc * base + d)
unfolding read_digits
read_digit base d acc (inl e) h = rw e (ground arith)
read_digit base d acc (inr e) h = rw e (ground arith)

div-lt : (base fuel n : ℕ) → IsBase base → n < suc fuel → ltb n base ≡ false → n / base < fuel
div-lt base fuel n (inl e) h k = rw e (ground arith)
div-lt base fuel n (inr e) h k = rw e (ground arith)

div_back : (base n : ℕ) → IsBase base → (n / base) * base + n % base ≡ n
div_back base n (inl e) = rw e (omega arith)
div_back base n (inr e) = rw e (omega arith)

mod-lt_base : (base n : ℕ) → IsBase base → n % base < base
mod-lt_base base n (inl e) = rw e (omega arith)
mod-lt_base base n (inr e) = rw e (omega arith)

read_digits-to_digits :
    (base fuel n : ℕ) → IsBase base → n < fuel → read_digits base (to_digits base fuel n) 0 ≡ some n
unfolding to_digits
read_digits-to_digits base zero n b h = elim h [ ]
read_digits-to_digits base (suc fuel) n b h = elim (Bool-cases (ltb n base)) [
  | inl small ↦ rw small (read_digit base n 0 b (ground arith) ∙ ap some (omega arith))
  | inr large ↦ rw large (
      read_digits-append base (to_digits base fuel (n / base)) _ 0
      ∙ ap (λ o. or_fail o (λ m. read_digits base (digit_byte (n % base) ∷ []) m))
          (read_digits-to_digits base fuel (n / base) b (div-lt base fuel n b h large))
      ∙ read_digit base (n % base) (n / base) b (mod-lt_base base n b)
      ∙ ap some (div_back base n b))
]

-- What every byte of a printed number satisfies if every digit does.
to_digits-All :
    (P : ℕ → Type 0) (base fuel n : ℕ)
    → IsBase base
    → ((d : ℕ) → d < 16 → P (digit_byte d))
    → All P (to_digits base fuel n)
unfolding to_digits
to_digits-All P base zero n b h = tt
to_digits-All P base (suc fuel) n b h = elim (Bool-cases (ltb n base)) [
  | inl small ↦ rw small (h n (digit-lt n small), tt)
  | inr large ↦
      rw large (
        All-append P _ _ (to_digits-All P base fuel (n / base) b h)
          (h (n % base) (mod-lt_16 b), tt))
]
  where
    digit-lt : (m : ℕ) → ltb m base ≡ true → m < 16
    digit-lt m k = ground arith

    mod-lt_16 : IsBase base → n % base < 16
    mod-lt_16 (inl e) = rw e (omega arith)
    mod-lt_16 (inr e) = rw e (omega arith)

to_digits-ne-nil : (base fuel n : ℕ) → to_digits base (suc fuel) n ≢ []
unfolding to_digits
to_digits-ne-nil base fuel n e = elim (Bool-cases (ltb n base)) [
  | inl small ↦ cc (rw small at e)
  | inr large ↦ concat-ne-nil _ _ (rw large at e)
]

read_number-eq : (base : ℕ) (s : Text) → s ≢ [] → read_number base s ≡ read_digits base s 0
unfolding read_number
read_number-eq base [] h = absurd (h refl)
read_number-eq base (c ∷ s) h = refl

read_number-to_digits :
    (base n : ℕ) → IsBase base → read_number base (to_digits base (suc n) n) ≡ some n
read_number-to_digits base n b =
    read_number-eq base _ (to_digits-ne-nil base n n)
    ∙ read_digits-to_digits base (suc n) n b (omega arith)

length-to_digits : (fuel k n : ℕ) → n < 10 ^ suc k → length (to_digits 10 fuel n) ≤ suc k
unfolding to_digits
length-to_digits zero k n h = omega arith
length-to_digits (suc fuel) zero n h = ground (arith, pow-suc 10 0)
length-to_digits (suc fuel) (suc k) n h = elim (Bool-cases (ltb n 10)) [
  | inl small ↦ rw small (omega arith)
  | inr large ↦ rw large (
      omega (
        arith,
        length-append (to_digits 10 fuel (n / 10)) (digit_byte (n % 10) ∷ []),
        length-to_digits fuel k (n / 10) (omega (arith, pow-suc 10 (suc k))),
      ))
]

-- A number in range is read back from its hexadecimal form, whatever the width.
pub parse_uint-print_hex :
    (n bits : ℕ) → ltb n (2 ^ bits) ≡ true → parse_uint (print_hex n) 16 bits ≡ (n, true)
unfolding parse_uint print_hex
parse_uint-print_hex n bits h = rw (read_number-to_digits 16 n (inr refl)) (rw h)

-- The bytes of a printed number are neither separators, nor signs, nor space.
abbrev pub IsPlainDigit : ℕ → Type 0
IsPlainDigit c =
    (is_space c ≡ false)
    × (c ≢ b',')
    × (c ≢ b':')
    × (c ≢ b'/')
    × (c ≢ b'=')
    × (c ≢ b'-')
    × (c ≢ b'+')
    × (c ≢ b'\n')
    × (c ≢ 39)

digit_byte-IsPlainDigit : (d : ℕ) → d < 16 → IsPlainDigit (digit_byte d)
digit_byte-IsPlainDigit d h = ground arith

pub print_nat-IsPlainDigit : (n : ℕ) → All IsPlainDigit (print_nat n)
unfolding print_nat
print_nat-IsPlainDigit n =
    to_digits-All IsPlainDigit 10 (suc n) n (inl refl) digit_byte-IsPlainDigit

pub print_hex-IsPlainDigit : (n : ℕ) → All IsPlainDigit (print_hex n)
unfolding print_hex
print_hex-IsPlainDigit n =
    to_digits-All IsPlainDigit 16 (suc n) n (inr refl) digit_byte-IsPlainDigit

pub print_nat-ne-nil : (n : ℕ) → print_nat n ≢ []
unfolding print_nat
print_nat-ne-nil n = to_digits-ne-nil 10 n n

-- A number of 64 bits has at most twenty digits, and a sign makes one byte more.
pub length-itoa : (z : ℤ) → FitsInt64 z → length (itoa z) ≤ 21
unfolding itoa print_nat
length-itoa (pos n) h = omega (arith, length-to_digits (suc n) 19 n (omega arith))
length-itoa (negsuc n) h = omega (arith, length-to_digits (suc (suc n)) 19 (suc n) (omega arith))

-- What the sign and every digit satisfy.
pub itoa-All :
    (P : ℕ → Type 0) → P b'-' → ((c : ℕ) → IsPlainDigit c → P c) → (z : ℤ) → All P (itoa z)
unfolding itoa
itoa-All P m h (pos n) = All-map h (print_nat n) (print_nat-IsPlainDigit n)
itoa-All P m h (negsuc n) = (m, All-map h (print_nat (suc n)) (print_nat-IsPlainDigit (suc n)))

atoi_unsigned : (s : Text) → s ≢ [] → All IsPlainDigit s → atoi s ≡ clamp_pos (read_number 10 s)
unfolding atoi
atoi_unsigned [] h k = absurd (h refl)
atoi_unsigned (c ∷ s) h k = ground (arith, k.0)

atoi_minus : (s : Text) → atoi (b'-' ∷ s) ≡ clamp_neg (read_number 10 s)
unfolding atoi
atoi_minus s = refl

-- strconv.Atoi reads back every value of Go's int from what strconv.Itoa prints.
pub atoi-itoa : (z : ℤ) → FitsInt64 z → atoi (itoa z) ≡ (z, true)
unfolding itoa
atoi-itoa (pos n) h =
    atoi_unsigned (print_nat n) (print_nat-ne-nil n) (print_nat-IsPlainDigit n)
    ∙ ap clamp_pos (unfold print_nat in read_number-to_digits 10 n (inl refl))
    ∙ ground arith
atoi-itoa (negsuc n) h =
    atoi_minus (print_nat (suc n))
    ∙ ap clamp_neg (unfold print_nat in read_number-to_digits 10 (suc n) (inl refl))
    ∙ ground arith
