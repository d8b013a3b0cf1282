-- ===== src/Http/Parser/Number/Positional.antt =====
-- ParseSize and ParseHexSize of src/KernelHttpLib/http/HttpParser.cpp against positional notation.
use win_kernel_http.Common.{
  ℕ, suc, not, ◌||◌, ==_iff, [], ◌∷◌, ◌+◌, ◌-◌, ◌*◌, ◌/◌, ◌^◌, ◌≤◌, ◌<◌, ◌≡◌, refl, ◌↔◌, Bool, true,
  false, ltb, leb, ◌==◌, if◌then◌else◌, length, arith, ◌&&◌,
}
use win_kernel_http.Common.Buffer.{Bytes}
use win_kernel_http.Common.Bits.{every_below, every_below_at}
use win_kernel_http.Common.Text.{codes}
use win_kernel_http.Common.Status.{Result, ok, err, integer_overflow}
use win_kernel_http.Http.Parser.Chars.{is_digit, is_hex_digit, hex_value}
use win_kernel_http.Http.Parser.Number.{size_loop, parse_size, hex_loop, parse_hex_size, max_size_t}
use native.Mathlib.Nat.{
  mul-le-mul_left, mul_assoc, add-mul, one-le-pow, pow-succ', le-div_iff_mul-le,
}

-- The number that a text of digits denotes.
abbrev pub number : (ℕ → ℕ) → ℕ → Bytes → ℕ
number digit base [] = 0
number digit base (c ∷ text) = digit c * base ^ length text + number digit base text

abbrev pub all_of : (ℕ → Bool) → Bytes → Bool
all_of test [] = true
all_of test (c ∷ text) = test c && all_of test text

abbrev pub decimal_digit : ℕ → ℕ
decimal_digit c = c - b'0'

-- The place of a character in a text.
abbrev pub place : ℕ → Bytes → ℕ
place c [] = 0
place c (x ∷ text) = let later = suc (place c text) in if c == x then 0 else later

-- A hexadecimal digit counts as its place among the sixteen, in capitals or not.
abbrev pub hexadecimal_digit : ℕ → ℕ
hexadecimal_digit c =
    if leb c b'F' then place c (codes "0123456789ABCDEF") else place c (codes "0123456789abcdef")

hex_digits :
    every_below 103 (λ c. not (is_hex_digit c) || hex_value c == hexadecimal_digit c) ≡ true
unfolding every_below
hex_digits = refl

is_hex_digit_small : (c : ℕ) → is_hex_digit c ≡ true → c < 103
is_hex_digit_small c h = ground arith

implied : (a b : Bool) → (not a || b) ≡ true → a ≡ true → b ≡ true
implied true b h e = h
implied false b h e = cc

hex_value_lem : (c : ℕ) → is_hex_digit c ≡ true → hex_value c ≡ hexadecimal_digit c
hex_value_lem c h = (==_iff _ _).0 (
    implied (is_hex_digit c) (hex_value c == hexadecimal_digit c)
      (every_below_at 103 (λ x. not (is_hex_digit x) || hex_value x == hexadecimal_digit x) c
        hex_digits (is_hex_digit_small c h))
      h)

number-hexadecimal :
    (text : Bytes)
    → all_of is_hex_digit text ≡ true
    → number hex_value 16 text ≡ number hexadecimal_digit 16 text
number-hexadecimal [] h = refl
number-hexadecimal (c ∷ text) h =
    rw (hex_value_lem c (ground arith), number-hexadecimal text (ground arith)) refl

-- A digit more: what was read before counts `base` times.
regroup :
    (parsed base digit power rest : ℕ)
    → (parsed * base + digit) * power + rest ≡ parsed * (base * power) + (digit * power + rest)
regroup parsed base digit power rest =
    omega (arith, mul_assoc parsed base power, add-mul (parsed * base) digit power)

one-le-power : (base n : ℕ) → 1 ≤ base → 1 ≤ base ^ n
one-le-power base n h = one-le-pow n base h

-- The reading of a text does not exceed the limit where one more digit already does.
at_least : (parsed power rest : ℕ) → 1 ≤ power → parsed ≤ parsed * power + rest
at_least parsed power rest h = omega (arith, mul-le-mul_left parsed h)

-- The verdict on a text read to the end.
abbrev pub bounded : ℕ → Result ℕ
bounded n = if leb n max_size_t then ok n else err integer_overflow

verdicts :
    (limit parsed product digit total : ℕ) (more : Result ℕ)
    → digit < 256
    → (product + digit ≤ max_size_t → more ≡ bounded total)
    → (parsed ≤ limit → product ≤ max_size_t - digit)
    → (product ≤ max_size_t - digit → parsed ≤ limit)
    → product + digit ≤ total
    → (if ltb limit parsed then err integer_overflow else more) ≡ bounded total
verdicts limit parsed product digit total more d h to from above = ground arith

-- One round of a loop: it stops where the digit does not fit, and then the number does not either.
round_lem :
    (base parsed digit power rest : ℕ) (more : Result ℕ)
    → 1 ≤ power
    → 1 ≤ base
    → digit < 256
    → (parsed * base + digit ≤ max_size_t → more ≡ bounded ((parsed * base + digit) * power + rest))
    → (if ltb ((max_size_t - digit) / base) parsed then err integer_overflow else more)
      ≡ bounded (parsed * (base * power) + (digit * power + rest))
round_lem base parsed digit power rest more p b d h =
    let (to, from) : (parsed ≤ (max_size_t - digit) / base) ↔ (parsed * base ≤ max_size_t - digit) =
      le-div_iff_mul-le b in
    let above = at_least (parsed * base + digit) power rest p in
    rw (← regroup parsed base digit power rest) (
      verdicts ((max_size_t - digit) / base) parsed (parsed * base) digit
        ((parsed * base + digit) * power + rest) more d h to from above)

size_loop_lem :
    (text : Bytes) (parsed : ℕ)
    → all_of is_digit text ≡ true
    → parsed ≤ max_size_t
    → size_loop text parsed ≡ bounded (parsed * 10 ^ length text + number decimal_digit 10 text)
unfolding size_loop
size_loop_lem [] parsed h b = ground arith
size_loop_lem (c ∷ text) parsed h b =
    let digit : is_digit c ≡ true = ground arith in
    rw (digit, pow-succ' 10 (length text))
      (round_lem 10 parsed (c - b'0') (10 ^ length text) (number decimal_digit 10 text)
        (size_loop text (parsed * 10 + (c - b'0'))) (one-le-power 10 (length text) (omega arith))
        (omega arith) (ground arith) (size_loop_lem text (parsed * 10 + (c - b'0')) (ground arith)))

hex_loop_lem :
    (text : Bytes) (parsed : ℕ)
    → all_of is_hex_digit text ≡ true
    → parsed ≤ max_size_t
    → hex_loop text parsed ≡ bounded (parsed * 16 ^ length text + number hex_value 16 text)
unfolding hex_loop
hex_loop_lem [] parsed h b = ground arith
hex_loop_lem (c ∷ text) parsed h b =
    let digit : is_hex_digit c ≡ true = ground arith in
    rw (digit, pow-succ' 16 (length text))
      (round_lem 16 parsed (hex_value c) (16 ^ length text) (number hex_value 16 text)
        (hex_loop text (parsed * 16 + hex_value c)) (one-le-power 16 (length text) (omega arith))
        (omega arith) (ground arith) (hex_loop_lem text (parsed * 16 + hex_value c) (ground arith)))

only : (power n : ℕ) → 0 * power + n ≡ n
only power n = omega arith

pub parse_size_lem :
    (text : Bytes)
    → 1 ≤ length text
    → all_of is_digit text ≡ true
    → parse_size text ≡ bounded (number decimal_digit 10 text)
unfolding parse_size
parse_size_lem text ne h =
    let some : (length text == 0) ≡ false = ground arith in
    rw some (
      rw (only (10 ^ length text) (number decimal_digit 10 text)) at
        (size_loop_lem text 0 h (omega arith)))

pub parse_hex_size_lem :
    (text : Bytes)
    → 1 ≤ length text
    → all_of is_hex_digit text ≡ true
    → parse_hex_size text ≡ bounded (number hexadecimal_digit 16 text)
unfolding parse_hex_size
parse_hex_size_lem text ne h =
    let some : (length text == 0) ≡ false = ground arith in
    rw (some, ← number-hexadecimal text h)
      (rw (only (16 ^ length text) (number hex_value 16 text)) at
        (hex_loop_lem text 0 h (omega arith)))

-- For texts of at least one digit, decimal for the one and hexadecimal for the other, `ParseSize`
-- and `ParseHexSize` return the number in positional notation, where a hexadecimal digit counts as
-- its place among the sixteen, if it is below 2^64, and STATUS_INTEGER_OVERFLOW otherwise.
pub parse_sizes_lem :
    (decimal hexadecimal : Bytes)
    → 1 ≤ length decimal
    → all_of is_digit decimal ≡ true
    → 1 ≤ length hexadecimal
    → all_of is_hex_digit hexadecimal ≡ true
    → (parse_size decimal ≡ bounded (number decimal_digit 10 decimal))
      × (parse_hex_size hexadecimal ≡ bounded (number hexadecimal_digit 16 hexadecimal))
parse_sizes_lem decimal hexadecimal a b c d =
    (parse_size_lem decimal a b, parse_hex_size_lem hexadecimal c d)
