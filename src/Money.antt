-- ===== src/Money.antt =====
-- src/core/money.ts: an amount of KORI is a whole number of millionths, and its text is decimal.
mod Tests
use Prim.Native.Char.{Char, code}
use coin_manage.Base.{
  ℕ, zero, suc, ◌+◌, ◌-◌, ◌*◌, ◌/◌, ◌%◌, String, Bool, true, false, List, [], ◌∷◌, ◌&&◌, ◌||◌, not,
  ltb, leb, nat_eq, if◌then◌else◌, ◌==◌, str_length, ◌≡◌, refl,
}
use coin_manage.Base.Int.{int_laws, ℤ, pos, negsuc, ◌+ℤ◌, ltb_ℤ}
use coin_manage.Base.Action.{Error, domain_error, Result, ok, err}

abbrev pub kori_decimals : ℕ
kori_decimals = 6

abbrev pub kori_scale : ℕ
kori_scale = 1_000_000

-- `values.reduce((acc, value) => acc + value, 0n)`
sum_from : ℤ → List ℤ → ℤ
sum_from acc [] = acc
sum_from acc (value ∷ values) = sum_from (acc +ℤ value) values

unfoldable pub sum_big_int : List ℤ → ℤ
unfolding sum_from
sum_big_int values = sum_from (pos 0) values

sum_from-shift : (a b : ℤ) (xs : List ℤ) → sum_from (a +ℤ b) xs ≡ a +ℤ sum_from b xs
unfolding sum_from
sum_from-shift a b [] = refl
sum_from-shift a b (x ∷ xs) =
    let q : a +ℤ b +ℤ x ≡ a +ℤ (b +ℤ x) = omega int_laws in rw q (sum_from-shift a (b +ℤ x) xs)

pub sum_big_int-cons : (x : ℤ) (xs : List ℤ) → sum_big_int (x ∷ xs) ≡ x +ℤ sum_big_int xs
unfolding sum_from sum_big_int
sum_big_int-cons x xs =
    let q : pos 0 +ℤ x ≡ x +ℤ pos 0 = omega int_laws in rw q (sum_from-shift x (pos 0) xs)

-- The character of one decimal digit.
digit_char : ℕ → Char
digit_char zero = "0"
digit_char (suc zero) = "1"
digit_char (suc (suc zero)) = "2"
digit_char (suc (suc (suc zero))) = "3"
digit_char (suc (suc (suc (suc zero)))) = "4"
digit_char (suc (suc (suc (suc (suc zero))))) = "5"
digit_char (suc (suc (suc (suc (suc (suc zero)))))) = "6"
digit_char (suc (suc (suc (suc (suc (suc (suc zero))))))) = "7"
digit_char (suc (suc (suc (suc (suc (suc (suc (suc zero)))))))) = "8"
digit_char (suc (suc (suc (suc (suc (suc (suc (suc (suc _))))))))) = "9"

-- `n.toString()` in front of a text. A number has at most `n + 1` digits, the fuel of `to_text`.
digits_onto : ℕ → ℕ → String → String
digits_onto zero n text = text
digits_onto (suc fuel) n text =
    let more = digits_onto fuel (n / 10) (String.◌∷◌ (digit_char (n % 10)) text) in
    if ltb n 10 then String.◌∷◌ (digit_char n) text else more

unfoldable pub to_text : ℕ → String → String
unfolding digits_onto digit_char
to_text n text = digits_onto (suc n) n text

zeros_onto : ℕ → String → String
zeros_onto zero text = text
zeros_onto (suc n) text = String.◌∷◌ "0" (zeros_onto n text)

-- `text.padStart(width, '0')`
unfoldable pub pad_start : ℕ → String → String
unfolding zeros_onto
pad_start width text = zeros_onto (width - str_length text) text

-- The magnitude of a bigint.
abbrev pub magnitude : ℤ → ℕ
magnitude (pos n) = n
magnitude (negsuc n) = suc n

unfoldable pub format_kori_amount : ℤ → String
unfolding to_text pad_start str_length
format_kori_amount units =
    let abs = magnitude units in
    let frac_part = pad_start kori_decimals (to_text (abs % kori_scale) "") in
    let unsigned = to_text (abs / kori_scale) (String.◌∷◌ "." frac_part) in
    if ltb_ℤ units (pos 0) then String.◌∷◌ "-" unsigned else unsigned

-- The white space that `String.prototype.trim` removes.
is_space : ℕ → Bool
is_space c =
    (leb 9 c && leb c 13)
    || nat_eq c 32
    || nat_eq c 0xa0
    || nat_eq c 0x1680
    || (leb 0x2000 c && leb c 0x200a)
    || nat_eq c 0x2028
    || nat_eq c 0x2029
    || nat_eq c 0x202f
    || nat_eq c 0x205f
    || nat_eq c 0x3000
    || nat_eq c 0xfeff

trim_start : String → String
trim_start String.[] = String.[]
trim_start (String.◌∷◌ c s) = if is_space (code c) then trim_start s else String.◌∷◌ c s

trim_end : String → String
trim_end String.[] = String.[]
trim_end (String.◌∷◌ c s) =
    let rest = trim_end s in
    if rest == "" && is_space (code c) then String.[] else String.◌∷◌ c rest

unfoldable pub trim : String → String
unfolding is_space trim_start trim_end
trim s = trim_end (trim_start s)

abbrev pub is_digit : ℕ → Bool
is_digit c = leb 48 c && leb c 57

all_digits : String → Bool
all_digits String.[] = true
all_digits (String.◌∷◌ c s) = is_digit (code c) && all_digits s

-- The text before the first point.
before_dot : String → String
before_dot String.[] = String.[]
before_dot (String.◌∷◌ c s) =
    if nat_eq (code c) b'.' then String.[] else String.◌∷◌ c (before_dot s)

-- The text behind the first point, and whether there is a point.
after_dot : String → String
after_dot String.[] = String.[]
after_dot (String.◌∷◌ c s) = if nat_eq (code c) b'.' then s else after_dot s

has_dot : String → Bool
has_dot String.[] = false
has_dot (String.◌∷◌ c s) = nat_eq (code c) b'.' || has_dot s

is_negative : String → Bool
is_negative String.[] = false
is_negative (String.◌∷◌ c s) = nat_eq (code c) b'-'

-- `normalized.replace(/^-/, '')`
strip_sign : String → String
strip_sign String.[] = String.[]
strip_sign (String.◌∷◌ c s) = if nat_eq (code c) b'-' then s else String.◌∷◌ c s

-- `\d+(\.\d{1,6})?`
is_decimal : String → Bool
unfolding all_digits before_dot after_dot has_dot
is_decimal s =
    let int_part = before_dot s in
    let frac_part = after_dot s in
    leb 1 (str_length int_part)
    && all_digits int_part
    && (not (has_dot s)
        || (all_digits frac_part && leb 1 (str_length frac_part) && leb (str_length frac_part) 6))

-- `BigInt(text)` of a text of digits, behind the digits read so far.
read_from : ℕ → String → ℕ
read_from acc String.[] = acc
read_from acc (String.◌∷◌ c s) = read_from (acc * 10 + (code c - 48)) s

-- `BigInt(text.padEnd(width, '0'))`
read_padded : ℕ → ℕ → String → ℕ
read_padded zero acc s = read_from acc s
read_padded (suc width) acc String.[] = read_padded width (acc * 10) String.[]
read_padded (suc width) acc (String.◌∷◌ c s) = read_padded width (acc * 10 + (code c - 48)) s

negate : ℕ → ℤ
negate zero = pos 0
negate (suc n) = negsuc n

unfoldable pub parse_stored_kori_amount : String → Result ℤ
unfolding trim is_decimal is_negative strip_sign before_dot after_dot read_from read_padded negate
    str_length
parse_stored_kori_amount amount =
    let normalized = trim amount in
    let unsigned = strip_sign normalized in
    let units =
      read_from 0 (before_dot unsigned) * kori_scale
      + read_padded kori_decimals 0 (after_dot unsigned) in
    if not (is_decimal unsigned)
    then err (domain_error 500 "STATE_CORRUPTED" "invalid stored KORI amount")
    else if is_negative normalized
    then ok (negate units)
    else ok (pos units)
