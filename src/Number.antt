-- ===== src/Number.antt =====
-- src/basilisp/lang/numeric_coerce.py on machine integers, and src/basilisp/lang/equality.py. A
-- finite value of any type is a fraction: `ratio n d` is n / (d + 1), as is `finite n d`.
pub mod Wrap
pub mod Coerce
pub mod Equality
pub mod Keys
pub mod Relation
use baisilisp.Base.{
  ℕ, suc, ◌+◌, ◌-◌, ◌*◌, ◌/◌, ◌%◌, ◌^◌, Bool, true, false, not, ◌&&◌, Option, none, some, leb, ◌==◌,
  if◌then◌else◌,
}
use baisilisp.Base.Int.{ℤ, pos, negsuc, pos_part, neg_part, sub_ℕ}

-- A `float` or a `decimal.Decimal`; an infinite one says whether it is greater than 0.
pub data Real : Type 0 where
  nan : Real
  infinite : Bool → Real
  finite : ℤ → ℕ → Real

-- A value of the program; `other` is one of a type that is not numeric, with `bool` and `complex`.
pub data Value (V : Type 0) : Type 0 where
  integer : ℤ → Value V
  ratio : ℤ → ℕ → Value V
  decimal : Real → Value V
  floating : Real → Value V
  character : ℕ → Value V
  other : V → Value V

pub data Error : Type 0 where
  not_numeric infinite_value out_of_range : Error

pub data Result (A : Type 0) : Type 0 where
  ok : A → Result A
  raise : Error → Result A

-- `int(value)` of a fraction: towards 0
unfoldable pub int_of : ℤ → ℕ → ℤ
int_of (pos n) d = pos (n / suc d)
int_of (negsuc n) d = sub_ℕ 0 (suc n / suc d)

unfoldable pub truncated_real : Option ℕ → Real → Result ℤ
truncated_real infinity_bits nan = ok (pos 0)
truncated_real none (infinite above) = raise infinite_value
truncated_real (some bits) (infinite true) = ok (pos (2 ^ (bits - 1) - 1))
truncated_real (some bits) (infinite false) = ok (sub_ℕ 0 (2 ^ (bits - 1)))
truncated_real infinity_bits (finite n d) = ok (int_of n d)

module _ {V : Type 0} where
  unfoldable pub numeric : Bool → Value V → Result (Value V)
  numeric allow (integer n) = ok (integer n)
  numeric allow (ratio n d) = ok (ratio n d)
  numeric allow (decimal x) = ok (decimal x)
  numeric allow (floating x) = ok (floating x)
  numeric allow (character c) = if allow then ok (integer (pos c)) else raise not_numeric
  numeric allow (other v) = raise not_numeric

  -- `_truncated` of a value that is numeric already
  unfoldable pub truncated_numeric : Option ℕ → Value V → Result ℤ
  truncated_numeric infinity_bits (integer n) = ok n
  truncated_numeric infinity_bits (ratio n d) = ok (int_of n d)
  truncated_numeric infinity_bits (decimal x) = truncated_real infinity_bits x
  truncated_numeric infinity_bits (floating x) = truncated_real infinity_bits x
  truncated_numeric infinity_bits (character c) = raise not_numeric
  truncated_numeric infinity_bits (other v) = raise not_numeric

  unfoldable pub truncated : Bool → Option ℕ → Value V → Result ℤ
  truncated allow infinity_bits value = elim (numeric allow value) [
    | raise e ↦ raise e
    | ok v ↦ truncated_numeric infinity_bits v
  ]

-- `value % m`, which Python rounds down
unfoldable pub mod_ℤ : ℤ → ℕ → ℕ
mod_ℤ (pos n) m = n % m
mod_ℤ (negsuc n) m = m - 1 - n % m

unfoldable pub signed : ℤ → ℕ → ℤ
signed value bits =
    let wrapped = mod_ℤ value (2 ^ bits) in
    if leb (2 ^ (bits - 1)) wrapped then sub_ℕ wrapped (2 ^ bits) else pos wrapped

-- `lower <= n / (d + 1) <= upper`
unfoldable pub is_within : ℕ → ℤ → ℕ → Bool
is_within bits n d =
    leb (neg_part n) (2 ^ (bits - 1) * suc d) && leb (pos_part n) ((2 ^ (bits - 1) - 1) * suc d)

unfoldable pub is_real_within : ℕ → Real → Bool
is_real_within bits nan = true
is_real_within bits (infinite above) = false
is_real_within bits (finite n d) = is_within bits n d

module _ {V : Type 0} where
  -- `not out_of_range`
  unfoldable pub is_in_range : ℕ → Value V → Bool
  is_in_range bits (integer n) = is_within bits n 0
  is_in_range bits (ratio n d) = is_within bits n d
  is_in_range bits (decimal x) = is_real_within bits x
  is_in_range bits (floating x) = is_real_within bits x
  is_in_range bits (character c) = false
  is_in_range bits (other v) = false

  unfoldable pub checked_integer : Value V → ℕ → Bool → Result ℤ
  checked_integer value bits allow = elim (numeric allow value) [
    | raise e ↦ raise e
    | ok v ↦ if is_in_range bits v then truncated_numeric none v else raise out_of_range
  ]

  unfoldable pub unchecked_integer : Value V → ℕ → Bool → Option ℕ → Result ℤ
  unchecked_integer value bits allow infinity_bits =
      elim (truncated allow (some (elim infinity_bits [ none ↦ bits | some b ↦ b ])) value) [
        | raise e ↦ raise e
        | ok n ↦ ok (signed n bits)
      ]

  -- the number of the character that `unchecked_char` returns
  unfoldable pub unchecked_char : Value V → Result ℕ
  unchecked_char (character c) = ok c
  unchecked_char value = elim (truncated false (some 64) value) [
    | raise e ↦ raise e
    | ok n ↦ ok (mod_ℤ n (2 ^ 16))
  ]
