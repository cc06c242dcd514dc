-- ===== src/Text/Numbers.antt =====
-- Reading and printing of Rust's unsigned integers: `str::parse` of a `u32` or a `u64`,
-- `u32::from_str_radix`, and the octal form of `format!`.
use Prim.Native.Char.{Char, code}
use Prim.Native.String.{slice, len}
use Prim.Native.String as S
use runlane.Prelude.{
  ℕ, zero, suc, ◌+◌, ◌-◌, ◌*◌, ◌/◌, ◌%◌, String, Bool, ◌&&◌, Option, none, some, leb, nat_eq,
  if◌then◌else◌,
}

-- the values of a `u32` and of a `u64` are below these
abbrev pub u32_bound : ℕ
u32_bound = 4294967296

abbrev pub u64_bound : ℕ
u64_bound = 18446744073709551616

-- `char::to_digit` is some digit, for a radix up to ten
abbrev pub is_digit_of : ℕ → Char → Bool
is_digit_of radix c = leb b'0' (code c) && leb (suc (code c)) (b'0' + radix)

-- the loop over the digits, with the checked multiplication and addition
unfoldable pub more_digits : ℕ → ℕ → String → ℕ → Option ℕ
more_digits radix bound S.[] n = some n
more_digits radix bound (S.◌∷◌ c s) n =
    let next = n * radix + (code c - b'0') in
    let rest = more_digits radix bound s next in
    if is_digit_of radix c && leb (suc next) bound then rest else none

abbrev pub some_digits : ℕ → ℕ → String → Option ℕ
some_digits radix bound S.[] = none
some_digits radix bound (S.◌∷◌ c s) = more_digits radix bound (S.◌∷◌ c s) 0

-- `from_str_radix`: an optional plus sign, then at least one digit
unfoldable pub from_str_radix : ℕ → ℕ → String → Option ℕ
from_str_radix radix bound S.[] = none
from_str_radix radix bound (S.◌∷◌ c s) =
    if nat_eq (code c) b'+' then some_digits radix bound s else some_digits radix bound (S.◌∷◌ c s)

abbrev pub parse_u32 : String → Option ℕ
parse_u32 = from_str_radix 10 u32_bound

abbrev pub parse_u64 : String → Option ℕ
parse_u64 = from_str_radix 10 u64_bound

-- the last `k` octal digits, without leading zeros
octal_digits : ℕ → ℕ → String
octal_digits zero n = ""
octal_digits (suc k) n =
    let rest = octal_digits k (n / 8) in
    let digit = slice "01234567" (n % 8) (n % 8 + 1) in if leb n 7 then digit else S.◌++◌ rest digit

-- `{:04o}` of a `u32`, which has at most eleven octal digits
unfoldable pub show_octal : ℕ → String
unfolding octal_digits
show_octal n = let s = octal_digits 11 n in S.◌++◌ (slice "0000" 0 (4 - len s)) s
