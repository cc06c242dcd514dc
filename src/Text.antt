-- ===== src/Text.antt =====
-- The operations of Rust's `String` and `str` that the program uses: `format!` as a concatenation
-- of pieces, `contains`, `join`, and the decimal form of a `u64`.
pub mod Numbers
mod Tests
use Prim.Native.Char.{Char, code}
use Prim.Native.String.{slice, char_at, len}
use Prim.Native.String as S
use text.Mathlib.Text.{find?, starts_with}
use runlane.Prelude.{
  ℕ, zero, suc, ◌+◌, ◌-◌, ◌/◌, ◌%◌, String, Bool, ◌&&◌, ◌||◌, true, false, Option, none, some, List,
  [], ◌∷◌, leb, nat_eq, if◌then◌else◌,
}

-- `format!`, with its pieces in order
unfoldable pub format : List String → String
format [] = ""
format (s ∷ rest) = S.◌++◌ s (format rest)

-- `values.join(separator)`
unfoldable pub join : List String → String → String
join [] separator = ""
join (s ∷ []) separator = s
join (s ∷ t ∷ rest) separator = S.◌++◌ s (S.◌++◌ separator (join (t ∷ rest) separator))

-- `s.contains(pattern)`
unfoldable pub contains : String → String → Bool
contains s pattern = elim (find? s pattern) [ none ↦ false | some _ ↦ true ]

abbrev digit : ℕ → String
digit d = slice "0123456789" d (d + 1)

-- The last `k` decimal digits of a number, without leading zeros.
digits : ℕ → ℕ → String
digits zero n = ""
digits (suc k) n =
    let rest = digits k (n / 10) in if leb n 9 then digit n else S.◌++◌ rest (digit (n % 10))

-- `Display` of a `u64`, which has at most 20 digits
unfoldable pub show_u64 : ℕ → String
unfolding digits
show_u64 n = digits 20 n

-- `to_ascii_lowercase` of one character
abbrev lower_char : Char → Char
lower_char c =
    if leb b'A' (code c) && leb (code c) b'Z'
    then char_at "abcdefghijklmnopqrstuvwxyz" (code c - b'A')
    else c

unfoldable pub to_ascii_lowercase : String → String
to_ascii_lowercase S.[] = S.[]
to_ascii_lowercase (S.◌∷◌ c s) = S.◌∷◌ (lower_char c) (to_ascii_lowercase s)

-- `s.strip_prefix(prefix)`
unfoldable pub strip_prefix : String → String → Option String
strip_prefix s prefix = if starts_with s prefix then some (slice s (len prefix) (len s)) else none

-- `s.split('/').next()`, which always has a first piece
unfoldable pub first_segment : String → String
first_segment S.[] = S.[]
first_segment (S.◌∷◌ c s) =
    let rest = first_segment s in if nat_eq (code c) b'/' then S.[] else S.◌∷◌ c rest

-- `char::is_whitespace`: the characters with the Unicode property White_Space
abbrev pub is_whitespace : Char → Bool
is_whitespace c =
    let n = code c in
    (leb 9 n && leb n 13)
    || nat_eq n 32
    || nat_eq n 133
    || nat_eq n 160
    || nat_eq n 5760
    || (leb 8192 n && leb n 8202)
    || nat_eq n 8232
    || nat_eq n 8233
    || nat_eq n 8239
    || nat_eq n 8287
    || nat_eq n 12288

-- a word is kept if it is not empty
abbrev pub push_word : String → List String → List String
push_word S.[] rest = rest
push_word (S.◌∷◌ c w) rest = S.◌∷◌ c w ∷ rest

-- the text up to the first white space, and the words after it
unfoldable pub cut_word : String → String × List String
cut_word S.[] = (S.[], [])
cut_word (S.◌∷◌ c s) =
    let (word, rest) = cut_word s in
    if is_whitespace c then (S.[], push_word word rest) else (S.◌∷◌ c word, rest)

-- `s.split_whitespace().collect()`
unfoldable pub split_whitespace : String → List String
split_whitespace s = let (word, rest) = cut_word s in push_word word rest

-- `s.trim().is_empty()`
unfoldable pub is_blank : String → Bool
is_blank S.[] = true
is_blank (S.◌∷◌ c s) = is_whitespace c && is_blank s

-- `s.split_once(':')`
unfoldable pub split_colon : String → Option (String × String)
split_colon S.[] = none
split_colon (S.◌∷◌ c s) =
    let rest = split_colon s in
    if nat_eq (code c) b':' then some (S.[], s) else elim rest as (λ _. Option (String × String)) [
      | none ↦ none
      | some (before, after) ↦ some (S.◌∷◌ c before, after)
    ]
