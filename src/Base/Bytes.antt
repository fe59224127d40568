-- ===== src/Base/Bytes.antt =====
-- C strings and the parts of the C library that the source uses on them: strcmp, strstr, strlen,
-- copying a counted argument into a terminated buffer, snprintf, and decimal output.
use Prim.Native.Nat.{ℕ, zero, suc, ◌+◌, ◌-◌, ◌*◌, ◌/◌, ◌%◌, ◌≤◌, ◌<◌}
use Prim.Native.Char.{code}
use Prim.Native.String.{String}
use mathlib.Core.Path.{◌≡◌, refl}
use mathlib.Core.Logic.{◌↔◌}
use mathlib.Core.Bool.{Bool, true, false, ◌&&◌, ◌||◌}
use mathlib.Core.Option.{Option, none, some}
use mathlib.Core.List.{List, [], ◌∷◌, ◌++◌}
use native.Mathlib.Omega.{arith}
use trig_emit_kafka.Base.Tests.{◌==◌, if◌then◌else◌, ltb}
use trig_emit_kafka.Base.Int.{ℤ, pos, negsuc}
use trig_emit_kafka.Base.Lists.{length, take, length-append}

-- The bytes of a string, without the terminating 0.
abbrev pub Str : Type 0
Str = List ℕ

abbrev pub codes : String → Str
codes String.[] = []
codes (String.◌∷◌ c s) = code c ∷ codes s

-- strcmp(s, t) == 0
abbrev pub str_eq : Str → Str → Bool
str_eq [] [] = true
str_eq [] (y ∷ ys) = false
str_eq (x ∷ xs) [] = false
str_eq (x ∷ xs) (y ∷ ys) = x == y && str_eq xs ys

pub str_eq_iff : (s t : Str) → (str_eq s t ≡ true) ↔ (s ≡ t)
str_eq_iff [] [] = ground arith
str_eq_iff [] (y ∷ ys) = ground arith
str_eq_iff (x ∷ xs) [] = ground arith
str_eq_iff (x ∷ xs) (y ∷ ys) = ground (arith, str_eq_iff xs ys)

pub str_eq_refl : (s : Str) → str_eq s s ≡ true
str_eq_refl s = (str_eq_iff s s).1 refl

-- zstr() of kafka.h: a null pointer or an empty string.
unfoldable pub zstr : Option Str → Bool
zstr none = true
zstr (some []) = true
zstr (some (c ∷ s)) = false

-- What a C function reads of a buffer that may hold a 0: the bytes before it.
unfoldable pub c_str : List ℕ → Str
c_str [] = []
c_str (c ∷ s) = if c == 0 then [] else c ∷ c_str s

unfoldable pub is_prefix : Str → Str → Bool
is_prefix [] s = true
is_prefix (p ∷ ps) [] = false
is_prefix (p ∷ ps) (c ∷ s) = p == c && is_prefix ps s

-- strstr(s, needle) != NULL
unfoldable pub strstr : Str → Str → Bool
unfolding is_prefix
strstr [] needle = is_prefix needle []
strstr (c ∷ s) needle = is_prefix needle (c ∷ s) || strstr s needle

-- What snprintf leaves in a buffer of `buflen` bytes, less the terminating 0. It returns the
-- length of the whole text.
abbrev pub snprintf : ℕ → Str → Str
snprintf buflen text = take (buflen - 1) text

-- `%u` and `%d` of a number of at most `digits` digits.
unfoldable pub decimal : ℕ → ℕ → Str
decimal zero n = []
decimal (suc digits) n =
    let rest = decimal digits (n / 10) in
    if ltb n 10 then (b'0' + n) ∷ [] else rest ++ (b'0' + n % 10) ∷ []

pub length-decimal : (digits n : ℕ) → length (decimal digits n) ≤ digits
unfolding decimal
length-decimal zero n = omega arith
length-decimal (suc digits) n = ground (
  arith,
  length-decimal digits (n / 10),
  length-append (decimal digits (n / 10)) ((b'0' + n % 10) ∷ []),
)

-- The number that a row of digits stands for, behind a number read before.
unfoldable pub read_decimal : ℕ → Str → ℕ
read_decimal acc [] = acc
read_decimal acc (c ∷ s) = read_decimal (acc * 10 + (c - b'0')) s

read_decimal-append :
    (acc : ℕ) (s t : Str) → read_decimal acc (s ++ t) ≡ read_decimal (read_decimal acc s) t
unfolding read_decimal
read_decimal-append acc [] t = refl
read_decimal-append acc (c ∷ s) t = read_decimal-append (acc * 10 + (c - b'0')) s t

-- Ten to the power of `digits`.
abbrev pub ten_to : ℕ → ℕ
ten_to zero = 1
ten_to (suc k) = 10 * ten_to k

pub read_decimal-decimal :
    (digits n : ℕ) → n < ten_to digits → 0 < digits → read_decimal 0 (decimal digits n) ≡ n
unfolding decimal read_decimal
read_decimal-decimal zero n h p = absurd (omega arith)
read_decimal-decimal (suc zero) n h p = ground arith
read_decimal-decimal (suc (suc k)) n h p = ground (
  arith,
  read_decimal-append 0 (decimal (suc k) (n / 10)) ((b'0' + n % 10) ∷ []),
  read_decimal-decimal (suc k) (n / 10),
)

-- `%d` of an int.
unfoldable pub print_int : ℤ → Str
print_int (pos n) = decimal 10 n
print_int (negsuc n) = b'-' ∷ decimal 10 (suc n)
