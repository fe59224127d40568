-- ===== src/Udf/Reading.antt =====
-- Reading the result of kafka_stats(): the two numbers in its text.
use trig_emit_kafka.Base.{
  ℕ, zero, suc, ◌+◌, ◌/◌, ◌%◌, ◌≤◌, ◌<◌, ◌^◌, ◌≡◌, refl, sym, ◌∙◌, ap, Bool, true, ◌&&◌, [], ◌∷◌,
  ◌++◌, arith, if◌then◌else◌, leb, ltb, drop, All, length, length-append, Bool-cases, inl, inr,
  append-nil,
}
use trig_emit_kafka.Base.Bytes.{
  Str, codes, decimal, length-decimal, read_decimal, read_decimal-decimal,
}
use trig_emit_kafka.Udf.Stats.{stats_text}

abbrev is_digit : ℕ → Bool
is_digit c = leb b'0' c && leb c b'9'

-- The digits at the front of a text, and what follows them.
unfoldable pub digits_of : Str → Str × Str
digits_of [] = ([], [])
digits_of (c ∷ s) =
    let rest = digits_of s in if is_digit c then (c ∷ rest.0, rest.1) else ([], c ∷ s)

-- The two numbers, behind "Transferred: " and " Failed: ".
unfoldable pub read_stats : Str → ℕ × ℕ
read_stats text =
    let (transferred, rest) = digits_of (drop 13 text) in
    (read_decimal 0 transferred, read_decimal 0 (digits_of (drop 9 rest)).0)

digits_of-append :
    (s t : Str)
    → All (λ c. is_digit c ≡ true) s
    → digits_of t ≡ ([], t)
    → digits_of (s ++ t) ≡ (s, t)
unfolding digits_of
digits_of-append [] t h e = e
digits_of-append (c ∷ s) t (here, later) e = rw (here, digits_of-append s t later e) refl

All-append : (P : ℕ → Type 0) (s t : Str) → All P s → All P t → All P (s ++ t)
All-append P [] t h k = k
All-append P (c ∷ s) t (here, later) k = (here, All-append P s t later k)

decimal-is_digit : (digits n : ℕ) → All (λ c. is_digit c ≡ true) (decimal digits n)
unfolding decimal
decimal-is_digit zero n = tt
decimal-is_digit (suc digits) n = elim (Bool-cases (ltb n 10)) [
  | inl small ↦ rw small (ground (arith, small), tt)
  | inr large ↦
      let last : is_digit (b'0' + n % 10) ≡ true = ground arith in
      rw large (
        All-append (λ c. is_digit c ≡ true) (decimal digits (n / 10)) ((b'0' + n % 10) ∷ [])
          (decimal-is_digit digits (n / 10)) (last, tt))
]

first_number : (n : ℕ) (t : Str) → digits_of (decimal 10 n ++ b' ' ∷ t) ≡ (decimal 10 n, b' ' ∷ t)
unfolding digits_of
first_number n t = digits_of-append (decimal 10 n) (b' ' ∷ t) (decimal-is_digit 10 n) refl

last_number : (n : ℕ) → digits_of (decimal 10 n) ≡ (decimal 10 n, [])
unfolding digits_of
last_number n =
    ap digits_of (sym (append-nil (decimal 10 n)))
    ∙ digits_of-append (decimal 10 n) [] (decimal-is_digit 10 n) refl

-- What kafka_stats() prints reads back as the two numbers, where they are numbers of 32 bits.
pub read_stats-stats_text :
    (transferred failed : ℕ)
    → transferred < 2 ^ 32
    → failed < 2 ^ 32
    → read_stats (stats_text transferred failed) ≡ (transferred, failed)
unfolding read_stats stats_text
read_stats-stats_text transferred failed h k =
    rw
      (
        first_number transferred (codes "Failed: " ++ decimal 10 failed),
        last_number failed,
        read_decimal-decimal 10 transferred (omega arith) (omega arith),
        read_decimal-decimal 10 failed (omega arith) (omega arith),
      )
      refl

-- The text always fits a buffer of 255 bytes.
pub length-stats_text : (transferred failed : ℕ) → length (stats_text transferred failed) ≤ 42
unfolding stats_text
length-stats_text transferred failed = omega (
  arith,
  length-append (decimal 10 transferred) (codes " Failed: " ++ decimal 10 failed),
  length-decimal 10 transferred,
  length-decimal 10 failed,
)
