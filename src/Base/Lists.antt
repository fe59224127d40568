-- ===== src/Base/Lists.antt =====
-- Lists measured and indexed by native numbers, under the library's names.
use Prim.Native.Nat.{ℕ, zero, suc, ◌+◌, ◌-◌, ◌≤◌, ◌<◌, min}
use mathlib.Core.Path.{◌≡◌, refl, ap}
use mathlib.Core.List.{List, [], ◌∷◌, ◌++◌}
use mathlib.Core.Option.{Option, none, some}
use native.Mathlib.Omega.{arith}
use trig_emit_kafka.Base.Tests.{◌==◌, if◌then◌else◌}

module _ {ℓ} {A : Type ℓ} where
  abbrev pub length : List A → ℕ
  length [] = 0
  length (x ∷ xs) = suc (length xs)

  abbrev pub get_elem? : List A → ℕ → Option A
  get_elem? [] i = none
  get_elem? (x ∷ xs) zero = some x
  get_elem? (x ∷ xs) (suc i) = get_elem? xs i

  abbrev pub take : ℕ → List A → List A
  take zero xs = []
  take (suc n) [] = []
  take (suc n) (x ∷ xs) = x ∷ take n xs

  abbrev pub drop : ℕ → List A → List A
  drop zero xs = xs
  drop (suc n) [] = []
  drop (suc n) (x ∷ xs) = drop n xs

  -- `xs[i] = xs[n - 1]; n--;`: the last entry fills the hole. Nothing happens out of range.
  abbrev pub last_of : A → List A → A
  last_of x [] = x
  last_of x (y ∷ ys) = last_of y ys

  abbrev pub drop_last : A → List A → List A
  drop_last x [] = []
  drop_last x (y ∷ ys) = x ∷ drop_last y ys

  abbrev pub swap_remove : ℕ → List A → List A
  swap_remove i [] = []
  swap_remove zero (x ∷ []) = []
  swap_remove zero (x ∷ y ∷ ys) = last_of y ys ∷ drop_last y ys
  swap_remove (suc i) (x ∷ xs) = x ∷ swap_remove i xs

  pub length-drop_last : (x : A) (xs : List A) → length (drop_last x xs) ≡ length xs
  length-drop_last x [] = refl
  length-drop_last x (y ∷ ys) = ap suc (length-drop_last y ys)

  pub length-swap_remove :
      (i : ℕ) (xs : List A) → i < length xs → suc (length (swap_remove i xs)) ≡ length xs
  length-swap_remove i [] h = absurd (omega arith)
  length-swap_remove zero (x ∷ []) h = refl
  length-swap_remove zero (x ∷ y ∷ ys) h = ap (λ n. suc (suc n)) (length-drop_last y ys)
  length-swap_remove (suc i) (x ∷ xs) h = ap suc (length-swap_remove i xs (omega arith))

  pub length-swap_remove-le : (i : ℕ) (xs : List A) → length (swap_remove i xs) ≤ length xs
  length-swap_remove-le i [] = omega arith
  length-swap_remove-le zero (x ∷ []) = omega arith
  length-swap_remove-le zero (x ∷ y ∷ ys) = omega (arith, length-drop_last y ys)
  length-swap_remove-le (suc i) (x ∷ xs) = omega (arith, length-swap_remove-le i xs)

  abbrev pub All {κ} : (A → Type κ) → List A → Type κ
  All P [] = Unit
  All P (x ∷ xs) = P x × All P xs

  pub length-append : (xs ys : List A) → length (xs ++ ys) ≡ length xs + length ys
  length-append [] ys = omega arith
  length-append (x ∷ xs) ys = omega (arith, length-append xs ys)

  pub length-take : (n : ℕ) (xs : List A) → length (take n xs) ≡ min n (length xs)
  length-take zero xs = omega arith
  length-take (suc n) [] = omega arith
  length-take (suc n) (x ∷ xs) = omega (arith, length-take n xs)

  pub take_of_le : (n : ℕ) (xs : List A) → length xs ≤ n → take n xs ≡ xs
  take_of_le zero [] h = refl
  take_of_le zero (x ∷ xs) h = absurd (omega arith)
  take_of_le (suc n) [] h = refl
  take_of_le (suc n) (x ∷ xs) h = ap (◌∷◌ x) (take_of_le n xs (omega arith))

  -- Cutting off a text that is written in two parts.
  pub take-append :
      (n : ℕ) (xs ys : List A) → take n (xs ++ ys) ≡ take n xs ++ take (n - length xs) ys
  take-append zero xs ys = ground arith
  take-append (suc n) [] ys = ground arith
  take-append (suc n) (x ∷ xs) ys = ground (arith, take-append n xs ys)

-- How often a number occurs.
abbrev pub count : ℕ → List ℕ → ℕ
count a [] = 0
count a (x ∷ xs) = (if a == x then 1 else 0) + count a xs

-- An occurrence in two lists joined is one in the first or one in the second.
pub count-append :
    (a : ℕ) (front back : List ℕ) → count a front + count a back ≡ count a (front ++ back)
count-append a [] back = omega arith
count-append a (b ∷ front) back = let rest = count-append a front back in omega (arith, rest)

count-drop_last :
    (a x : ℕ) (xs : List ℕ)
    → (if a == last_of x xs then 1 else 0) + count a (drop_last x xs) ≡ count a (x ∷ xs)
count-drop_last a x [] = omega arith
count-drop_last a x (y ∷ ys) = omega (arith, count-drop_last a y ys)

-- Removing by index takes out one entry, whatever becomes of the order.
pub count-swap_remove :
    (a b i : ℕ) (xs : List ℕ)
    → get_elem? xs i ≡ some b
    → (if a == b then 1 else 0) + count a (swap_remove i xs) ≡ count a xs
count-swap_remove a b i [] e = ground arith
count-swap_remove a b zero (x ∷ []) e = ground arith
count-swap_remove a b zero (x ∷ y ∷ ys) e = ground (arith, count-drop_last a y ys)
count-swap_remove a b (suc i) (x ∷ xs) e = omega (arith, count-swap_remove a b i xs e)

pub count_of_empty : (a : ℕ) (xs : List ℕ) → length xs ≡ 0 → count a xs ≡ 0
count_of_empty a [] h = refl
count_of_empty a (x ∷ xs) h = absurd (omega arith)

pub count_of_get_elem? : (a i : ℕ) (xs : List ℕ) → get_elem? xs i ≡ some a → 0 < count a xs
count_of_get_elem? a i [] e = absurd (ground arith)
count_of_get_elem? a zero (x ∷ xs) e = ground arith
count_of_get_elem? a (suc i) (x ∷ xs) e = omega (arith, count_of_get_elem? a i xs e)

-- A sum over the entries of a list.
module _ {ℓ} {A : Type ℓ} (weight : A → ℕ) where
  abbrev pub total : List A → ℕ
  total [] = 0
  total (x ∷ xs) = weight x + total xs

  pub total-append : (xs ys : List A) → total (xs ++ ys) ≡ total xs + total ys
  total-append [] ys = omega arith
  total-append (x ∷ xs) ys = omega (arith, total-append xs ys)

  total-drop_last :
      (x : A) (xs : List A) → weight (last_of x xs) + total (drop_last x xs) ≡ weight x + total xs
  total-drop_last x [] = omega arith
  total-drop_last x (y ∷ ys) = omega (arith, total-drop_last y ys)

  -- Removing by index takes out one entry, whatever becomes of the order.
  pub total-swap_remove :
      (i : ℕ) (x : A) (xs : List A)
      → get_elem? xs i ≡ some x
      → weight x + total (swap_remove i xs) ≡ total xs
  total-swap_remove i x [] e = absurd (cc)
  total-swap_remove zero x (y ∷ []) e =
      let same : y ≡ x = ground arith in omega (arith, ap weight same)
  total-swap_remove zero x (y ∷ z ∷ ys) e =
      let same : y ≡ x = ground arith in omega (arith, ap weight same, total-drop_last z ys)
  total-swap_remove (suc i) x (y ∷ ys) e = omega (arith, total-swap_remove i x ys e)
