-- ===== src/Table/Describe/Text.antt =====
-- What kafka_table_describe_params() leaves in the buffer, whatever its size.
use trig_emit_kafka.Base.{
  ◌⊎◌, true, ==_refl, ℕ, zero, suc, ◌+◌, ◌-◌, ◌≤◌, ◌<◌, ◌≡◌, refl, sym, ◌∙◌, ap, false, List, [],
  ◌∷◌, ◌++◌, arith, inl, inr, Bool-cases, if◌then◌else◌, ◌==◌, ltb, length, take, length-append,
  take-append, length-take,
}
use trig_emit_kafka.Base.Bytes.{Str, codes, is_prefix, strstr, snprintf}
use trig_emit_kafka.Base.Int.{ℤ, to_int}
use trig_emit_kafka.Env.{Env}
use trig_emit_kafka.Machine.{Param, World, ok}
use trig_emit_kafka.Table.Describe.{is_secret, param_line, describe_loop, describe_params}

-- All the lines of the parameters.
unfoldable pub text : List Param → Str
text [] = []
text (p ∷ ps) = param_line p ++ text ps

-- The name has the needle in it somewhere.
abbrev Contains : Str → Str → Type 0
Contains needle name = (front : Str) × (back : Str) × (name ≡ front ++ (needle ++ back))

-- A parameter whose value must not be shown.
abbrev pub Sensitive : Str → Type 0
Sensitive name = Contains (codes "password") name ⊎ Contains (codes "secret") name

-- The same names in the same order, and the same values save those of sensitive parameters.
abbrev pub Alike : List Param → List Param → Type 0
Alike [] [] = Unit
Alike [] (_ ∷ _) = ⊥
Alike (_ ∷ _) [] = ⊥
Alike (p ∷ ps) (q ∷ qs) = (p.name ≡ q.name) × ((p.value ≡ q.value) ⊎ Sensitive p.name) × Alike ps qs

is_prefix-append : (needle back : Str) → is_prefix needle (needle ++ back) ≡ true
unfolding is_prefix
is_prefix-append [] back = refl
is_prefix-append (c ∷ needle) back = ground (arith, is_prefix-append needle back, ==_refl c)

strstr-append : (front needle back : Str) → strstr (front ++ (needle ++ back)) needle ≡ true
unfolding strstr is_prefix
strstr-append [] [] [] = refl
strstr-append [] [] (c ∷ back) = refl
strstr-append [] (c ∷ needle) back = rw (is_prefix-append (c ∷ needle) back) refl
strstr-append (c ∷ front) needle back = ground (arith, strstr-append front needle back)

is_secret-Sensitive : (name : Str) → Sensitive name → is_secret name ≡ true
unfolding is_secret
is_secret-Sensitive name (inl (front, back, e)) =
    let found = strstr-append front (codes "password") back in rw (e, found) refl
is_secret-Sensitive name (inr (front, back, e)) =
    let found = strstr-append front (codes "secret") back in
    let hit : strstr name (codes "secret") ≡ true = ap (λ s. strstr s (codes "secret")) e ∙ found in
    ground (arith, hit)

-- What of a parameter is shown.
abbrev hidden : Param → Param
hidden p = record p { value = if is_secret p.name then [] else p.value }

unfoldable pub visible : List Param → List Param
visible [] = []
visible (p ∷ ps) = hidden p ∷ visible ps

append_nil : (xs : Str) → xs ++ [] ≡ xs
append_nil [] = refl
append_nil (x ∷ xs) = ap (◌∷◌ x) (append_nil xs)

append_assoc : (xs ys zs : Str) → (xs ++ ys) ++ zs ≡ xs ++ (ys ++ zs)
append_assoc [] ys zs = refl
append_assoc (x ∷ xs) ys zs = ap (◌∷◌ x) (append_assoc xs ys zs)

take_nil : (n : ℕ) → take {A = ℕ} n [] ≡ []
take_nil zero = refl
take_nil (suc n) = refl

describe_loop-text :
    (buflen : ℕ) (ps : List Param) (written : Str)
    → describe_loop buflen ps (length written) (take (buflen - 1) written)
      ≡ take (buflen - 1) (written ++ text ps)
unfolding describe_loop text
describe_loop-text buflen [] written = ap (take (buflen - 1)) (sym (append_nil written))
describe_loop-text buflen (p ∷ ps) written = elim (Bool-cases (ltb (length written + 1) buflen)) [
  | inl room ↦ rw room (
      (ap2 (sym (length-append written (param_line p))) buffer)
      ∙ describe_loop-text buflen ps (written ++ param_line p)
      ∙ ap (take (buflen - 1)) (append_assoc written (param_line p) (text ps)))
  | inr full ↦
      rw
        (full, take-append (buflen - 1) written (param_line p ++ text ps), none_left (ground arith))
        (sym (append_nil _))
]
  where
    ap2 :
        {m n : ℕ} {s t : Str}
        → m ≡ n
        → s ≡ t
        → describe_loop buflen ps m s ≡ describe_loop buflen ps n t
    ap2 {m} {n} {s} {t} e f =
        ap (λ k. describe_loop buflen ps k s) e ∙ ap (describe_loop buflen ps n) f

    same_room : buflen - length written - 1 ≡ buflen - 1 - length written
    same_room = omega arith

    none_left : buflen ≤ length written + 1 → buflen - 1 - length written ≡ 0
    none_left h = omega arith

    buffer :
        take (buflen - 1) written ++ snprintf (buflen - length written) (param_line p)
        ≡ take (buflen - 1) (written ++ param_line p)
    buffer =
        ap (λ n. take (buflen - 1) written ++ take n (param_line p)) same_room
        ∙ sym (take-append (buflen - 1) written (param_line p))

line_hidden : (p : Param) → param_line (hidden p) ≡ param_line p
unfolding param_line
line_hidden p = elim (Bool-cases (is_secret p.name)) [
  | inl secret ↦ rw secret
  | inr open' ↦ rw open'
]

text-visible : (ps : List Param) → text (visible ps) ≡ text ps
unfolding text visible
text-visible [] = refl
text-visible (p ∷ ps) =
    ap (λ s. s ++ text (visible ps)) (line_hidden p) ∙ ap (◌++◌ (param_line p)) (text-visible ps)

length-visible : (ps : List Param) → length (visible ps) ≡ length ps
unfolding visible
length-visible [] = refl
length-visible (p ∷ ps) = ap suc (length-visible ps)

pub visible-Alike : (ps qs : List Param) → Alike ps qs → visible ps ≡ visible qs
unfolding visible
visible-Alike [] [] a = refl
visible-Alike [] (q ∷ qs) a = elim a [ ]
visible-Alike (p ∷ ps) [] a = elim a [ ]
visible-Alike (p ∷ ps) (q ∷ qs) (name, inl value, rest) =
    let same : hidden p ≡ hidden q = rw (name, value) refl in cc (same, visible-Alike ps qs rest)
visible-Alike (p ∷ ps) (q ∷ qs) (name, inr secret, rest) =
    let s = is_secret-Sensitive p.name secret in
    let same : hidden p ≡ hidden q = rw (s, ← name, s, name) refl in
    cc (same, visible-Alike ps qs rest)

module _ ⦃E : Env⦄ where
  pub describe_params-text :
      (w : World) (buflen : ℕ)
      → 0 < buflen
      → (describe_params buflen w
          ≡ ok (take (buflen - 1) (text w.kt.params), to_int (length w.kt.params)) w)
        × (length (take (buflen - 1) (text w.kt.params)) < buflen)
  unfolding describe_params
  describe_params-text w buflen h =
      (rw (nonzero, loop) refl, omega (arith, length-take (buflen - 1) (text w.kt.params)))
    where
      nonzero : (buflen == 0) ≡ false
      nonzero = ground arith

      loop : describe_loop buflen w.kt.params 0 [] ≡ take (buflen - 1) (text w.kt.params)
      loop =
          ap (describe_loop buflen w.kt.params 0) (sym (take_nil (buflen - 1)))
          ∙ describe_loop-text buflen w.kt.params []

  -- Two tables that hold the same names in the same order, and whose values differ only where the name
  -- contains "password" or "secret", are described by the same text and the same result, in a buffer
  -- of any size but 0.
  pub describe_params-hides :
      (w v : World) (buflen : ℕ)
      → 0 < buflen
      → Alike w.kt.params v.kt.params
      → (r : Str × ℤ) × (describe_params buflen w ≡ ok r w) × (describe_params buflen v ≡ ok r v)
  describe_params-hides w v buflen h alike =
      let same = visible-Alike w.kt.params v.kt.params alike in
      let same_text : text w.kt.params ≡ text v.kt.params =
        sym (text-visible w.kt.params) ∙ ap text same ∙ text-visible v.kt.params in
      let same_length : length w.kt.params ≡ length v.kt.params =
        sym (length-visible w.kt.params) ∙ ap length same ∙ length-visible v.kt.params in
      (
        _,
        (describe_params-text w buflen h).0,
        (describe_params-text v buflen h).0 ∙ (rw (same_text, same_length) refl),
      )
