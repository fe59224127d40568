-- ===== src/Table/Params/Bindings.antt =====
-- The parameters as a map from names to values, against find_param(), set_param() and unset_param().
use trig_emit_kafka.Base.{
  ℕ, zero, suc, ◌+◌, ◌≤◌, ◌≡◌, refl, sym, ◌∙◌, ap, true, Option, none, some, List, [], ◌∷◌, ◌++◌,
  arith, inl, inr, Bool-cases, if◌then◌else◌, length, Option-cases, swap_remove, get_elem?, total,
  total-swap_remove,
}
use trig_emit_kafka.Base.Bytes.{Str, str_eq, str_eq_iff}
use trig_emit_kafka.Machine.{Param}
use trig_emit_kafka.Table.Params.{find_param, set_value}

-- The value that a name is bound to.
unfoldable pub get_param : Str → List Param → Option Str
get_param name [] = none
get_param name (p ∷ ps) = if str_eq p.name name then some p.value else get_param name ps

-- How many entries have the name.
unfoldable pub entries : Str → List Param → ℕ
entries name [] = 0
entries name (p ∷ ps) = (if str_eq p.name name then 1 else 0) + entries name ps

-- How many entries bind the name to the value.
unfoldable pub bindings : Str → Str → List Param → ℕ
bindings name value [] = 0
bindings name value (p ∷ ps) =
    (if str_eq p.name name then (if str_eq p.value value then 1 else 0) else 0)
    + bindings name value ps

-- No name is there twice.
abbrev pub Distinct : List Param → Type 0
Distinct ps = (name : Str) → entries name ps ≤ 1

-- What a write does to the list.
abbrev pub put_at : Option ℕ → Str → Str → List Param → List Param
put_at none name value ps = ps ++ record { name = name; value = value } ∷ []
put_at (some i) name value ps = set_value i value ps

abbrev pub put_param : Str → Str → List Param → List Param
put_param name value ps = put_at (find_param name ps) name value ps

pub length-set_value :
    (i : ℕ) (value : Str) (ps : List Param) → length (set_value i value ps) ≡ length ps
unfolding set_value
length-set_value i value [] = refl
length-set_value zero value (p ∷ ps) = refl
length-set_value (suc i) value (p ∷ ps) = ap suc (length-set_value i value ps)

pub same_name : (p : Param) (a b : Str) → str_eq p.name a ≡ true → str_eq p.name b ≡ str_eq a b
same_name p a b h = let e : p.name ≡ a = (str_eq_iff p.name a).0 h in ap (λ n. str_eq n b) e

-- After the write that kafka_table_set_param() makes, to the entry that the loop finds or to a new
-- one, the name has the value, and every other name has what it had.
pub get_param-put_param :
    (name value other : Str) (ps : List Param)
    → get_param other (put_param name value ps)
      ≡ (if str_eq name other then some value else get_param other ps)
unfolding get_param find_param set_value
get_param-put_param name value other [] = refl
get_param-put_param name value other (p ∷ ps) =
    let rest = get_param-put_param name value other ps in
    elim (Bool-cases (str_eq p.name name)) [
      | inl hit ↦ ground (arith, same_name p name other hit)
      | inr miss ↦ elim (Option-cases (find_param name ps)) [
        | inl new ↦ ground (arith, other_name, rest)
        | inr (i, old) ↦ ground (arith, other_name, rest)
      ]
    ]
  where
    other_name : str_eq p.name other ≡ true → str_eq name other ≡ true → str_eq p.name name ≡ true
    other_name h k =
        let e : p.name ≡ other = (str_eq_iff p.name other).0 h in
        let f : name ≡ other = (str_eq_iff name other).0 k in (str_eq_iff p.name name).1 (e ∙ sym f)

pub entries-find_param :
    (name : Str) (ps : List Param) → find_param name ps ≡ none → entries name ps ≡ 0
unfolding entries find_param
entries-find_param name [] e = refl
entries-find_param name (p ∷ ps) e = elim (Bool-cases (str_eq p.name name)) [
  | inl hit ↦ absurd (ground arith)
  | inr miss ↦ elim (Option-cases (find_param name ps)) [
    | inl new ↦ ground (arith, entries-find_param name ps new)
    | inr (i, old) ↦ absurd (ground arith)
  ]
]

entries-set_value :
    (name : Str) (i : ℕ) (value : Str) (ps : List Param)
    → entries name (set_value i value ps) ≡ entries name ps
unfolding entries set_value
entries-set_value name i value [] = refl
entries-set_value name zero value (p ∷ ps) = refl
entries-set_value name (suc i) value (p ∷ ps) =
    ap (λ n. (if str_eq p.name name then 1 else 0) + n) (entries-set_value name i value ps)

entries-append :
    (name : Str) (p : Param) (ps : List Param)
    → entries name (ps ++ p ∷ []) ≡ entries name ps + (if str_eq p.name name then 1 else 0)
unfolding entries
entries-append name p [] = omega arith
entries-append name p (q ∷ ps) = omega (arith, entries-append name p ps)

pub put_param-Distinct :
    (name value : Str) (ps : List Param) → Distinct ps → Distinct (put_param name value ps)
put_param-Distinct name value ps d other = elim (Option-cases (find_param name ps)) [
  | inr (i, old) ↦ rw (old, entries-set_value other i value ps) (d other)
  | inl new ↦
      rw (new, entries-append other (record { name = name; value = value }) ps)
        (elim (Bool-cases (str_eq name other)) [
          | inl same ↦
              let e : name ≡ other = (str_eq_iff name other).0 same in
              let no_entry : entries other ps ≡ 0 =
                ap (λ n. entries n ps) (sym e) ∙ entries-find_param name ps new in
              ground arith
          | inr differs ↦ let h = d other in ground arith
        ])
]

-- The loop finds an entry of the name.
pub find_param-named :
    (name : Str) (ps : List Param) (i : ℕ)
    → find_param name ps ≡ some i
    → (p : Param) × (get_elem? ps i ≡ some p) × (str_eq p.name name ≡ true)
unfolding find_param
find_param-named name [] i e = absurd (cc)
find_param-named name (p ∷ ps) i e = elim (Bool-cases (str_eq p.name name)) [
  | inl hit ↦ (p, ground arith, hit)
  | inr miss ↦ elim (Option-cases (find_param name ps)) [
    | inl new ↦ absurd (ground arith)
    | inr (j, found) ↦
        let (q, at, hit) = find_param-named name ps j found in
        let same : i ≡ suc j = ground arith in rw same (q, at, hit)
  ]
]

abbrev pub entry : Str → Param → ℕ
entry name p = if str_eq p.name name then 1 else 0

abbrev binding : Str → Str → Param → ℕ
binding name value p = if str_eq p.name name then (if str_eq p.value value then 1 else 0) else 0

pub entries-total : (name : Str) (ps : List Param) → entries name ps ≡ total (entry name) ps
unfolding entries
entries-total name [] = refl
entries-total name (p ∷ ps) = ap (λ n. entry name p + n) (entries-total name ps)

bindings-total :
    (name value : Str) (ps : List Param) → bindings name value ps ≡ total (binding name value) ps
unfolding bindings
bindings-total name value [] = refl
bindings-total name value (p ∷ ps) =
    ap (λ n. binding name value p + n) (bindings-total name value ps)

pub bindings-entries :
    (name value : Str) (ps : List Param) → bindings name value ps ≤ entries name ps
unfolding bindings entries
bindings-entries name value [] = omega arith
bindings-entries name value (p ∷ ps) = ground (arith, bindings-entries name value ps)

-- Where no name is there twice, taking out the entry that the loop found for a name unbinds the
-- name, leaves what every other name is bound to, and keeps the names distinct.
pub swap_remove-unbinds :
    (name : Str) (ps : List Param) (i : ℕ)
    → Distinct ps
    → find_param name ps ≡ some i
    → ((other value : Str)
        → bindings other value (swap_remove i ps)
          ≡ (if str_eq name other then 0 else bindings other value ps))
      × Distinct (swap_remove i ps)
swap_remove-unbinds name ps i d found =
    let (p, at, hit) = find_param-named name ps i found in
    let out = λ (n : Str). total-swap_remove (entry n) i p ps at in
    (
      (λ other value.
          let h = d other in
          ground (
            arith,
            same_name p name other hit,
            total-swap_remove (binding other value) i p ps at,
            bindings-total other value ps,
            bindings-total other value (swap_remove i ps),
            out other,
            entries-total other ps,
            entries-total other (swap_remove i ps),
            bindings-entries other value (swap_remove i ps),
          )),
      (λ n.
          let h = d n in
          omega (arith, out n, entries-total n ps, entries-total n (swap_remove i ps))),
    )
