-- ===== src/Table/Params/Lookup.antt =====
-- Looking a parameter up by its name, after a write and after a removal.
use trig_emit_kafka.Base.{
  ℕ, ◌≤◌, ◌<◌, ◌≡◌, refl, sym, ◌∙◌, none, some, List, [], ◌∷◌, arith, inl, inr, Bool-cases,
  if◌then◌else◌, Option-cases, swap_remove, total-swap_remove, is_some,
}
use trig_emit_kafka.Base.Bytes.{Str, str_eq, str_eq_iff}
use trig_emit_kafka.Machine.{Param}
use trig_emit_kafka.Table.Params.{find_param}
use trig_emit_kafka.Table.Params.Bindings.{
  get_param, entries, bindings, Distinct, entry, same_name, find_param-named, entries-total,
  bindings-entries, swap_remove-unbinds,
}

bindings_of_get_param :
    (name value : Str) (ps : List Param)
    → get_param name ps ≡ some value
    → 0 < bindings name value ps
unfolding get_param bindings
bindings_of_get_param name value [] e = absurd (cc)
bindings_of_get_param name value (p ∷ ps) e = elim (Bool-cases (str_eq p.name name)) [
  | inl hit ↦
      let same : p.value ≡ value = ground arith in ground (arith, (str_eq_iff p.value value).1 same)
  | inr miss ↦ ground (arith, bindings_of_get_param name value ps)
]

get_param_of_bindings :
    (name value : Str) (ps : List Param)
    → entries name ps ≤ 1
    → 0 < bindings name value ps
    → get_param name ps ≡ some value
unfolding get_param bindings entries
get_param_of_bindings name value [] d h = absurd (omega arith)
get_param_of_bindings name value (p ∷ ps) d h = elim (Bool-cases (str_eq p.name name)) [
  | inl hit ↦ ground (arith, bindings-entries name value ps, str_eq_iff p.value value)
  | inr miss ↦ ground (arith, get_param_of_bindings name value ps)
]

-- Two lists of distinct names that bind a name alike give it the same value.
pub get_param-bindings :
    (name : Str) (ps qs : List Param)
    → entries name ps ≤ 1
    → entries name qs ≤ 1
    → ((value : Str) → bindings name value qs ≡ bindings name value ps)
    → get_param name qs ≡ get_param name ps
get_param-bindings name ps qs d d' same = elim (Option-cases (get_param name qs)) [
  | inr (value, e) ↦
      let h = bindings_of_get_param name value qs e in
      e ∙ sym (get_param_of_bindings name value ps d (omega (arith, same value)))
  | inl e ↦ elim (Option-cases (get_param name ps)) [
    | inl e' ↦ e ∙ sym e'
    | inr (value, e') ↦
        let h = bindings_of_get_param name value ps e' in
        absurd (ground (arith, get_param_of_bindings name value qs d' (omega (arith, same value))))
  ]
]

-- A name that no entry has is bound to nothing.
pub get_param_of_entries :
    (name : Str) (ps : List Param) → entries name ps ≡ 0 → get_param name ps ≡ none
unfolding get_param entries
get_param_of_entries name [] h = refl
get_param_of_entries name (p ∷ ps) h = ground (arith, get_param_of_entries name ps)

-- Taking out the entry that was found takes the name out of the map, and leaves the rest of it.
pub get_param-swap_remove :
    (name other : Str) (ps : List Param) (i : ℕ)
    → Distinct ps
    → find_param name ps ≡ some i
    → get_param other (swap_remove i ps) ≡ (if str_eq name other then none else get_param other ps)
get_param-swap_remove name other ps i d found =
    let (p, at, hit) = find_param-named name ps i found in
    let out = total-swap_remove (entry other) i p ps at in
    let (bound, distinct) = swap_remove-unbinds name ps i d found in
    elim (Bool-cases (str_eq name other)) [
      | inl same ↦ rw same (
          get_param_of_entries other (swap_remove i ps) (
            let h = d other in
            ground (
              arith,
              out,
              same_name p name other hit,
              entries-total other ps,
              entries-total other (swap_remove i ps),
            )))
      | inr differs ↦ rw differs (
          get_param-bindings other ps (swap_remove i ps) (d other) (distinct other)
            (λ value. bound other value ∙ (rw differs refl)))
    ]

-- The loop finds a name exactly when it is bound.
pub is_some-find_param :
    (name : Str) (ps : List Param) → is_some (find_param name ps) ≡ is_some (get_param name ps)
unfolding find_param get_param
is_some-find_param name [] = refl
is_some-find_param name (p ∷ ps) =
    let rest = is_some-find_param name ps in
    elim (Bool-cases (str_eq p.name name)) [
      | inl hit ↦ ground arith
      | inr miss ↦ elim (Option-cases (find_param name ps)) [
        | inl e ↦ ground (arith, rest)
        | inr (i, e) ↦ ground (arith, rest)
      ]
    ]
