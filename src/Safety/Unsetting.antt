-- ===== src/Safety/Unsetting.antt =====
-- kafka_table_unset_param() is safe.
use trig_emit_kafka.Base.{
  sym, refl, ◌∙◌, ap, ℕ, ◌≡◌, true, false, Bool, Option, none, some, arith, inl, inr, Bool-cases,
  Option-cases, is_some, swap_remove, length-swap_remove-le,
}
use trig_emit_kafka.Base.Bytes.{Str, zstr}
use trig_emit_kafka.Env.{Env}
use trig_emit_kafka.Machine.{World}
use trig_emit_kafka.Machine.Returns.{Returns, returns}
use trig_emit_kafka.Table.Params.{find_param, unset_param}
use trig_emit_kafka.Table.Params.Bindings.{get_param}
use trig_emit_kafka.Table.Params.Lookup.{is_some-find_param}
use trig_emit_kafka.Contract.{forgettable}
use trig_emit_kafka.Safety.Invariant.{Inv}
use trig_emit_kafka.Safety.Parameters.{Written, Written-refl, write}

module _ ⦃E : Env⦄ where
  abbrev can_unset : World → Str → Bool
  can_unset w name = forgettable name (is_some w.kt.producer) (get_param name w.kt.params)

  -- What kafka_table_unset_param() leaves.
  abbrev pub ParamUnset : World → Str → Bool → World → Type 0
  ParamUnset w name false v = (can_unset w name ≡ false) × Written w w.kt.params v
  ParamUnset w name true v =
      (can_unset w name ≡ true)
      × (w.kt.producer ≡ none)
      × ((i : ℕ) × (find_param name w.kt.params ≡ some i) × Written w (swap_remove i w.kt.params) v)

  -- Where the invariant holds, kafka_table_unset_param() always returns, and the invariant holds then.
  -- It succeeds exactly if the name is not empty, there is no connection and the parameter is set. Then
  -- the last entry takes the place of the one found for the name; otherwise the parameters are as
  -- before. The producer, the topics and their records stay as they were.
  pub unset_param-ParamUnset :
      (w : World) (name : Str) → Inv w → Returns (ParamUnset w name) (unset_param name w)
  unfolding unset_param
  unset_param-ParamUnset w name i = elim (Bool-cases (zstr (some name))) [
    | inl empty ↦ rw empty (returns {a = false} (rw empty refl, Written-refl w w.calls i))
    | inr filled ↦ rw filled (elim (Bool-cases (is_some w.kt.producer)) [
      | inl busy ↦ rw busy (returns {a = false} (rw (filled, busy) refl, Written-refl w w.calls i))
      | inr idle ↦ rw idle (elim (Option-cases (find_param name w.kt.params)) [
        | inl missing ↦ rw missing (
            returns {a = false}
              (ground (arith, filled, idle, listed missing), Written-refl w w.calls i))
        | inr (j, found) ↦ rw found (
            returns {a = true} (
              ground (arith, filled, idle, listed found),
              none_of w.kt.producer idle,
              (
                j,
                found,
                write w _ w.kt.param_capacity w.calls i
                    (omega (arith, i.params_fit, length-swap_remove-le j w.kt.params)),
              ),
            ))
      ])
    ])
  ]
    where
      listed :
          {o : Option ℕ}
          → find_param name w.kt.params ≡ o
          → is_some (get_param name w.kt.params) ≡ is_some o
      listed e = sym (is_some-find_param name w.kt.params) ∙ ap is_some e

      none_of : (o : Option ℕ) → is_some o ≡ false → o ≡ none
      none_of o h = ground arith
