-- ===== src/Safety/Promises/Params.antt =====
-- Setting and forgetting a parameter keep what kafka-table.h promises.
use trig_emit_kafka.Base.{ℕ, ◌≡◌, ◌∙◌, ap, Bool, true, false, Option, none, ltb, is_some}
use trig_emit_kafka.Base.Bytes.{Str}
use trig_emit_kafka.Env.{Env}
use trig_emit_kafka.Machine.{World}
use trig_emit_kafka.Engine.Producer.{Status, success, error}
use trig_emit_kafka.Table.Params.Bindings.{
  get_param, put_param-Distinct, get_param-put_param, swap_remove-unbinds,
}
use trig_emit_kafka.Table.Params.Lookup.{get_param-swap_remove}
use trig_emit_kafka.Contract.{Call, succeeded}
use trig_emit_kafka.Safety.Holders.{registered}
use trig_emit_kafka.Safety.Parameters.{ParamSet}
use trig_emit_kafka.Safety.Unsetting.{ParamUnset}
use trig_emit_kafka.Safety.Promises.Views.{
  Sane, Keeps, same_names, Still-Same, names-Written, Written-Still,
}

module _ ⦃E : Env⦄ where
  pub is_none : (o : Option ℕ) → o ≡ none → is_some o ≡ false
  is_none o e = ap is_some e

  pub set-Keeps :
      (w v : World) (name value : Str) (n : ℕ) (st : Status)
      → Sane w
      → ParamSet w name value st v
      → Keeps (Call.set name value n) w (succeeded st) v
  unfolding registered
  set-Keeps w v name value n success s (valid, (idle, x)) = (
    record {
      inv = x.inv;
      distinct = λ other. rw x.params (put_param-Distinct name value w.kt.params s.distinct other);
      unique = same_names w v s.unique (names-Written w v _ x);
    },
    (
      valid.0,
      is_none w.kt.producer idle,
      is_none v.kt.producer (x.producer ∙ idle),
      (λ other. ap (get_param other) x.params ∙ get_param-put_param name value other w.kt.params),
      λ other. ap (ltb 0) (names-Written w v _ x other),
    ),
  )
  set-Keeps w v name value n (error _) s x = Still-Same w v s (Written-Still w v x)

  pub unset-Keeps :
      (w v : World) (name : Str) (b : Bool)
      → Sane w
      → ParamUnset w name b v
      → Keeps (Call.unset name) w b v
  unfolding registered
  unset-Keeps w v name true s (can, idle, (i, found, x)) = (
    record {
      inv = x.inv;
      distinct = λ n. rw x.params ((swap_remove-unbinds name w.kt.params i s.distinct found).1 n);
      unique = same_names w v s.unique (names-Written w v _ x);
    },
    (
      can,
      is_none v.kt.producer (x.producer ∙ idle),
      (λ other.
          ap (get_param other) x.params
          ∙ get_param-swap_remove name other w.kt.params i s.distinct found),
      λ other. ap (ltb 0) (names-Written w v _ x other),
    ),
  )
  unset-Keeps w v name false s (cannot, x) =
      let (sane, same) = Still-Same w v s (Written-Still w v x) in (sane, (cannot, same))
