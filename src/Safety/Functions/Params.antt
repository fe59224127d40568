-- ===== src/Safety/Functions/Params.antt =====
-- kafka_connection_param().
use trig_emit_kafka.Base.{
  ◌+◌, ◌<◌, refl, Bool, true, false, none, some, [], ◌∷◌, arith, inl, inr, Bool-cases,
  if◌then◌else◌, ltb, length,
}
use trig_emit_kafka.Base.Bytes.{Str, c_str}
use trig_emit_kafka.Base.Int.{pos}
use trig_emit_kafka.Env.{Env}
use trig_emit_kafka.Machine.{World, M, pure, print, ◌>>◌}
use trig_emit_kafka.Machine.Log.{
  null_property_name, invalid_property_name_length, invalid_property_value_length, cannot_set,
  cannot_unset,
}
use trig_emit_kafka.Machine.Args.{returned, failed, Answer, arg, max_setup_var_len, errbuf_len}
use trig_emit_kafka.Machine.Returns
use trig_emit_kafka.Machine.Returns.{Returns, returns}
use trig_emit_kafka.Engine.Producer.{Status, success, error}
use trig_emit_kafka.Contract.{Call, succeeded}
use trig_emit_kafka.Safety.Parameters.{set_param-ParamSet}
use trig_emit_kafka.Safety.Unsetting.{unset_param-ParamUnset}
use trig_emit_kafka.Safety.Promises.Views.{Sane, Keeps}
use trig_emit_kafka.Safety.Promises.Params.{set-Keeps, unset-Keeps}
use trig_emit_kafka.Udf.Connect.{errbuf_text}
use trig_emit_kafka.Udf.Param.{
  kafka_connection_param, param_args, change_param, forget_param, store_value,
}
use trig_emit_kafka.Udf.Statement.{Value, Statement, Reported, Promise, given, param_effect}
use trig_emit_kafka.Safety.Functions.Arguments.{
  Promised, told, declined, name_checked, copy_arg-c_str,
}

module _ ⦃E : Env⦄ where
  forget_param-Reported :
      (w : World) (name : Str)
      → Sane w
      → Returns (Promised w (Reported (Call.unset name) (pos 0))) (forget_param name w)
  unfolding forget_param
  forget_param-Reported w name s =
      Returns.bind (unset_param-ParamUnset w name s.inv)
        λ b v x. answered b v (unset-Keeps w v name b s x)
    where
      answered :
          (b : Bool) (v : World)
          → Keeps (Call.unset name) w b v
          → Returns (Promised w (Reported (Call.unset name) (pos 0))) (
              (if b then pure (returned (pos 0)) else (print (cannot_unset name) >> pure failed)) v)
      answered true v (k, c) = returns (k, (true, refl, c))
      answered false v (k, c) =
          returns {a = failed}
            (told (Reported (Call.unset name) (pos 0)) _ w v _ (k, (false, refl, c)))

  -- What kafka_connection_param() makes of the status.
  set_answered :
      (w v : World) (name value : Str) (status : Status)
      → Keeps (Call.set name value errbuf_len) w (succeeded status) v
      → Returns (Promised w (Reported (Call.set name value errbuf_len) (pos 0))) (
          (elim status as (λ _. M Answer) [
            | error message ↦ print (cannot_set name (errbuf_text message)) >> pure failed
            | success ↦ pure (returned (pos 0))
          ])
            v)
  set_answered w v name value success (k, c) = returns (k, (true, refl, c))
  set_answered w v name value (error _) (k, c) =
      returns {a = failed}
        (told (Reported (Call.set name value errbuf_len) (pos 0)) _ w v _ (k, (false, refl, c)))

  store_value-Reported :
      (w : World) (name value : Str)
      → Sane w
      → Returns
          (Promised w (Reported (Call.set name value errbuf_len) (pos 0)))
          (store_value name value w)
  unfolding store_value
  store_value-Reported w name value s =
      Returns.bind (set_param-ParamSet w name value errbuf_len s.inv) λ status v x.
        set_answered w v name value status (set-Keeps w v name value errbuf_len status s x)

  change_param-Promised :
      (w : World) (name : Str) (value : Value)
      → Sane w
      → Returns
          (Promised w (param_effect value name))
          (change_param name (given value).bytes (given value).len w)
  unfolding change_param
  change_param-Promised w name none s = forget_param-Reported w name s
  change_param-Promised w name (some bytes) s =
      elim (Bool-cases (ltb max_setup_var_len (length bytes))) [
        | inl long ↦ rw long (returns {a = failed} (declined w invalid_property_value_length s))
        | inr short ↦
            let fits : length bytes < max_setup_var_len + 1 = ground (arith, short) in
            rw (short, copy_arg-c_str (max_setup_var_len + 1) bytes w fits)
              (store_value-Reported w name (c_str bytes) s)
      ]

  pub kafka_connection_param-Promise :
      (w : World) (name value : Value)
      → Sane w
      → Returns
          (Promised w (Promise (Statement.param name value)))
          (kafka_connection_param (given name ∷ given value ∷ []) w)
  unfolding kafka_connection_param arg param_args
  kafka_connection_param-Promise w none value s =
      returns {a = failed} (declined w null_property_name s)
  kafka_connection_param-Promise w (some bytes) value s =
      name_checked Returns (λ P a v p. returns p) max_setup_var_len bytes
        invalid_property_name_length
        (λ name. change_param name (given value).bytes (given value).len) (param_effect value) w s
        (change_param-Promised w (c_str bytes) value s)
