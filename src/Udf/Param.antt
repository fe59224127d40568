-- ===== src/Udf/Param.antt =====
-- kafka-cmd-param.c: kafka_connection_param().
use trig_emit_kafka.Base.{
  ℕ, ◌+◌, ◌||◌, not, Option, none, some, List, if◌then◌else◌, ltb, ◌==◌, length,
}
use trig_emit_kafka.Base.Int.{pos}
use trig_emit_kafka.Base.Bytes.{Str, codes}
use trig_emit_kafka.Env.{Env}
use trig_emit_kafka.Machine.{M, fault, pure, ◌>>=◌, ◌>>◌, print}
use trig_emit_kafka.Machine.Log.{
  null_property_name, invalid_property_name_length, cannot_unset, invalid_property_value_length,
  cannot_set,
}
use trig_emit_kafka.Machine.Args.{
  Args, Init, accepted, Answer, returned, failed, coerced, arg, copy_arg, refuse, max_setup_var_len,
  errbuf_len,
}
use trig_emit_kafka.Engine.Producer.{Status, success, error}
use trig_emit_kafka.Table.Params.{validate_param, set_param, unset_param}
use trig_emit_kafka.Table.Connection.{connected}
use trig_emit_kafka.Udf.Connect.{errbuf_text}

module _ ⦃E : Env⦄ where
  -- What kafka_connection_param_init() makes of the validation; its error buffer is not cleared first,
  -- so that a text that was never written is a fault.
  unfoldable pub validated : Args → Status → M (Init Args)
  validated args success = pure (accepted args)
  validated args (error (some text)) = refuse text
  validated args (error none) = λ _. fault

  -- The check of two constant arguments.
  unfoldable pub check_constants : Args → Option (List ℕ) → ℕ → Option (List ℕ) → ℕ → M (Init Args)
  check_constants args none name_len value value_len = pure (accepted args)
  check_constants args (some name) name_len none value_len = pure (accepted args)
  check_constants args (some name) name_len (some value) value_len =
      if (name_len == 0) || (ltb max_setup_var_len name_len || ltb max_setup_var_len value_len)
      then refuse (codes "Wrong arguments. Property name or value is empty or too long.")
      else do
        name' ← copy_arg (max_setup_var_len + 1) name name_len
        value' ← copy_arg (max_setup_var_len + 1) value value_len
        status ← validate_param (some name') (some value') errbuf_len
        validated args status

  -- kafka_connection_param_init()
  unfoldable pub kafka_connection_param_init : Args → M (Init Args)
  kafka_connection_param_init args =
      if not (length args == 2)
      then refuse (codes "Wrong arguments. Need: 'property' (string), 'value' (string)")
      else (connected >>= λ is_connected.
          if is_connected
          then refuse (codes "Already connected. Parameters can only be set while disconnected.")
          else do
            name ← arg 0 args
            value ← arg 1 args
            check_constants (coerced args) name.bytes name.len value.bytes value.len)

  unfoldable pub forget_param : Str → M Answer
  forget_param name = do
    forgotten ← unset_param name
    if forgotten then pure (returned (pos 0)) else (print (cannot_unset name) >> pure failed)

  unfoldable pub store_value : Str → Str → M Answer
  store_value name value = set_param name value errbuf_len >>= λ status. elim status [
    | error message ↦ print (cannot_set name (errbuf_text message)) >> pure failed
    | success ↦ pure (returned (pos 0))
  ]

  -- From the copy of the name on: SQL's NULL as the value forgets the property.
  unfoldable pub change_param : Str → Option (List ℕ) → ℕ → M Answer
  change_param name none value_len = forget_param name
  change_param name (some value) value_len =
      if ltb max_setup_var_len value_len
      then (print invalid_property_value_length >> pure failed)
      else (copy_arg (max_setup_var_len + 1) value value_len >>= store_value name)

  -- kafka_connection_param() on the bytes of its arguments and their counts.
  unfoldable pub param_args : Option (List ℕ) → ℕ → Option (List ℕ) → ℕ → M Answer
  param_args none name_len value value_len = print null_property_name >> pure failed
  param_args (some name) name_len value value_len =
      if (name_len == 0) || ltb max_setup_var_len name_len
      then (print invalid_property_name_length >> pure failed)
      else (copy_arg (max_setup_var_len + 1) name name_len >>= λ name'.
          change_param name' value value_len)

  -- kafka_connection_param()
  unfoldable pub kafka_connection_param : Args → M Answer
  kafka_connection_param args = do
    name ← arg 0 args
    value ← arg 1 args
    param_args name.bytes name.len value.bytes value.len
