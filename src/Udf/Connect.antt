-- ===== src/Udf/Connect.antt =====
-- kafka-cmd-connect.c: kafka_connect().
use trig_emit_kafka.Base.{
  ℕ, ◌+◌, List, ◌||◌, not, Option, none, some, if◌then◌else◌, ltb, ◌==◌, length, [],
}
use trig_emit_kafka.Base.Int.{pos}
use trig_emit_kafka.Base.Bytes.{Str, codes}
use trig_emit_kafka.Env.{Env}
use trig_emit_kafka.Machine.{M, pure, ◌>>=◌, ◌>>◌, print}
use trig_emit_kafka.Machine.Log.{invalid_brokers, cannot_connect, connected_to}
use trig_emit_kafka.Machine.Args.{
  Args, Init, accepted, Answer, returned, failed, coerced, arg, copy_arg, refuse, max_setup_var_len,
  errbuf_len,
}
use trig_emit_kafka.Engine.Producer.{success, error}
use trig_emit_kafka.Table.Connection.{connected, table_connect}

-- What stands in an error buffer that was empty before.
abbrev pub errbuf_text : Option Str → Str
errbuf_text none = []
errbuf_text (some text) = text

module _ ⦃E : Env⦄ where
  -- kafka_connect_init()
  unfoldable pub kafka_connect_init : Args → M (Init Args)
  kafka_connect_init args =
      if not (length args == 1)
      then refuse (codes "Wrong arguments. Need: 'broker:port,...' (string)")
      else (connected >>= λ is_connected.
          if is_connected
          then refuse (codes "Already connected. Call kafka_disconnect() first.")
          else pure (accepted (coerced args)))

  unfoldable pub connect_to : Str → M Answer
  connect_to brokers = table_connect brokers errbuf_len >>= λ status. elim status [
    | error message ↦ print (cannot_connect (errbuf_text message)) >> pure failed
    | success ↦ print (connected_to brokers) >> pure (returned (pos 0))
  ]

  -- kafka_connect() on the argument's bytes and their count.
  unfoldable pub connect_arg : Option (List ℕ) → ℕ → M Answer
  connect_arg none len = print invalid_brokers >> pure failed
  connect_arg (some bytes) len =
      if (len == 0) || ltb max_setup_var_len len
      then (print invalid_brokers >> pure failed)
      else (copy_arg (max_setup_var_len + 1) bytes len >>= connect_to)

  -- kafka_connect()
  unfoldable pub kafka_connect : Args → M Answer
  kafka_connect args = do a ← arg 0 args; connect_arg a.bytes a.len
