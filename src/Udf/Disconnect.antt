-- ===== src/Udf/Disconnect.antt =====
-- kafka-cmd-disconnect.c: kafka_disconnect().
use trig_emit_kafka.Base.{ℕ, ◌+◌, ◌||◌, Option, none, some, List, if◌then◌else◌, ltb, ◌==◌, length}
use trig_emit_kafka.Base.Int.{pos}
use trig_emit_kafka.Base.Bytes.{Str, codes}
use trig_emit_kafka.Env.{Env}
use trig_emit_kafka.Machine.{M, pure, ◌>>=◌, ◌>>◌, print}
use trig_emit_kafka.Machine.Log.{null_argument, invalid_topic_length}
use trig_emit_kafka.Machine.Args.{
  Args, Init, accepted, Answer, returned, failed, coerced, arg, copy_arg, refuse, max_topic_len,
}
use trig_emit_kafka.Table.Registry.{table_dismiss}
use trig_emit_kafka.Table.Connection.{table_dismiss_all}

module _ ⦃E : Env⦄ where
  -- kafka_disconnect_init()
  unfoldable pub kafka_disconnect_init : Args → M (Init Args)
  kafka_disconnect_init args =
      if ltb 1 (length args)
      then refuse (codes "Wrong arguments. Need: none, or 'topic name' (string)")
      else pure (accepted (coerced args))

  unfoldable pub disconnect_topic : Str → M Answer
  disconnect_topic topic = do
    dismissed ← table_dismiss topic
    if dismissed then pure (returned (pos 0)) else pure failed

  -- kafka_disconnect() with one argument.
  unfoldable pub disconnect_arg : Option (List ℕ) → ℕ → M Answer
  disconnect_arg none len = print null_argument >> pure failed
  disconnect_arg (some bytes) len =
      if (len == 0) || ltb max_topic_len len
      then (print (invalid_topic_length len) >> pure failed)
      else (copy_arg (max_topic_len + 1) bytes len >>= disconnect_topic)

  -- kafka_disconnect()
  unfoldable pub kafka_disconnect : Args → M Answer
  kafka_disconnect args =
      if length args == 0
      then (table_dismiss_all >> pure (returned (pos 0)))
      else (arg 0 args >>= λ a. disconnect_arg a.bytes a.len)
