-- ===== src/Udf/Send.antt =====
-- kafka-cmd-send.c: kafka_send().
use trig_emit_kafka.Base.{
  ℕ, ◌+◌, ◌||◌, Bool, true, not, Option, none, some, List, if◌then◌else◌, ltb, ◌==◌, length, take,
}
use trig_emit_kafka.Base.Int.{ℤ, pos, negsuc}
use trig_emit_kafka.Base.Bytes.{Str, codes}
use trig_emit_kafka.Env.{Env}
use trig_emit_kafka.Machine.{M, fault, pure, ◌>>=◌, ◌>>◌, print}
use trig_emit_kafka.Machine.Log.{
  null_argument, invalid_topic_length, cannot_initialize_topic, error_sending,
}
use trig_emit_kafka.Machine.Args.{
  Args, Init, accepted, Answer, returned, failed, coerced, arg, copy_arg, refuse, max_topic_len,
}
use trig_emit_kafka.Table.Registry.{table_exists, table_create, table_send}
use trig_emit_kafka.Table.Connection.{connected}

module _ ⦃E : Env⦄ where
  -- kafka_send_init()
  unfoldable pub kafka_send_init : Args → M (Init Args)
  kafka_send_init args =
      if not (length args == 2)
      then refuse (codes "Wrong arguments to function.")
      else (connected >>= λ is_connected.
          if not is_connected
          then refuse (codes "Not connected. Call kafka_connect() first.")
          else pure (accepted (coerced args)))

  -- `if (kafka_table_exists(topic) == 0)`: is the topic there, or could it be created?
  unfoldable pub ensure_topic : Str → M Bool
  ensure_topic topic = table_exists (some topic) >>= λ exists.
      if exists then pure true else table_create (some topic)

  -- What is made of the result of kafka_table_send().
  unfoldable pub report_sent : ℤ → M Answer
  report_sent (pos n) = pure (returned (pos n))
  report_sent (negsuc n) = print error_sending >> pure failed

  unfoldable pub send_to : ℕ → Str → List ℕ → M Answer
  send_to fuel topic payload = ensure_topic topic >>= λ ready.
      if ready
      then (table_send fuel (some topic) payload >>= report_sent)
      else (print cannot_initialize_topic >> pure failed)

  -- The payload is the `len` bytes at `msg`: a fault where they are fewer.
  unfoldable pub payload_of : List ℕ → ℕ → M (List ℕ)
  payload_of bytes len = if ltb (length bytes) len then (λ _. fault) else pure (take len bytes)

  -- kafka_send() on the bytes of its arguments and their counts.
  unfoldable pub send_args : ℕ → Option (List ℕ) → ℕ → Option (List ℕ) → ℕ → M Answer
  send_args fuel none topic_len msg len = print null_argument >> pure failed
  send_args fuel (some topic) topic_len none len = print null_argument >> pure failed
  send_args fuel (some topic) topic_len (some msg) len =
      if (topic_len == 0) || ltb max_topic_len topic_len
      then (print (invalid_topic_length topic_len) >> pure failed)
      else do
        name ← copy_arg (max_topic_len + 1) topic topic_len
        payload ← payload_of msg len
        send_to fuel name payload

  -- kafka_send(), with fuel for the loop that waits for room in the queue.
  unfoldable pub kafka_send : ℕ → Args → M Answer
  kafka_send fuel args = do
    topic ← arg 0 args
    msg ← arg 1 args
    send_args fuel topic.bytes topic.len msg.bytes msg.len
