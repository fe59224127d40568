-- ===== src/Udf/Stats.antt =====
-- kafka-cmd-stats.c: kafka_stats().
use trig_emit_kafka.Base.{
  ℕ, ◌+◌, ◌||◌, not, Option, none, some, List, [], ◌++◌, if◌then◌else◌, ltb, ◌==◌, length,
}
use trig_emit_kafka.Base.Bytes.{Str, codes, decimal}
use trig_emit_kafka.Env.{Env}
use trig_emit_kafka.Machine.{M, pure, ◌>>=◌}
use trig_emit_kafka.Machine.Args.{
  Args, Init, accepted, arg, copy_arg, refuse, ItemResult, string_result, other_result,
  max_topic_len, udf_result_len,
}
use trig_emit_kafka.Table.Registry.{table_exists, table_get_stats}
use trig_emit_kafka.Table.Connection.{connected}
use trig_emit_kafka.Udf.Info.{Text, write_text}

-- "Transferred: %u Failed: %u"; a uint32_t has at most ten digits.
unfoldable pub stats_text : ℕ → ℕ → Str
stats_text transferred failed =
    codes "Transferred: " ++ (decimal 10 transferred ++ (codes " Failed: " ++ decimal 10 failed))

module _ ⦃E : Env⦄ where
  -- The check of a constant argument.
  unfoldable pub check_topic : Args → Option (List ℕ) → ℕ → M (Init Args)
  check_topic args none len = pure (accepted args)
  check_topic args (some bytes) len =
      if (len == 0) || ltb max_topic_len len
      then refuse (codes "Wrong arguments. Invalid topic name length.")
      else do
        topic ← copy_arg (max_topic_len + 1) bytes len
        exists ← table_exists (some topic)
        if exists
            then pure (accepted args)
            else refuse (codes "Cannot show stats for an unused topic")

  -- The rest of kafka_stats_init(), for one argument.
  unfoldable pub check_kind : Args → ItemResult → Option (List ℕ) → ℕ → M (Init Args)
  check_kind args other_result bytes len = refuse (codes "Wrong arguments. Need: 'topic' (string)")
  check_kind args string_result bytes len = connected >>= λ is_connected.
      if not is_connected
      then refuse (codes "Kafka has not been initialized.")
      else check_topic args bytes len

  -- kafka_stats_init()
  unfoldable pub kafka_stats_init : Args → M (Init Args)
  kafka_stats_init args =
      if not (length args == 1)
      then refuse (codes "Wrong arguments. Need: 'topic name' (string)")
      else (arg 0 args >>= λ a. check_kind args a.kind a.bytes a.len)

  -- The terminated copy of the name: the empty string for NULL or a length that is not allowed.
  unfoldable pub stats_topic : Option (List ℕ) → ℕ → M Str
  stats_topic none len = pure []
  stats_topic (some bytes) len =
      if (len == 0) || ltb max_topic_len len
      then pure []
      else copy_arg (max_topic_len + 1) bytes len

  -- kafka_stats()
  unfoldable pub kafka_stats : Args → M Text
  kafka_stats args = do
    a ← arg 0 args
    topic ← stats_topic a.bytes a.len
    (transferred, failed) ← table_get_stats (some topic)
    pure (write_text udf_result_len (stats_text transferred failed))
