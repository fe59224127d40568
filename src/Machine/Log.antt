-- ===== src/Machine/Log.antt =====
-- The lines that error_print() and info_print() write to stderr, with what is put into them. An
-- error code stands for its rd_kafka_err2str(). debug_print() lines are left out: DEBUG is 0.
use trig_emit_kafka.Base.{ℕ}
use trig_emit_kafka.Base.Int.{ℤ}
use trig_emit_kafka.Base.Bytes.{Str}

pub data LogLine : Type 0 where
  -- kafka-engine.c
  delivery_failed : Str → ℕ → LogLine
  delivery_failed_and_more : Str → ℕ → ℕ → ℤ → LogLine
  delivery_recovered : Str → LogLine
  delivery_recovered_unreported : Str → ℕ → LogLine
  cannot_set_property : Str → Str → LogLine
  cannot_create_producer : Str → LogLine
  cannot_start_thread : LogLine
  cannot_create_topic_object : Str → ℕ → LogLine
  topic_unreported : Str → ℕ → ℕ → LogLine
  cannot_produce : Str → ℕ → LogLine
  -- kafka-table.c
  leaking_topic : LogLine
  not_connected : LogLine
  no_memory_for_table : LogLine
  cannot_create_handle : LogLine
  no_such_topic : LogLine
  cannot_send : LogLine
  empty_topic_name : LogLine
  disconnecting : Str → LogLine
  cannot_disconnect : Str → LogLine
  giving_up : ℕ → LogLine
  unloading : LogLine
  -- kafka-cmd-*.c
  invalid_brokers : LogLine
  cannot_connect : Str → LogLine
  connected_to : Str → LogLine
  null_argument : LogLine
  invalid_topic_length : ℕ → LogLine
  cannot_initialize_topic : LogLine
  error_sending : LogLine
  null_property_name : LogLine
  invalid_property_name_length : LogLine
  cannot_unset : Str → LogLine
  invalid_property_value_length : LogLine
  cannot_set : Str → Str → LogLine
