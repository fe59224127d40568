-- ===== src/Safety/Functions/Counts.antt =====
-- What kafka_stats() tells of the messages of a topic.
use trig_emit_kafka.Base.{◌%◌, ◌^◌, ℕ, ◌+◌, ◌≡◌, some, [], ◌∷◌}
use trig_emit_kafka.Base.Bytes.{Str}
use trig_emit_kafka.Env.{Env, Laws}
use trig_emit_kafka.Machine.{World}
use trig_emit_kafka.Machine.Args.{max_topic_len}
use trig_emit_kafka.Machine.Returns
use trig_emit_kafka.Machine.Returns.{Returns, Safe, done}
use trig_emit_kafka.Udf.Statement.{Value, given, named}
use trig_emit_kafka.Udf.Stats.{kafka_stats, stats_text}
use trig_emit_kafka.Safety.Lookup.{lookup_name}
use trig_emit_kafka.Safety.Account.{queued_for}
use trig_emit_kafka.Safety.Sessions.{reached}
use trig_emit_kafka.Safety.History.{History, History-AllSent, table_get_stats-Counted}
use trig_emit_kafka.Safety.Functions.Texts.{whole, asked_topic, kafka_stats-text}

module _ ⦃E : Env⦄ where
  -- kafka_stats() tells of every message. In each state that SQL statements, rounds of the poll thread,
  -- calls of the table and runs of threads that share its lock lead to, and for an argument that stands for a name that the table finds, it
  -- always returns, and its result is the whole text of two numbers. Modulo 2^32 these two, together with
  -- the number of the topic's messages that are left in librdkafka's out queue, are the number of
  -- messages sent to the name since it was registered last: the calls of kafka_send() that did not answer
  -- an error, and those of kafka_table_send() that reported success. The length of each message that was
  -- sent is less than 2^31.
  pub kafka_stats-Counted :
      (L : Laws) (w : World) (sent : Str → ℕ) (value : Value) (a : ℕ)
      → History w sent
      → lookup_name w.heap (some (asked_topic (named max_topic_len value))) w.kt.topics ≡ some a
      → Returns
          (λ t v.
            (counts : ℕ × ℕ) × (t ≡ whole (stats_text counts.0 counts.1))
            × ((counts.0 + counts.1 + queued_for v.producers v.kt.producer a) % 2 ^ 32
                ≡ sent (asked_topic (named max_topic_len value)) % 2 ^ 32))
          (kafka_stats (given value ∷ []) w)
  kafka_stats-Counted L w sent value a h found =
      let topic = asked_topic (named max_topic_len value) in
      let (s, _) = History-AllSent L w sent h in
      Returns.mono (kafka_stats-text L w value s) λ t v (_, (counts, run, is)).
        let sum =
          reached (Returns.Returns-Safe (table_get_stats-Counted L w sent topic a h found)) run in
        (counts, is, sum)
