-- ===== src/Udf/Among.antt =====
-- kafka_send() among other sessions: ktlock is released between its calls of the table, so that others
-- and the poll thread can come in there.
use trig_emit_kafka.Base.{ℕ, ◌≡◌, refl, Bool, true, some, List, [], ◌∷◌, if◌then◌else◌}
use trig_emit_kafka.Base.Bytes.{Str}
use trig_emit_kafka.Env.{Env}
use trig_emit_kafka.Machine.{World, M, pure, ◌>>=◌, ◌>>◌, print}
use trig_emit_kafka.Machine.Log.{cannot_initialize_topic}
use trig_emit_kafka.Machine.Args.{Answer, failed}
use trig_emit_kafka.Table.Registry.{table_exists, table_create, table_send}
use trig_emit_kafka.Contract.{Call, perform}
use trig_emit_kafka.Udf.Send.{report_sent, send_to, ensure_topic}

module _ ⦃E : Env⦄ where
  -- What others do meanwhile.
  unfoldable pub perform_all : List Call → M (Unit {0})
  perform_all [] = pure tt
  perform_all (c ∷ calls) = perform c >>= λ _. perform_all calls

  -- The calls of others between kafka_table_exists() and kafka_table_create() come first.
  unfoldable pub ensure_among : List Call → Str → M Bool
  ensure_among others topic = table_exists (some topic) >>= λ exists.
      if exists then pure true else (perform_all others >> table_create (some topic))

  -- From `if (kafka_table_exists(topic) == 0)` on; `later` are the calls before kafka_table_send().
  unfoldable pub send_among : List Call → List Call → ℕ → Str → List ℕ → M Answer
  send_among others later fuel topic payload = ensure_among others topic >>= λ ready.
      if ready
      then (perform_all later >> (table_send fuel (some topic) payload >>= report_sent))
      else (print cannot_initialize_topic >> pure failed)

  -- Alone it is what kafka_send() does.
  send_among-alone :
      (fuel : ℕ) (topic : Str) (payload : List ℕ) (w : World)
      → send_among [] [] fuel topic payload w ≡ send_to fuel topic payload w
  unfolding send_among ensure_among perform_all send_to ensure_topic
  send_among-alone fuel topic payload w = refl
