-- ===== src/Table/Connection.antt =====
-- kafka-table.c, lines 148 to 158, 253 to 299, 491 to 556 and 614 to 626: building the producer,
-- and tearing everything down.
use trig_emit_kafka.Base.{ℕ, Bool, Option, none, some, List, [], ◌∷◌, if◌then◌else◌, ltb, is_some}
use trig_emit_kafka.Base.Bytes.{Str, codes, zstr, snprintf}
use trig_emit_kafka.Env.{Env}
use trig_emit_kafka.Machine.{Param, M, pure, ◌>>=◌, ◌>>◌, print, get_kt, put_kt, load_topic}
use trig_emit_kafka.Machine.Log.{giving_up, disconnecting, unloading}
use trig_emit_kafka.Engine.Producer.{
  Status, success, error, producer_create, producer_set_param, producer_run, producer_dispose,
  producer_flush,
}
use trig_emit_kafka.Engine.Topics.{topic_dispose}
use trig_emit_kafka.Table.Params.{clear_params}
use trig_emit_kafka.Table.Registry.{free_all}

module _ ⦃E : Env⦄ where
  -- kafka_table_connected()
  unfoldable pub connected : M Bool
  connected = do kt ← get_kt; pure (is_some kt.producer)

  -- The loop of kafka_table_connect() over the parameters: it stops at the first that fails.
  unfoldable pub apply_params : ℕ → List Param → ℕ → M Status
  apply_params p [] errbuflen = pure success
  apply_params p (param ∷ params) errbuflen =
      producer_set_param p param.name param.value (some errbuflen) >>= λ status. elim status [
        | success ↦ apply_params p params errbuflen
        | error message ↦ pure (error message)
      ]

  unfoldable pub apply_and_run : ℕ → List Param → ℕ → M Status
  apply_and_run p params errbuflen = apply_params p params errbuflen >>= λ status. elim status [
    | success ↦ producer_run p (some errbuflen)
    | error message ↦ pure (error message)
  ]

  unfoldable pub build : ℕ → ℕ → M Status
  build p errbuflen = do
    kt ← get_kt
    status ← apply_and_run p kt.params errbuflen
    elim status [
      | success ↦ put_kt (record kt { producer = some p }) >> pure success
      | error message ↦ producer_dispose (some p) >> pure (error message)
    ]

  -- kafka_table_connect()
  unfoldable pub table_connect : Str → ℕ → M Status
  table_connect brokers errbuflen =
      if zstr (some brokers)
      then pure (error (some (snprintf errbuflen (codes "Broker list must not be empty"))))
      else (get_kt >>= λ kt.
          if is_some kt.producer
          then pure (
              error (
                some
                  (snprintf errbuflen (codes "Already connected: call kafka_disconnect() first"))))
          else (producer_create brokers >>= λ made. elim made [
            | none ↦ pure (
                error
                  (some (snprintf errbuflen (codes "Cannot create the producer configuration"))))
            | some p ↦ build p errbuflen
          ]))

  unfoldable pub dispose_all : List ℕ → M (Unit {0})
  dispose_all [] = pure tt
  dispose_all (a ∷ topics) = do
    topic ← load_topic a
    print (disconnecting topic.name)
    topic_dispose a
    dispose_all topics

  unfoldable pub flush_all : M (Unit {0})
  flush_all = get_kt >>= λ kt.
      if is_some kt.producer
      then (producer_flush kt.producer >>= λ remaining.
          if ltb 0 remaining then print (giving_up remaining) else pure tt)
      else pure tt

  -- kafka_table_dismiss_all(), behind the flush, given what the table holds.
  unfoldable pub teardown : Option ℕ → List ℕ → List ℕ → M (Unit {0})
  teardown producer topics retired = do
    dispose_all topics
    producer_dispose producer
    kt ← get_kt
    put_kt (record kt { producer = none })
    free_all topics
    kt ← get_kt
    put_kt (record kt { topics = []; capacity = 0 })
    free_all retired
    kt ← get_kt
    put_kt (record kt { retired = []; retired_capacity = 0 })

  -- kafka_table_dismiss_all()
  unfoldable pub table_dismiss_all : M (Unit {0})
  table_dismiss_all = do flush_all; kt ← get_kt; teardown kt.producer kt.topics kt.retired

  -- kafka_table_shutdown()
  unfoldable pub table_shutdown : M (Unit {0})
  table_shutdown = do table_dismiss_all; clear_params

  -- kafka_module_unload()
  unfoldable pub module_unload : M (Unit {0})
  module_unload = do print unloading; table_shutdown
