-- ===== src/Engine/Producer.antt =====
-- kafka-engine.c, lines 88 to 296: the producer, from its configuration to its disposal. The poll
-- thread is seen in rounds: `producer_round` is one turn of its loop.
use trig_emit_kafka.Base.{
  ℕ, inl, inr, Bool, true, false, not, ◌||◌, Option, none, some, List, [], ◌∷◌, if◌then◌else◌, ◌==◌,
}
use trig_emit_kafka.Base.Bytes.{Str, codes, zstr, snprintf}
use trig_emit_kafka.Env.{Env}
use trig_emit_kafka.Machine.{
  Param, Producer, M, pure, ◌>>=◌, ◌>>◌, tick, malloc, print, or_fault, load_producer,
  store_producer, free_producer, new_producer,
}
use trig_emit_kafka.Machine.Log.{cannot_set_property, cannot_create_producer, cannot_start_thread}
use trig_emit_kafka.Engine.Delivery.{serve}

-- KAFKA_SUCCESS, or KAFKA_ERROR with the text that was put into errbuf, if any was.
pub data Status : Type 0 where
  success : Status
  error : Option Str → Status

-- `if (errbuf != NULL && errbuflen > 0) snprintf(errbuf, errbuflen, "%s", text)`: `none` is a null
-- errbuf.
abbrev pub fill : Option ℕ → Str → Option Str
fill none text = none
fill (some n) text = if n == 0 then none else some (snprintf n text)

-- The defaults of tek_kafka_producer_create(), in their order.
unfoldable pub default_params : Str → List Param
default_params brokers =
    record { name = codes "bootstrap.servers"; value = brokers }
    ∷ record { name = codes "compression.type"; value = codes "lz4" }
    ∷ record { name = codes "queue.buffering.max.messages"; value = codes "50000" }
    ∷ record { name = codes "enable.idempotence"; value = codes "true" }
    ∷ record { name = codes "batch.num.messages"; value = codes "20000" }
    ∷ record { name = codes "queue.buffering.max.ms"; value = codes "500" }
    ∷ []

module _ ⦃E : Env⦄ where
  -- kafka_conf_set(): the configuration after, and how it went.
  unfoldable pub kafka_conf_set : E.Conf → Str → Str → Option ℕ → M (E.Conf × Status)
  kafka_conf_set conf name value errbuflen = elim (E.conf_set conf name value) [
    | inl message ↦
        print (cannot_set_property name (snprintf 512 message))
        >> pure (conf, error (fill errbuflen (snprintf 512 message)))
    | inr conf' ↦ pure (conf', success)
  ]

  -- rd_kafka_poll() on the producer's handle: the reports that it serves reach dr_msg_cb().
  unfoldable pub poll_producer : ℕ → M (Unit {0})
  poll_producer p = do
    pr ← load_producer p
    rk ← or_fault pr.rk
    (reports, rk') ← tick λ n. E.poll n rk
    store_producer p (record pr { rk = some rk' })
    serve reports

  -- One turn of the loop of producer_thread().
  unfoldable pub producer_round : ℕ → M (Unit {0})
  producer_round p = do pr ← load_producer p; if pr.running then poll_producer p else pure tt

  -- tek_kafka_producer_flush(): how many messages are still queued.
  unfoldable pub flush_rk : ℕ → E.Rk → M ℕ
  flush_rk p rk = do
    (reports, rk') ← tick λ n. E.flush n rk
    pr ← load_producer p
    store_producer p (record pr { rk = some rk' })
    serve reports
    pure (E.outq_len rk')

  unfoldable pub producer_flush : Option ℕ → M ℕ
  producer_flush none = pure 0
  producer_flush (some p) =
      load_producer p >>= λ pr. elim pr.rk [ none ↦ pure 0 | some rk ↦ flush_rk p rk ]

  -- pthread_join(): the thread may be in its last round when `running` is cleared.
  unfoldable pub join_thread : ℕ → M (Unit {0})
  join_thread p = do
    poll_producer p
    pr ← load_producer p
    store_producer p (record pr { thread_started = false })

  -- rd_kafka_destroy(), which serves every outstanding report.
  unfoldable pub destroy_rk : ℕ → E.Rk → M (Unit {0})
  destroy_rk p rk = do
    reports ← tick λ n. E.destroy n rk
    serve reports
    pr ← load_producer p
    store_producer p (record pr { rk = none })

  unfoldable pub join_if : ℕ → Bool → M (Unit {0})
  join_if p false = pure tt
  join_if p true = join_thread p

  -- The first part of tek_kafka_producer_dispose(): only a thread that was started is joined.
  unfoldable pub stop_thread : ℕ → M (Unit {0})
  stop_thread p = do
    pr ← load_producer p
    store_producer p (record pr { running = false })
    join_if p pr.thread_started

  unfoldable pub release_handle : ℕ → Option E.Rk → M (Unit {0})
  release_handle p none = pure tt
  release_handle p (some rk) = destroy_rk p rk

  -- Its last part: what is freed takes the configuration, if it is still there, and the broker list.
  unfoldable pub release_record : ℕ → M (Unit {0})
  release_record p = do
    pr ← load_producer p
    store_producer p (record pr { conf = none; brokers = none })
    free_producer p

  -- tek_kafka_producer_dispose()
  unfoldable pub producer_dispose : Option ℕ → M (Unit {0})
  producer_dispose none = pure tt
  producer_dispose (some p) = do
    stop_thread p
    pr ← load_producer p
    release_handle p pr.rk
    release_record p

  -- tek_kafka_producer_set_param(), on a producer whose pointer is not null.
  unfoldable pub producer_set_param : ℕ → Str → Str → Option ℕ → M Status
  producer_set_param p name value errbuflen =
      if zstr (some name)
      then pure (error none)
      else (load_producer p >>= λ pr. elim pr.conf [
        | none ↦ pure (
            error
              (fill errbuflen (codes "Already connected: disconnect before changing parameters")))
        | some conf ↦ kafka_conf_set conf name value errbuflen >>= λ (conf', status).
            store_producer p (record pr { conf = some conf' }) >> pure status
      ])

  -- The calls of kafka_conf_set() joined by `||`: they stop at the first that fails.
  unfoldable pub set_defaults : ℕ → List Param → M Bool
  set_defaults p [] = pure true
  set_defaults p (d ∷ ds) = do
    pr ← load_producer p
    conf ← or_fault pr.conf
    (conf', status) ← kafka_conf_set conf d.name d.value none
    store_producer p (record pr { conf = some conf' })
    elim status [ success ↦ set_defaults p ds | error _ ↦ pure false ]

  -- The record after malloc() and memset().
  abbrev pub zero_producer : Producer
  zero_producer = record {
    brokers = none;
    conf = none;
    rk = none;
    thread_started = false;
    running = false;
  }

  unfoldable pub abandon : ℕ → M (Option ℕ)
  abandon p = producer_dispose (some p) >> pure none

  -- tek_kafka_producer_create(): the address of the producer, or null.
  unfoldable pub producer_create : Str → M (Option ℕ)
  producer_create brokers = if zstr (some brokers) then pure none else do
    allocated ← malloc
    if not allocated then pure none else do
      p ← new_producer zero_producer
      copied ← malloc
      configured ← malloc
      store_producer p (record zero_producer {
        brokers = if copied then some brokers else none;
        conf = if configured then some E.conf_new else none;
      })
      if not copied || not configured then abandon p else do
        applied ← set_defaults p (default_params brokers)
        if applied then pure (some p) else abandon p

  unfoldable pub start_thread : ℕ → E.Rk → Option ℕ → M Status
  start_thread p rk errbuflen = do
    pr ← load_producer p
    store_producer p (record pr { conf = none; rk = some rk; running = true })
    started ← tick E.pthread_create
    pr ← load_producer p
    if started
        then (store_producer p (record pr { thread_started = true }) >> pure success)
        else (store_producer p (record pr { running = false })
            >> print cannot_start_thread
            >> pure (error (fill errbuflen (codes "Cannot start the poll thread"))))

  -- tek_kafka_producer_run(), on a producer whose pointer is not null.
  unfoldable pub producer_run : ℕ → Option ℕ → M Status
  producer_run p errbuflen = load_producer p >>= λ pr. elim pr.conf [
    | none ↦ pure (error none)
    | some conf ↦ tick (λ n. E.kafka_new n (E.set_dr_msg_cb conf)) >>= λ made. elim made [
      | inl message ↦
          print (cannot_create_producer (snprintf 1024 message))
          >> (store_producer p (record pr { conf = none })
              >> pure (error (fill errbuflen (snprintf 1024 message))))
      | inr rk ↦ start_thread p rk errbuflen
    ]
  ]
