-- ===== src/Engine/Topics.antt =====
-- kafka-engine.c, lines 298 to 440: the record of one topic, its counters, and producing to it.
use trig_emit_kafka.Base.{
  ℕ, zero, suc, inl, inr, Bool, true, false, not, Option, none, some, List, [], ◌∷◌, ◌++◌, take,
  if◌then◌else◌, ◌==◌, ltb,
}
use trig_emit_kafka.Base.Bytes.{Str, zstr, c_str}
use trig_emit_kafka.Env.{Env, Outcome, queued, refused, no_error}
use trig_emit_kafka.Machine.{
  Topic, M, blocked, pure, ◌>>=◌, ◌>>◌, tick, malloc, print, or_fault, load_topic, store_topic,
  free_topic, new_topic, load_producer, store_producer,
}
use trig_emit_kafka.Machine.Log.{cannot_create_topic_object, topic_unreported, cannot_produce}
use trig_emit_kafka.Engine.Producer.{poll_producer, producer_flush}

-- `if (key != NULL && klen == 0) klen = strlen(key) + 1`, and the bytes that this length takes.
unfoldable pub message_key : Option (List ℕ) → ℕ → Option (List ℕ)
message_key none klen = none
message_key (some key) klen = some (if klen == 0 then c_str key ++ 0 ∷ [] else take klen key)

module _ ⦃E : Env⦄ where
  -- The record after malloc(), memset() and the assignment of its producer.
  abbrev pub zero_topic : ℕ → Topic
  zero_topic p = record {
    name = [];
    rkt = none;
    producer = p;
    transferred = 0;
    failed = 0;
    last_err = no_error;
    last_log_time = 0;
    suppressed = 0;
  }

  -- rd_kafka_topic_new() for a record whose name is in place.
  unfoldable pub open_handle : ℕ → E.Rk → ℕ → Str → M (Option ℕ)
  open_handle p rk a name = do
    (made, rk') ← tick λ n. E.topic_new n rk name
    pr ← load_producer p
    store_producer p (record pr { rk = some rk' })
    elim made [
      | inl err ↦ print (cannot_create_topic_object name err) >> (free_topic a >> pure none)
      | inr handle ↦ load_topic a >>= λ topic.
          store_topic a (record topic { rkt = some handle }) >> pure (some a)
    ]

  unfoldable pub create_record : ℕ → E.Rk → Str → M (Option ℕ)
  create_record p rk name = do
    allocated ← malloc
    if not allocated then pure none else do
      a ← new_topic (zero_topic p)
      copied ← malloc
      if not copied
          then (free_topic a >> pure none)
          else do store_topic a (record (zero_topic p) { name = name }); open_handle p rk a name

  -- tek_kafka_topic_create(), for a producer whose pointer is not null: the address, or null.
  unfoldable pub topic_create : ℕ → Option Str → M (Option ℕ)
  topic_create p none = pure none
  topic_create p (some name) = load_producer p >>= λ pr. elim pr.rk [
    | none ↦ pure none
    | some rk ↦ if zstr (some name) then pure none else create_record p rk name
  ]

  -- rd_kafka_topic_destroy(): the handle belongs to the rd_kafka_t of the record's producer, which
  -- must still be there.
  unfoldable pub destroy_handle : ℕ → Topic → E.Rkt → M (Unit {0})
  destroy_handle a topic handle = do
    pr ← load_producer topic.producer
    rk ← or_fault pr.rk
    store_producer topic.producer (record pr { rk = some (E.topic_destroy handle rk) })
    store_topic a (record topic { rkt = none })

  -- tek_kafka_topic_dispose()
  unfoldable pub topic_dispose : ℕ → M (Unit {0})
  topic_dispose a = do
    topic ← load_topic a
    elim topic.rkt [ none ↦ pure tt | some handle ↦ destroy_handle a topic handle ]
    topic ← load_topic a
    if ltb 0 topic.suppressed
        then (print (topic_unreported topic.name topic.suppressed topic.last_err)
            >> store_topic a (record topic { suppressed = 0 }))
        else pure tt

  -- tek_kafka_topic_get_stats(): transferred and failed, read after a flush.
  unfoldable pub topic_get_stats : ℕ → M (ℕ × ℕ)
  topic_get_stats a = do
    topic ← load_topic a
    _ ← producer_flush (some topic.producer)
    topic ← load_topic a
    pure (topic.transferred, topic.failed)

  -- What tek_kafka_topic_feed_key() does about one answer of rd_kafka_produce(): `none` is another
  -- turn of the loop.
  unfoldable pub answer : ℕ → Topic → Outcome → M (Option Bool)
  answer p topic queued = poll_producer p >> pure (some true)
  answer p topic (refused err) =
      if err == E.queue_full
      then (poll_producer p >> pure none)
      else (print (cannot_produce topic.name err) >> pure (some false))

  -- One turn of the loop of tek_kafka_topic_feed_key().
  unfoldable pub feed_round : ℕ → Option (List ℕ) → List ℕ → M (Option Bool)
  feed_round a key payload = do
    topic ← load_topic a
    pr ← load_producer topic.producer
    rk ← or_fault pr.rk
    handle ← or_fault topic.rkt
    (outcome, rk') ← tick λ n. E.produce n rk handle payload key a
    store_producer topic.producer (record pr { rk = some rk' })
    answer topic.producer topic outcome

  -- The loop, for at most as many turns as the fuel. KAFKA_SUCCESS is `true`.
  unfoldable pub feed_loop : ℕ → ℕ → Option (List ℕ) → List ℕ → M Bool
  feed_loop zero a key payload = λ _. blocked
  feed_loop (suc fuel) a key payload = feed_round a key payload >>= λ result. elim result [
    | none ↦ feed_loop fuel a key payload
    | some done ↦ pure done
  ]

  -- tek_kafka_topic_feed_key()
  unfoldable pub topic_feed_key : ℕ → ℕ → Option (List ℕ) → ℕ → List ℕ → M Bool
  topic_feed_key fuel a key klen payload = feed_loop fuel a (message_key key klen) payload

  -- tek_kafka_topic_feed(), for a record whose producer is not null.
  unfoldable pub topic_feed : ℕ → ℕ → List ℕ → M Bool
  topic_feed fuel a payload = load_topic a >>= λ topic. elim topic.rkt [
    | none ↦ pure false
    | some _ ↦ load_producer topic.producer >>= λ pr. elim pr.rk [
      | none ↦ pure false
      | some _ ↦ topic_feed_key fuel a none 0 payload
    ]
  ]
