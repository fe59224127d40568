-- ===== src/Table/Registry.antt =====
-- kafka-table.c, lines 54 to 130 and 362 to 489: the topics that are in use and those that are
-- retired. The functions for which the caller holds the lock are parts of the others.
use trig_emit_kafka.Base.{
  ℕ, suc, Bool, true, false, Option, none, some, List, [], ◌∷◌, ◌++◌, if◌then◌else◌, ltb, is_some,
  length, get_elem?, swap_remove,
}
use trig_emit_kafka.Base.Int.{ℤ, to_int, minus_one}
use trig_emit_kafka.Base.Bytes.{Str, zstr, str_eq}
use trig_emit_kafka.Env.{Env}
use trig_emit_kafka.Machine.{
  M, pure, ◌>>=◌, ◌>>◌, print, get_kt, put_kt, or_fault, load_topic, load_producer, free_topic,
}
use trig_emit_kafka.Machine.Log.{
  leaking_topic, not_connected, no_memory_for_table, cannot_create_handle, no_such_topic,
  cannot_send, empty_topic_name, disconnecting, cannot_disconnect,
}
use trig_emit_kafka.Engine.Producer.{producer_flush}
use trig_emit_kafka.Engine.Topics.{topic_create, topic_dispose, topic_feed, topic_get_stats}
use trig_emit_kafka.Table.Slots.{grow, check_slot}

module _ ⦃E : Env⦄ where
  -- The loop over the topics, from the first: the index whose record has the name.
  unfoldable pub find_index : Str → List ℕ → M (Option ℕ)
  find_index name [] = pure none
  find_index name (a ∷ topics) = load_topic a >>= λ topic.
      if str_eq topic.name name
      then pure (some 0)
      else (find_index name topics >>= λ rest.
          pure (elim rest [ none ↦ none | some i ↦ some (suc i) ]))

  -- kafka_table_find_locked()
  unfoldable pub find_locked : Option Str → M (Option ℕ)
  find_locked none = pure none
  find_locked (some name) = do
    kt ← get_kt
    found ← find_index name kt.topics
    pure (elim found [ none ↦ none | some i ↦ get_elem? kt.topics i ])

  -- Is there a producer whose out queue is not empty?
  unfoldable pub outq_busy : M Bool
  outq_busy = get_kt >>= λ kt. elim kt.producer [
    | none ↦ pure false
    | some p ↦ load_producer p >>= λ pr. elim pr.rk [
      | none ↦ pure false
      | some rk ↦ pure (ltb 0 (E.outq_len rk))
    ]
  ]

  unfoldable pub free_all : List ℕ → M (Unit {0})
  free_all [] = pure tt
  free_all (a ∷ topics) = free_topic a >> free_all topics

  -- kafka_table_reap_retired_locked(), given the retired records.
  unfoldable pub reap : List ℕ → M (Unit {0})
  reap [] = pure tt
  reap (a ∷ rest) = outq_busy >>= λ busy.
      if busy
      then pure tt
      else do free_all (a ∷ rest); kt ← get_kt; put_kt (record kt { retired = [] })

  unfoldable pub reap_retired : M (Unit {0})
  reap_retired = do kt ← get_kt; reap kt.retired

  -- The part of kafka_table_remove_locked() for a queue that has not drained.
  unfoldable pub park : ℕ → M (Unit {0})
  park a = do
    kt ← get_kt
    grown ← grow kt.retired_capacity (length kt.retired)
    elim grown [
      | none ↦ print leaking_topic
      | some capacity ↦
          check_slot (length kt.retired) capacity
          >> put_kt (record kt { retired_capacity = capacity; retired = kt.retired ++ a ∷ [] })
    ]

  -- The rest of kafka_table_remove_locked(), for a record that is out of the array and disposed of.
  unfoldable pub retire : ℕ → M (Unit {0})
  retire a = outq_busy >>= λ busy. if busy then park a else free_topic a

  -- kafka_table_remove_locked()
  unfoldable pub remove_locked : ℕ → M (Unit {0})
  remove_locked idx = do
    kt ← get_kt
    a ← or_fault (get_elem? kt.topics idx)
    put_kt (record kt { topics = swap_remove idx kt.topics })
    topic_dispose a
    retire a

  unfoldable pub insert_topic : ℕ → ℕ → Option Str → M Bool
  insert_topic p capacity topic_name = do
    made ← topic_create p topic_name
    elim made [
      | none ↦ print cannot_create_handle >> pure false
      | some a ↦ get_kt >>= λ kt.
          check_slot (length kt.topics) capacity
          >> (put_kt (record kt { topics = kt.topics ++ a ∷ [] }) >> pure true)
    ]

  -- kafka_table_create() for a topic that is not registered, given the producer.
  unfoldable pub create_new : Option ℕ → Option Str → M Bool
  create_new none topic_name = print not_connected >> pure false
  create_new (some p) topic_name = get_kt >>= λ kt. grow kt.capacity (length kt.topics) >>= λ grown.
      elim grown [
        | none ↦ print no_memory_for_table >> pure false
        | some capacity ↦
            put_kt (record kt { capacity = capacity }) >> insert_topic p capacity topic_name
      ]

  -- kafka_table_create(): is the topic ready?
  unfoldable pub table_create : Option Str → M Bool
  table_create topic_name = do
    found ← find_locked topic_name
    kt ← get_kt
    ready ← (if is_some found then pure true else create_new kt.producer topic_name)
    reap_retired
    pure ready

  -- kafka_table_exists()
  unfoldable pub table_exists : Option Str → M Bool
  table_exists topic = do found ← find_locked topic; pure (is_some found)

  -- kafka_table_send(), with fuel for the loop that waits for room in the queue.
  unfoldable pub table_send : ℕ → Option Str → List ℕ → M ℤ
  table_send fuel topic payload = find_locked topic >>= λ found. elim found [
    | none ↦ print no_such_topic >> pure minus_one
    | some a ↦ topic_feed fuel a payload >>= λ done.
        if done then pure (to_int (length payload)) else (print cannot_send >> pure minus_one)
  ]

  unfoldable pub dismiss_at : Str → ℕ → M (Unit {0})
  dismiss_at topic i = do
    print (disconnecting topic)
    kt ← get_kt
    _ ← producer_flush kt.producer
    remove_locked i

  unfoldable pub dismiss_found : Str → Option ℕ → M (Unit {0})
  dismiss_found topic none = pure tt
  dismiss_found topic (some i) = dismiss_at topic i

  -- kafka_table_dismiss(): was the topic registered?
  unfoldable pub table_dismiss : Str → M Bool
  table_dismiss topic = if zstr (some topic) then (print empty_topic_name >> pure false) else do
    kt ← get_kt
    found ← find_index topic kt.topics
    dismiss_found topic found
    reap_retired
    if is_some found then pure true else (print (cannot_disconnect topic) >> pure false)

  -- kafka_topic_get_stats(): transferred and failed, zero for a topic that is not registered.
  unfoldable pub table_get_stats : Option Str → M (ℕ × ℕ)
  table_get_stats topic =
      find_locked topic >>= λ found. elim found [ none ↦ pure (0, 0) | some a ↦ topic_get_stats a ]
