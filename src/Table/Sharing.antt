-- ===== src/Table/Sharing.antt =====
-- kafka-table.c, lines 420 to 450 and 591 to 612: the calls that hold ktlock for reading only, so that
-- they run at the same time. Between two steps of one of them others can make theirs, and so can the
-- poll thread; calls that write the table have to wait.
use trig_emit_kafka.Base.{ℕ, zero, suc, Bool, true, false, Option, none, some, List, [], ◌∷◌, ◌&&◌}
use trig_emit_kafka.Base.Bytes.{Str}
use trig_emit_kafka.Env.{Env}
use trig_emit_kafka.Machine.{M, pure, ◌>>=◌, ◌>>◌, get_kt, load_topic, load_producer}
use trig_emit_kafka.Engine.Producer.{producer_flush}
use trig_emit_kafka.Engine.Topics.{feed_round, message_key}
use trig_emit_kafka.Table.Registry.{find_locked}
use trig_emit_kafka.Contract.{poll_round}

-- Where a thread is that runs kafka_table_send() or kafka_topic_get_stats(): from the call on, with the
-- lock; in the loop of tek_kafka_topic_feed_key() or between the reads of the counters, with the record
-- that was found; and at the end.
pub data Reader : Type 0 where
  send_called : Option Str → List ℕ → Reader
  feeding : ℕ → List ℕ → Reader
  send_ended : Option ℕ → Bool → Reader
  stats_called : Option Str → Reader
  flushed : ℕ → Reader
  half_read : ℕ → ℕ → Reader
  stats_ended : ℕ → ℕ → Reader

-- The thread has the lock and did nothing yet; it is at its end.
abbrev pub is_called : Reader → Bool
is_called (Reader.send_called _ _) = true
is_called (Reader.feeding _ _) = false
is_called (Reader.send_ended _ _) = false
is_called (Reader.stats_called _) = true
is_called (Reader.flushed _) = false
is_called (Reader.half_read _ _) = false
is_called (Reader.stats_ended _ _) = false

abbrev pub is_ended : Reader → Bool
is_ended (Reader.send_called _ _) = false
is_ended (Reader.feeding _ _) = false
is_ended (Reader.send_ended _ _) = true
is_ended (Reader.stats_called _) = false
is_ended (Reader.flushed _) = false
is_ended (Reader.half_read _ _) = false
is_ended (Reader.stats_ended _ _) = true

abbrev pub all_of : (Reader → Bool) → List Reader → Bool
all_of test [] = true
all_of test (r ∷ readers) = test r && all_of test readers

module _ ⦃E : Env⦄ where
  -- The checks of tek_kafka_topic_feed(), up to the loop.
  unfoldable pub start_feeding : ℕ → List ℕ → M Reader
  start_feeding a payload = load_topic a >>= λ topic. elim topic.rkt [
    | none ↦ pure (Reader.send_ended (some a) false)
    | some _ ↦ load_producer topic.producer >>= λ pr. elim pr.rk [
      | none ↦ pure (Reader.send_ended (some a) false)
      | some _ ↦ pure (Reader.feeding a payload)
    ]
  ]

  -- tek_kafka_topic_get_stats() up to its flush.
  unfoldable pub start_stats : ℕ → M Reader
  start_stats a = do
    topic ← load_topic a
    _ ← producer_flush (some topic.producer)
    pure (Reader.flushed a)

  -- One step of a thread: a search, one turn of the loop, a flush, or the read of one counter.
  unfoldable pub advance : Reader → M Reader
  advance (Reader.send_called topic payload) = find_locked topic >>= λ found. elim found [
    | none ↦ pure (Reader.send_ended none false)
    | some a ↦ start_feeding a payload
  ]
  advance (Reader.feeding a payload) = feed_round a (message_key none 0) payload >>= λ result.
      elim result [
        | none ↦ pure (Reader.feeding a payload)
        | some done ↦ pure (Reader.send_ended (some a) done)
      ]
  advance (Reader.send_ended found done) = pure (Reader.send_ended found done)
  advance (Reader.stats_called topic) = find_locked topic >>= λ found. elim found [
    | none ↦ pure (Reader.stats_ended 0 0)
    | some a ↦ start_stats a
  ]
  advance (Reader.flushed a) = do topic ← load_topic a; pure (Reader.half_read a topic.transferred)
  advance (Reader.half_read a transferred) = do
    topic ← load_topic a
    pure (Reader.stats_ended transferred topic.failed)
  advance (Reader.stats_ended transferred failed) = pure (Reader.stats_ended transferred failed)

  -- The step of the thread with the number, if there is one.
  unfoldable pub advance_at : ℕ → List Reader → M (List Reader)
  advance_at i [] = pure []
  advance_at zero (r ∷ readers) = advance r >>= λ r'. pure (r' ∷ readers)
  advance_at (suc i) (r ∷ readers) = advance_at i readers >>= λ readers'. pure (r ∷ readers')

  -- A round of the poll thread of the table's producer.
  unfoldable pub table_round : Option ℕ → M (Unit {0})
  table_round none = pure tt
  table_round (some p) = poll_round p

  -- A step of one of the threads, or a round of the poll thread.
  unfoldable pub turn : Option ℕ → List Reader → M (List Reader)
  turn none readers = get_kt >>= λ kt. (table_round kt.producer >> pure readers)
  turn (some i) readers = advance_at i readers

  -- In the order of the list.
  unfoldable pub share : List (Option ℕ) → List Reader → M (List Reader)
  share [] readers = pure readers
  share (t ∷ turns) readers = turn t readers >>= share turns
