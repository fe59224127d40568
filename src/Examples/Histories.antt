-- ===== src/Examples/Histories.antt =====
-- The messages of a topic, over the small librdkafka: two were sent.
use trig_emit_kafka.Base.{Option, List, ℕ, ◌+◌, ◌%◌, ◌^◌, ◌≡◌, refl, true, some, [], ◌∷◌}
use trig_emit_kafka.Base.{none}
use trig_emit_kafka.Contract.{poll_round}
use trig_emit_kafka.Engine.Producer.{producer_round, producer_flush, flush_rk}
use trig_emit_kafka.Engine.Topics.{message_key}
use trig_emit_kafka.Base.{true, []}
use trig_emit_kafka.Table.Sharing.{
  table_round, turn, advance_at, advance, start_feeding, start_stats, Reader, share,
}
use trig_emit_kafka.Safety.Sharing.{Shares, share-Shares}
use trig_emit_kafka.Examples.States.{subscribed-Sane, subscribed, start}
use trig_emit_kafka.Base.Int.{pos}
use trig_emit_kafka.Machine.{Run, ok, fault, blocked}
use trig_emit_kafka.Machine.Args.{Answer, returned, arg, copy_arg}
use trig_emit_kafka.Table.Registry.{table_exists}
use trig_emit_kafka.Udf.Connect.{kafka_connect, connect_arg, connect_to}
use trig_emit_kafka.Udf.Send.{kafka_send, send_args, payload_of, send_to, ensure_topic, report_sent}
use trig_emit_kafka.Udf.Statement.{Statement, execute}
use trig_emit_kafka.Safety.Counting.{one_more}
use trig_emit_kafka.Safety.History.{asked}
use trig_emit_kafka.Safety.Functions.Accounting.{taken, target}
use trig_emit_kafka.Base.Bytes.{Str, codes, zstr, c_str}
use trig_emit_kafka.Machine.{Topic, World}
use trig_emit_kafka.Machine.Returns.{Returns}
use trig_emit_kafka.Base.Int.{to_int}
use trig_emit_kafka.Machine.{store_producer, store_topic, new_topic, new_producer}
use trig_emit_kafka.Engine.Delivery.{on_success, log_delivery_recovered, print_if, deliver, serve}
use trig_emit_kafka.Engine.Producer.{
  default_params, kafka_conf_set, set_defaults, producer_create, producer_run, start_thread,
  poll_producer,
}
use trig_emit_kafka.Engine.Topics.{
  topic_create, create_record, open_handle, answer, feed_round, feed_loop, topic_feed,
  topic_feed_key,
}
use trig_emit_kafka.Table.Slots.{grow, grown_capacity, check_slot}
use trig_emit_kafka.Table.Registry.{
  table_create, find_locked, find_index, create_new, insert_topic, reap_retired, reap, outq_busy,
  table_send,
}
use trig_emit_kafka.Table.Connection.{table_connect, build, apply_and_run, apply_params}
use trig_emit_kafka.Udf.Statement.{given}
use trig_emit_kafka.Udf.Stats.{kafka_stats, stats_text}
use trig_emit_kafka.Contract.{Call, perform}
use trig_emit_kafka.Safety.Lookup.{lookup_name, lookup_in, index_in}
use trig_emit_kafka.Safety.Holders.{registered, holders}
use trig_emit_kafka.Safety.Account.{queued_for}
use trig_emit_kafka.Safety.History.{History, counted_on, loaded, called, History-Counted}
use trig_emit_kafka.Safety.Functions.Texts.{whole}
use trig_emit_kafka.Safety.Functions.Counts.{kafka_stats-Counted}
use trig_emit_kafka.Examples.{small, small-Laws}
use trig_emit_kafka.Examples.States.{local_brokers, orders, after}

abbrev asked_world : Run ⦃E = small⦄ Answer → World ⦃E = small⦄
asked_world (ok _ w) = w
asked_world fault = start
asked_world blocked = start

abbrev ask_connect : Statement
ask_connect = Statement.connect (some local_brokers)

abbrev ask_hello : Statement
ask_hello = Statement.send 3 (some orders) (some (codes "hello"))

abbrev call_hello : Call
call_hello = Call.send 3 (some orders) (codes "hello")

-- After kafka_connect(), after kafka_send(), which creates the topic, and after kafka_table_send().
abbrev connected : World ⦃E = small⦄
connected = asked_world (execute ⦃E = small⦄ ask_connect start)

abbrev once : World ⦃E = small⦄
once = asked_world (execute ⦃E = small⦄ ask_hello connected)

abbrev twice : World ⦃E = small⦄
twice = after (perform ⦃E = small⦄ call_hello once)

abbrev sent_connected : Str → ℕ
sent_connected = counted_on ⦃E = small⦄ (taken (returned (pos 0)) none) connected (λ _. 0)

abbrev sent_once : Str → ℕ
sent_once = counted_on ⦃E = small⦄ (taken (returned (pos 5)) (target ask_hello)) once sent_connected

abbrev sent_twice : Str → ℕ
sent_twice = counted_on ⦃E = small⦄ (one_more call_hello true) twice sent_once

connected-History : History ⦃E = small⦄ connected sent_connected
unfolding execute kafka_connect connect_arg connect_to copy_arg arg c_str table_connect build
    apply_and_run apply_params producer_create producer_run start_thread set_defaults default_params
    kafka_conf_set store_producer new_producer zstr
connected-History = asked loaded ask_connect (returned (pos 0)) refl refl

once-History : History ⦃E = small⦄ once sent_once
unfolding execute kafka_connect connect_arg connect_to copy_arg arg c_str table_connect build
    apply_and_run apply_params producer_create producer_run start_thread set_defaults default_params
    kafka_conf_set store_producer new_producer zstr kafka_send send_args payload_of send_to
    ensure_topic report_sent table_exists table_create find_locked find_index create_new
    insert_topic reap_retired reap outq_busy topic_create create_record open_handle grow
    grown_capacity check_slot store_topic new_topic table_send topic_feed topic_feed_key feed_loop
    feed_round answer poll_producer serve deliver on_success log_delivery_recovered print_if to_int
once-History = asked connected-History ask_hello (returned (pos 5)) refl refl

twice-History : History ⦃E = small⦄ twice sent_twice
unfolding execute kafka_connect connect_arg connect_to copy_arg arg c_str table_connect build
    apply_and_run apply_params producer_create producer_run start_thread set_defaults default_params
    kafka_conf_set store_producer new_producer zstr kafka_send send_args payload_of send_to
    ensure_topic report_sent table_exists table_create find_locked find_index create_new
    insert_topic reap_retired reap outq_busy topic_create create_record open_handle grow
    grown_capacity check_slot store_topic new_topic table_send topic_feed topic_feed_key feed_loop
    feed_round answer poll_producer serve deliver on_success log_delivery_recovered print_if to_int
    perform
twice-History = called once-History call_hello true refl refl

orders_at : lookup_name ⦃E = small⦄ twice.heap (some orders) twice.kt.topics ≡ some 1
unfolding execute kafka_connect connect_arg connect_to copy_arg arg c_str table_connect build
    apply_and_run apply_params producer_create producer_run start_thread set_defaults default_params
    kafka_conf_set store_producer new_producer zstr kafka_send send_args payload_of send_to
    ensure_topic report_sent table_exists table_create find_locked find_index create_new
    insert_topic reap_retired reap outq_busy topic_create create_record open_handle grow
    grown_capacity check_slot store_topic new_topic table_send topic_feed topic_feed_key feed_loop
    feed_round answer poll_producer serve deliver on_success log_delivery_recovered print_if to_int
    perform lookup_in index_in
orders_at = refl

-- Both are counted.
sent_two : sent_twice orders ≡ 2
unfolding execute kafka_connect connect_arg connect_to copy_arg arg c_str table_connect build
    apply_and_run apply_params producer_create producer_run start_thread set_defaults default_params
    kafka_conf_set store_producer new_producer zstr kafka_send send_args payload_of send_to
    ensure_topic report_sent table_exists table_create find_locked find_index create_new
    insert_topic reap_retired reap outq_busy topic_create create_record open_handle grow
    grown_capacity check_slot store_topic new_topic table_send topic_feed topic_feed_key feed_loop
    feed_round answer poll_producer serve deliver on_success log_delivery_recovered print_if to_int
    perform registered holders
sent_two = refl

History-Counted_example :
    (topic : Topic ⦃E = small⦄) × (twice.heap 1 ≡ some topic)
    × ((topic.transferred
            + topic.failed
            + queued_for ⦃E = small⦄ twice.producers twice.kt.producer 1)
          % 2 ^ 32
        ≡ sent_twice orders % 2 ^ 32)
History-Counted_example =
    History-Counted ⦃E = small⦄ small-Laws twice sent_twice orders 1 twice-History orders_at

kafka_stats-Counted_example :
    Returns ⦃E = small⦄
      (λ t v.
        (counts : ℕ × ℕ) × (t ≡ whole (stats_text counts.0 counts.1))
        × ((counts.0 + counts.1 + queued_for ⦃E = small⦄ v.producers v.kt.producer 1) % 2 ^ 32
            ≡ sent_twice orders % 2 ^ 32))
      (kafka_stats ⦃E = small⦄ (given (some orders) ∷ []) twice)
unfolding c_str
kafka_stats-Counted_example =
    kafka_stats-Counted ⦃E = small⦄ small-Laws twice sent_twice (some orders) 1 twice-History
      orders_at

-- Two threads in kafka_table_send() and one in kafka_topic_get_stats(), step by step in turns, with a
-- round of the poll thread between.
abbrev three_readers : List Reader
three_readers =
    Reader.send_called (some orders) (codes "a")
    ∷ Reader.send_called (some orders) (codes "b")
    ∷ Reader.stats_called (some orders)
    ∷ []

abbrev in_turns : List (Option ℕ)
in_turns = some 0 ∷ some 1 ∷ some 2 ∷ some 1 ∷ none ∷ some 2 ∷ some 0 ∷ some 2 ∷ []

abbrev readers_after : Run ⦃E = small⦄ (List Reader) → List Reader
readers_after (ok readers _) = readers
readers_after fault = []
readers_after blocked = []

-- Both messages are sent; the counters are read between them.
three_ended :
    readers_after (share ⦃E = small⦄ in_turns three_readers subscribed)
    ≡ Reader.send_ended (some 1) true
      ∷ Reader.send_ended (some 1) true
      ∷ Reader.stats_ended 1 0
      ∷ []
unfolding perform table_connect build apply_and_run apply_params producer_create producer_run
    start_thread set_defaults default_params kafka_conf_set store_producer new_producer zstr
    table_create find_locked find_index create_new insert_topic reap_retired reap outq_busy
    topic_create create_record open_handle grow grown_capacity check_slot store_topic new_topic
    feed_round answer poll_producer serve deliver on_success log_delivery_recovered print_if share
    turn advance_at advance start_feeding start_stats table_round poll_round producer_round
    producer_flush flush_rk message_key
three_ended = refl

share-Shares_example :
    Returns ⦃E = small⦄
      (Shares ⦃E = small⦄ subscribed three_readers)
      (share ⦃E = small⦄ in_turns three_readers subscribed)
share-Shares_example =
    share-Shares ⦃E = small⦄ small-Laws in_turns three_readers subscribed subscribed-Sane.inv
      (tt, (tt, (tt, tt)))
