-- ===== src/Examples/States.antt =====
-- Concrete states: a connection, and a topic that was created over it.
use trig_emit_kafka.Base.{false, arith, inl, ℕ, ◌≡◌, refl, Bool, true, Option, none, some, List, []}
use trig_emit_kafka.Base.Bytes.{Str, codes, zstr}
use trig_emit_kafka.Machine.{
  Producer, World, Run, ok, fault, blocked, store_producer, store_topic, new_topic, new_producer,
}
use trig_emit_kafka.Engine.Producer.{
  default_params, kafka_conf_set, set_defaults, producer_create, producer_run, start_thread,
}
use trig_emit_kafka.Engine.Topics.{topic_create, create_record, open_handle}
use trig_emit_kafka.Table.Slots.{grow, grown_capacity, check_slot}
use trig_emit_kafka.Table.Registry.{
  table_create, find_locked, find_index, create_new, insert_topic, reap_retired, reap, outq_busy,
}
use trig_emit_kafka.Table.Connection.{table_connect, build, apply_and_run, apply_params}
use trig_emit_kafka.Safety.Invariant.{initial_world}
use trig_emit_kafka.Safety.Sessions.{Reach, loaded, called, Reach-Sane}
use trig_emit_kafka.Contract.{Call, perform}
use trig_emit_kafka.Safety.Promises.Views.{Sane}
use trig_emit_kafka.Safety.Responsive.{Progress}
use trig_emit_kafka.Safety.Holders.{registered, holders}
use trig_emit_kafka.Base.Bytes.{c_str}
use trig_emit_kafka.Examples.{poll_one-drains, produce_two-full, small, small-Laws}

abbrev pub local_brokers : Str
local_brokers = codes "localhost:9092"

abbrev pub orders : Str
orders = codes "orders"

module _ where
  abbrev pub start : World ⦃E = small⦄
  start = initial_world ⦃E = small⦄

  abbrev pub after : Run ⦃E = small⦄ Bool → World ⦃E = small⦄
  after (ok _ w) = w
  after fault = start
  after blocked = start

abbrev pub online : World ⦃E = small⦄
online = after (perform ⦃E = small⦄ (Call.connect local_brokers 512) start)

pub online-Reach : Reach ⦃E = small⦄ online
unfolding perform table_connect build apply_and_run apply_params producer_create producer_run
    start_thread set_defaults default_params kafka_conf_set store_producer new_producer zstr
online-Reach = called loaded (Call.connect local_brokers 512) true refl

abbrev pub subscribed : World ⦃E = small⦄
subscribed = after (perform ⦃E = small⦄ (Call.create (some orders)) online)

pub subscribed-Reach : Reach ⦃E = small⦄ subscribed
unfolding perform table_connect build apply_and_run apply_params producer_create producer_run
    start_thread set_defaults default_params kafka_conf_set store_producer new_producer zstr
    table_create find_locked find_index create_new insert_topic reap_retired reap outq_busy
    topic_create create_record open_handle grow grown_capacity check_slot store_topic new_topic
subscribed-Reach = called online-Reach (Call.create (some orders)) true refl

pub subscribed-Sane : Sane ⦃E = small⦄ subscribed
subscribed-Sane = Reach-Sane ⦃E = small⦄ small-Laws subscribed subscribed-Reach

pub online-Sane : Sane ⦃E = small⦄ online
online-Sane = Reach-Sane ⦃E = small⦄ small-Laws online online-Reach

abbrev pub queue_of : Option (Producer ⦃E = small⦄) → List ℕ
queue_of none = []
queue_of (some pr) = elim pr.rk [ none ↦ [] | some rk ↦ rk ]

pub empty_queue : queue_of (subscribed.producers 0) ≡ []
unfolding perform table_connect build apply_and_run apply_params producer_create producer_run
    start_thread set_defaults default_params kafka_conf_set store_producer new_producer zstr
    table_create find_locked find_index create_new insert_topic reap_retired reap outq_busy
    topic_create create_record open_handle grow grown_capacity check_slot store_topic new_topic
empty_queue = refl

pub producer_at : subscribed.kt.producer ≡ some 0
unfolding perform table_connect build apply_and_run apply_params producer_create producer_run
    start_thread set_defaults default_params kafka_conf_set store_producer new_producer zstr
    table_create find_locked find_index create_new insert_topic reap_retired reap outq_busy
    topic_create create_record open_handle grow grown_capacity check_slot store_topic new_topic
producer_at = refl

abbrev pub small_progress : Progress ⦃E = small⦄
small_progress = record {
  patience = 0;
  due = λ _. 0;
  patient = λ rk. omega arith;
  polled = λ n rk h. inl (poll_one-drains rk h);
  not_put_off = λ n rk h payload key a e. omega arith;
  full = λ n rk h payload key a e. produce_two-full rk a e;
}

pub orders-registered : registered ⦃E = small⦄ subscribed (c_str orders) ≡ true
unfolding perform table_connect build apply_and_run apply_params producer_create producer_run
    start_thread set_defaults default_params kafka_conf_set store_producer new_producer zstr
    table_create find_locked find_index create_new insert_topic reap_retired reap outq_busy
    topic_create create_record open_handle grow grown_capacity check_slot store_topic new_topic
    registered holders c_str
orders-registered = refl

pub orders-unknown : registered ⦃E = small⦄ online (c_str orders) ≡ false
unfolding perform table_connect build apply_and_run apply_params producer_create producer_run
    start_thread set_defaults default_params kafka_conf_set store_producer new_producer zstr
    registered holders c_str
orders-unknown = refl
