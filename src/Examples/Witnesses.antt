-- ===== src/Examples/Witnesses.antt =====
-- The theorems on the table, applied to concrete states.
use trig_emit_kafka.Base.{◌≡◌, refl, sym, ◌∙◌, ap, some, [], ◌∷◌, arith, is_some, length}
use trig_emit_kafka.Base.Bytes.{codes, zstr}
use trig_emit_kafka.Safety.Polling.{with_rk}
use trig_emit_kafka.Machine.{update, World, ok}
use trig_emit_kafka.Engine.Topics.{zero_topic}
use trig_emit_kafka.Table.Registry.{table_create, reap_retired}
use trig_emit_kafka.Table.Connection.{table_connect}
use trig_emit_kafka.Machine.Returns.{Returns, Safe}
use trig_emit_kafka.Table.Registry.{table_dismiss}
use trig_emit_kafka.Safety.Invariant.{initial_world-Inv}
use trig_emit_kafka.Safety.Lookup.{index_in}
use trig_emit_kafka.Safety.Dismissing.{Dismissed, table_dismiss-Dismissed}
use trig_emit_kafka.Safety.Connecting.{table_connect-Connects}
use trig_emit_kafka.Safety.Attaching.{Connects}
use trig_emit_kafka.Safety.Sessions.{Reach-Safe, Reach-Contract}
use trig_emit_kafka.Contract.{Call, Contract, perform}
use trig_emit_kafka.Safety.Promises.Views.{Sane, view}
use trig_emit_kafka.Engine.Producer.{zero_producer}
use trig_emit_kafka.Table.Registry.{table_send, table_exists}
use trig_emit_kafka.Safety.Removal.{Keeps, reap_retired-Inv}
use trig_emit_kafka.Safety.Invariant.{Inv}
use trig_emit_kafka.Safety.Creation.{Ready, table_create-Ready}
use trig_emit_kafka.Safety.Calls.{Sends, table_send-Fed, table_exists-lookup}
use trig_emit_kafka.Safety.Lookup.{lookup_name}
use trig_emit_kafka.Safety.Responsive.{table_send-Returns}
use trig_emit_kafka.Examples.{small, small-Laws}
use trig_emit_kafka.Examples.States.{
  small_progress, subscribed-Reach, subscribed-Sane, online-Sane, empty_queue, producer_at,
  local_brokers, orders, start, online, subscribed, queue_of,
}

-- A message is sent to a topic that was created over a fresh connection.
Reach-Safe_example :
    Sane ⦃E = small⦄ subscribed
    × Safe ⦃E = small⦄
        (λ _ v. Sane ⦃E = small⦄ v)
        (perform ⦃E = small⦄ (Call.send 3 (some orders) (codes "hello")) subscribed)
Reach-Safe_example =
    Reach-Safe ⦃E = small⦄ small-Laws subscribed (Call.send 3 (some orders) (codes "hello"))
      subscribed-Reach

Reach-Contract_example :
    Safe ⦃E = small⦄
      (λ b v.
        Contract
          (Call.send 3 (some orders) (codes "hello"))
          (view ⦃E = small⦄ subscribed)
          b
          (view ⦃E = small⦄ v))
      (perform ⦃E = small⦄ (Call.send 3 (some orders) (codes "hello")) subscribed)
Reach-Contract_example =
    Reach-Contract ⦃E = small⦄ small-Laws subscribed (Call.send 3 (some orders) (codes "hello"))
      subscribed-Reach

table_connect-Connects_example :
    Returns ⦃E = small⦄
      (Connects ⦃E = small⦄ start local_brokers)
      (table_connect ⦃E = small⦄ local_brokers 512 start)
table_connect-Connects_example =
    table_connect-Connects ⦃E = small⦄ small-Laws start local_brokers 512
      (initial_world-Inv ⦃E = small⦄) refl

table_dismiss-Dismissed_example :
    Returns ⦃E = small⦄
      (λ done v.
        (done ≡ is_some (index_in ⦃E = small⦄ subscribed.heap orders subscribed.kt.topics))
        × Dismissed ⦃E = small⦄ subscribed
            (index_in ⦃E = small⦄ subscribed.heap orders subscribed.kt.topics)
            v)
      (table_dismiss ⦃E = small⦄ orders subscribed)
unfolding zstr
table_dismiss-Dismissed_example =
    table_dismiss-Dismissed ⦃E = small⦄ small-Laws subscribed orders subscribed-Sane.inv refl

reap_retired-Inv_example :
    Returns ⦃E = small⦄
      (λ _ v. Inv ⦃E = small⦄ v × Keeps ⦃E = small⦄ subscribed v)
      (reap_retired ⦃E = small⦄ subscribed)
reap_retired-Inv_example = reap_retired-Inv ⦃E = small⦄ small-Laws subscribed subscribed-Sane.inv

-- A running producer with two messages of one topic in its queue.
abbrev loaded_world : World ⦃E = small⦄
loaded_world = record start {
  heap = update start.heap 7 (some (record (zero_topic ⦃E = small⦄ 0) { name = orders }));
  producers =
      update start.producers 0
        (some (with_rk ⦃E = small⦄ (zero_producer ⦃E = small⦄) (7 ∷ 7 ∷ [])));
}

table_send-Fed_example :
    Safe ⦃E = small⦄
      (λ r v. Sends ⦃E = small⦄ subscribed (some orders) (codes "hello") r v)
      (table_send ⦃E = small⦄ 2 (some orders) (codes "hello") subscribed)
table_send-Fed_example =
    table_send-Fed ⦃E = small⦄ small-Laws 2 subscribed (some orders) (codes "hello")
      subscribed-Sane.inv

table_create-Ready_example :
    Returns ⦃E = small⦄
      (Ready ⦃E = small⦄ online (some orders))
      (table_create ⦃E = small⦄ (some orders) online)
table_create-Ready_example =
    table_create-Ready ⦃E = small⦄ small-Laws online (some orders) online-Sane.inv

table_exists-lookup_example :
    table_exists ⦃E = small⦄ (some orders) subscribed
    ≡ ok
        (is_some (lookup_name ⦃E = small⦄ subscribed.heap (some orders) subscribed.kt.topics))
        subscribed
table_exists-lookup_example =
    table_exists-lookup ⦃E = small⦄ subscribed (some orders) subscribed-Sane.inv

table_send-Returns_example :
    Returns ⦃E = small⦄
      (λ r v. Sends ⦃E = small⦄ subscribed (some orders) (codes "hello") r v)
      (table_send ⦃E = small⦄ 1 (some orders) (codes "hello") subscribed)
table_send-Returns_example =
    table_send-Returns ⦃E = small⦄ small-Laws small_progress 1 subscribed 0 (some orders)
      (codes "hello") subscribed-Sane.inv producer_at
      (omega (
        arith,
        ap length
            (sym (ap queue_of (subscribed-Sane.inv.connected 0 producer_at).runs.at) ∙ empty_queue),
      ))
