-- ===== src/Examples/Functions.antt =====
-- The theorems on the SQL functions, applied to concrete states.
use trig_emit_kafka.Base.{
  ℕ, ◌≡◌, refl, sym, ◌∙◌, ap, false, ◌&&◌, some, [], ◌∷◌, ◌++◌, arith, is_some, length,
}
use trig_emit_kafka.Base.Bytes.{codes, c_str}
use trig_emit_kafka.Machine.{ok}
use trig_emit_kafka.Machine.Args.{string_result}
use trig_emit_kafka.Machine.Returns.{Returns, Safe}
use trig_emit_kafka.Contract.{Same}
use trig_emit_kafka.Table.Registry.{table_get_stats}
use trig_emit_kafka.Safety.Promises.Views.{Sane, view}
use trig_emit_kafka.Udf.Connect.{kafka_connect}
use trig_emit_kafka.Udf.Disconnect.{kafka_disconnect}
use trig_emit_kafka.Udf.Send.{kafka_send}
use trig_emit_kafka.Udf.Param.{kafka_connection_param_init}
use trig_emit_kafka.Udf.Stats.{kafka_stats, kafka_stats_init, stats_text}
use trig_emit_kafka.Udf.Info.{Text, UdfInit, kafka_info}
use trig_emit_kafka.Udf.Reading.{read_stats, read_stats-stats_text}
use trig_emit_kafka.Udf.Statement.{Value, Statement, execute, Promise, given}
use trig_emit_kafka.Safety.Functions.Arguments.{Promised}
use trig_emit_kafka.Safety.Functions.Connecting.{kafka_connect-Promise, kafka_disconnect-Promise}
use trig_emit_kafka.Safety.Functions.Creating.{Creates, kafka_send-Creates}
use trig_emit_kafka.Safety.Functions.Answering.{kafka_send-Returns}
use trig_emit_kafka.Contract.{Call}
use trig_emit_kafka.Udf.Among.{send_among}
use trig_emit_kafka.Safety.Functions.Interleaved.{Accepted, send_among-Accepted}
use trig_emit_kafka.Safety.Functions.Served.{loaded, Served-Promise}
use trig_emit_kafka.Safety.Functions.Inits.{Decides, known, stats_init-Decides}
use trig_emit_kafka.Safety.Functions.Checks.{Checks, acceptable, param_init-Checks}
use trig_emit_kafka.Safety.Functions.Texts.{whole, kafka_stats-text, kafka_info-hides}
use trig_emit_kafka.Examples.{small, small-Laws}
use trig_emit_kafka.Examples.States.{
  start, online, subscribed, online-Sane, subscribed-Sane, local_brokers, orders, producer_at,
  empty_queue, queue_of, small_progress, orders-registered, orders-unknown,
}
use trig_emit_kafka.Examples.Parameters.{holding, held-Alike, holding-Inv, held-Alike}

-- A name with a 0 in it.
abbrev cut_name : Value
cut_name = some (codes "acks" ++ 0 ∷ codes "x")

Served-Promise_example :
    Safe ⦃E = small⦄
      (Promised ⦃E = small⦄ start (Promise (Statement.connect (some local_brokers))))
      (execute ⦃E = small⦄ (Statement.connect (some local_brokers)) start)
Served-Promise_example =
    Served-Promise ⦃E = small⦄ small-Laws start (Statement.connect (some local_brokers)) loaded

kafka_connect-Promise_example :
    Returns ⦃E = small⦄
      (Promised ⦃E = small⦄ online (Promise (Statement.connect (some local_brokers))))
      (kafka_connect ⦃E = small⦄ (given (some local_brokers) ∷ []) online)
kafka_connect-Promise_example =
    kafka_connect-Promise ⦃E = small⦄ small-Laws online (some local_brokers) online-Sane

kafka_disconnect-Promise_example :
    Returns ⦃E = small⦄
      (Promised ⦃E = small⦄ subscribed (Promise (Statement.disconnect (some orders))))
      (kafka_disconnect ⦃E = small⦄ (given (some orders) ∷ []) subscribed)
kafka_disconnect-Promise_example =
    kafka_disconnect-Promise ⦃E = small⦄ small-Laws subscribed (some orders) subscribed-Sane

kafka_send-Creates_example :
    Safe ⦃E = small⦄
      (Creates ⦃E = small⦄ online orders (codes "hello"))
      (kafka_send ⦃E = small⦄ 2 (given (some orders) ∷ given (some (codes "hello")) ∷ []) online)
unfolding c_str
kafka_send-Creates_example =
    kafka_send-Creates ⦃E = small⦄ small-Laws 2 online orders (codes "hello") online-Sane refl
      orders-unknown

stats_init-Decides_example :
    Returns ⦃E = small⦄
      (Decides ⦃E = small⦄ subscribed
        (given (some orders) ∷ [])
        (is_some subscribed.kt.producer && known ⦃E = small⦄ subscribed (some orders)))
      (kafka_stats_init ⦃E = small⦄ (given (some orders) ∷ []) subscribed)
stats_init-Decides_example =
    stats_init-Decides ⦃E = small⦄ subscribed string_result (some orders) subscribed-Sane

param_init-Checks_example :
    Returns ⦃E = small⦄
      (Checks ⦃E = small⦄ start (acceptable ⦃E = small⦄ cut_name (some (codes "1"))))
      (kafka_connection_param_init ⦃E = small⦄
        (given cut_name ∷ given (some (codes "1")) ∷ [])
        start)
param_init-Checks_example = param_init-Checks ⦃E = small⦄ start cut_name (some (codes "1"))

read_stats-stats_text_example : read_stats (stats_text 4294967295 10) ≡ (4294967295, 10)
read_stats-stats_text_example = read_stats-stats_text 4294967295 10 (omega arith) (omega arith)

kafka_stats-text_example :
    Returns ⦃E = small⦄
      (λ t v.
        (Sane ⦃E = small⦄ v × Same (view ⦃E = small⦄ subscribed) (view ⦃E = small⦄ v))
        × ((counts : ℕ × ℕ) × (table_get_stats ⦃E = small⦄ (some orders) subscribed ≡ ok counts v)
            × (t ≡ whole (stats_text counts.0 counts.1))))
      (kafka_stats ⦃E = small⦄ (given (some orders) ∷ []) subscribed)
unfolding c_str
kafka_stats-text_example =
    kafka_stats-text ⦃E = small⦄ small-Laws subscribed (some orders) subscribed-Sane

-- What an accepted kafka_info_init() leaves.
abbrev info_init : UdfInit
info_init = record { ptr = some []; max_length = 1024; maybe_null = false; const_item = false }

kafka_info-hides_example :
    (t : Text) × (kafka_info ⦃E = small⦄ (codes "abc") info_init (holding (codes "pw"))
      ≡ ok t (holding (codes "pw")))
    × (kafka_info ⦃E = small⦄ (codes "abc") info_init (holding (codes "other"))
        ≡ ok t (holding (codes "other")))
kafka_info-hides_example =
    kafka_info-hides ⦃E = small⦄ (holding (codes "pw")) (holding (codes "other")) (codes "abc")
      info_init [] (holding-Inv (codes "pw")) (holding-Inv (codes "other")) refl refl
      (held-Alike (codes "pw") (codes "other"))

kafka_send-Returns_example :
    Returns ⦃E = small⦄
      (Promised ⦃E = small⦄ subscribed
        (Promise (Statement.send 1 (some orders) (some (codes "hello")))))
      (kafka_send ⦃E = small⦄ 1
        (given (some orders) ∷ given (some (codes "hello")) ∷ [])
        subscribed)
kafka_send-Returns_example =
    kafka_send-Returns ⦃E = small⦄ small-Laws small_progress 1 subscribed 0 (codes "hello")
      subscribed-Sane producer_at orders orders-registered
      (omega (
        arith,
        ap length
            (sym (ap queue_of (subscribed-Sane.inv.connected 0 producer_at).runs.at) ∙ empty_queue),
      ))

-- Another session disconnects before the message is sent.
send_among-Accepted_example :
    Safe ⦃E = small⦄
      (λ a v. Sane ⦃E = small⦄ v × Accepted ⦃E = small⦄ orders (codes "hello") a v)
      (send_among ⦃E = small⦄
        (Call.round 0 ∷ [])
        (Call.disconnect ∷ [])
        2
        orders
        (codes "hello")
        online)
send_among-Accepted_example =
    send_among-Accepted ⦃E = small⦄ small-Laws (Call.round 0 ∷ []) (Call.disconnect ∷ []) 2 online
      orders (codes "hello") online-Sane
