-- ===== src/Safety/Promises/Connections.antt =====
-- Connecting, disconnecting and unloading keep what kafka-table.h promises.
use trig_emit_kafka.Base.{
  ℕ, ◌≡◌, refl, sym, ◌∙◌, ap, true, false, none, some, arith, inl, inr, Bool-cases, Option-cases,
  is_some,
}
use trig_emit_kafka.Base.Bytes.{Str, codes, snprintf, zstr}
use trig_emit_kafka.Env.{Env, Laws}
use trig_emit_kafka.Machine.{World, Tables, ok}
use trig_emit_kafka.Machine.Returns
use trig_emit_kafka.Machine.Returns.{Returns, returns, Safe, done, waits}
use trig_emit_kafka.Engine.Producer.{Status, success, error}
use trig_emit_kafka.Table.Params.Bindings.{get_param, entries}
use trig_emit_kafka.Table.Connection.{table_connect}
use trig_emit_kafka.Contract.{Call, succeeded}
use trig_emit_kafka.Safety.Teardown.{Emptied}
use trig_emit_kafka.Safety.Connecting.{table_connect-Connects}
use trig_emit_kafka.Safety.Attaching.{Connects}
use trig_emit_kafka.Safety.Unloading.{ShutDown}
use trig_emit_kafka.Safety.Promises.Views.{
  Sane, Keeps, Still-Same, Still-refl, no_holders, no_topics,
}
use trig_emit_kafka.Safety.Promises.Params.{is_none}

module _ ⦃E : Env⦄ where
  pub connect-Connects :
      (w v : World) (brokers : Str) (n : ℕ) (st : Status)
      → Sane w
      → w.kt.producer ≡ none
      → Connects w brokers st v
      → Keeps (Call.connect brokers n) w (succeeded st) v
  connect-Connects w v brokers n success s idle a =
      let empty = no_topics v (ap (λ (kt : Tables). kt.topics) a.kt ∙ (s.inv.idle idle).0) in
      (
        record {
          inv = a.inv;
          distinct = λ name. rw (ap (λ (kt : Tables). kt.params) a.kt) (s.distinct name);
          unique = empty.0;
        },
        (
          is_none w.kt.producer idle,
          ap (λ (kt : Tables). is_some kt.producer) a.kt,
          (λ name. ap (λ (kt : Tables). get_param name kt.params) a.kt),
          empty.1,
        ),
      )
  connect-Connects w v brokers n (error _) s idle (i, same, _, _) = Still-Same w v s (record {
    inv = i;
    producer = ap (λ (kt : Tables). kt.producer) same;
    params = ap (λ (kt : Tables). kt.params) same;
    names = λ name.
        let none_before = (s.inv.idle idle).0 in
        no_holders v name (ap (λ (kt : Tables). kt.topics) same ∙ none_before)
        ∙ sym (no_holders w name none_before);
  })

  pub table_connect-empty :
      (w : World) (brokers : Str) (n : ℕ)
      → zstr (some brokers) ≡ true
      → table_connect brokers n w
        ≡ ok (error (some (snprintf n (codes "Broker list must not be empty")))) w
  unfolding table_connect
  table_connect-empty w brokers n empty = rw empty refl

  pub table_connect-busy :
      (w : World) (brokers : Str) (n : ℕ)
      → is_some w.kt.producer ≡ true
      → zstr (some brokers) ≡ false
      → table_connect brokers n w
        ≡ ok
            (error (some (snprintf n (codes "Already connected: call kafka_disconnect() first"))))
            w
  unfolding table_connect
  table_connect-busy w brokers n busy filled = rw (filled, busy) refl

  pub connect-Keeps :
      (L : Laws) (w : World) (brokers : Str) (n : ℕ)
      → Sane w
      → Returns
          (λ st v. Keeps (Call.connect brokers n) w (succeeded st) v)
          (table_connect brokers n w)
  connect-Keeps L w brokers n s = elim (Option-cases w.kt.producer) [
    | inl idle ↦
        Returns.mono (table_connect-Connects L w brokers n s.inv idle)
          λ st v c. connect-Connects w v brokers n st s idle c
    | inr (p, at) ↦ elim (Bool-cases (zstr (some brokers))) [
      | inl empty ↦
          rw (table_connect-empty w brokers n empty)
            (returns {a = error _} (Still-Same w w s (Still-refl w s)))
      | inr filled ↦
          rw (table_connect-busy w brokers n (ap is_some at) filled)
            (returns {a = error _} (Still-Same w w s (Still-refl w s)))
    ]
  ]

  pub disconnect-Keeps : (w v : World) → Sane w → Emptied w v → Keeps Call.disconnect w true v
  disconnect-Keeps w v s m =
      let empty = no_topics v (ap (λ (kt : Tables). kt.topics) m.kt) in
      (
        record {
          inv = m.inv;
          distinct = λ name. rw (ap (λ (kt : Tables). kt.params) m.kt) (s.distinct name);
          unique = empty.0;
        },
        (
          refl,
          ap (λ (kt : Tables). is_some kt.producer) m.kt,
          (λ name. ap (λ (kt : Tables). get_param name kt.params) m.kt),
          empty.1,
        ),
      )

  pub unload-Keeps : (w v : World) → Sane w → ShutDown w v → Keeps Call.unload w true v
  unfolding entries get_param
  unload-Keeps w v s x =
      let empty = no_topics v (ap (λ (kt : Tables). kt.topics) x.kt) in
      (
        record {
          inv = x.inv;
          distinct = λ name. rw (ap (λ (kt : Tables). kt.params) x.kt) (omega arith);
          unique = empty.0;
        },
        (
          ap (λ (kt : Tables). is_some kt.producer) x.kt,
          (λ name. ap (λ (kt : Tables). get_param name kt.params) x.kt),
          empty.1,
        ),
      )
