-- ===== src/Safety/Functions/Keeping.antt =====
-- The SQL functions that send nothing keep the messages of the topics that are left.
use trig_emit_kafka.Base.{
  ◌+◌, ◌<◌, refl, none, some, [], ◌∷◌, arith, inl, inr, Bool-cases, ltb, length,
}
use trig_emit_kafka.Base.Bytes.{Str, c_str}
use trig_emit_kafka.Env.{Env, Laws}
use trig_emit_kafka.Machine.{World}
use trig_emit_kafka.Machine.Log.{
  invalid_topic_length, invalid_brokers, invalid_property_name_length,
}
use trig_emit_kafka.Machine.Args.{
  returned, failed, arg, max_topic_len, max_setup_var_len, errbuf_len,
}
use trig_emit_kafka.Machine.Returns
use trig_emit_kafka.Machine.Returns.{Returns, returns, Safe, done}
use trig_emit_kafka.Safety.Holders.{registered}
use trig_emit_kafka.Safety.Teardown.{table_dismiss_all-Emptied}
use trig_emit_kafka.Safety.Parameters.{set_param-ParamSet}
use trig_emit_kafka.Safety.Unsetting.{unset_param-ParamUnset}
use trig_emit_kafka.Safety.Counting.{Kept, no_topics-Kept}
use trig_emit_kafka.Safety.Accounting.{set-Kept, unset-Kept, table_connect-Kept, table_dismiss-Kept}
use trig_emit_kafka.Safety.Promises.Views.{Sane}
use trig_emit_kafka.Safety.Promises.Connections.{disconnect-Keeps}
use trig_emit_kafka.Safety.Setting.{Status-cases}
use trig_emit_kafka.Udf.Connect.{kafka_connect, connect_arg, connect_to}
use trig_emit_kafka.Udf.Disconnect.{kafka_disconnect, disconnect_arg, disconnect_topic}
use trig_emit_kafka.Udf.Param.{
  kafka_connection_param, param_args, change_param, forget_param, store_value,
}
use trig_emit_kafka.Udf.Statement.{Value, given}
use trig_emit_kafka.Safety.Functions.Arguments.{length_checked, copy_arg-c_str}

module _ ⦃E : Env⦄ where
  connect_to-Kept :
      (L : Laws) (w : World) (brokers : Str)
      → Sane w
      → Returns (λ _ v. Kept w v) (connect_to brokers w)
  unfolding connect_to registered
  connect_to-Kept L w brokers s =
      Returns.bind (table_connect-Kept L w brokers errbuf_len s) λ st v k. elim (Status-cases st) [
        | inl connected ↦ rw connected (returns {a = returned _} k)
        | inr (message, refused) ↦ rw refused (returns {a = failed} k)
      ]

  pub kafka_connect-Kept :
      (L : Laws) (w : World) (brokers : Value)
      → Sane w
      → Returns (λ _ v. Kept w v) (kafka_connect (given brokers ∷ []) w)
  unfolding kafka_connect arg connect_arg
  kafka_connect-Kept L w none s = returns {a = failed} (λ topic h. refl)
  kafka_connect-Kept L w (some bytes) s =
      length_checked Returns (λ P a v p. returns p) max_setup_var_len bytes invalid_brokers
        connect_to (λ _ v. Kept w v) w (λ bad topic h. refl)
        (λ good. connect_to-Kept L w (c_str bytes) s)

  pub kafka_disconnect-Kept :
      (L : Laws) (w : World) (topic : Value)
      → Sane w
      → Returns (λ _ v. Kept w v) (kafka_disconnect (given topic ∷ []) w)
  unfolding kafka_disconnect arg disconnect_arg disconnect_topic
  kafka_disconnect-Kept L w none s = returns {a = failed} (λ topic h. refl)
  kafka_disconnect-Kept L w (some bytes) s =
      length_checked Returns (λ P a v p. returns p) max_topic_len bytes
        (invalid_topic_length (length bytes)) disconnect_topic (λ _ v. Kept w v) w
        (λ bad topic h. refl)
        (λ good. Returns.bind (table_dismiss-Kept L w (c_str bytes) s) λ b v k.
          elim (Bool-cases b) [
            | inl there ↦ rw there (returns k)
            | inr missing ↦ rw missing (returns k)
          ])

  pub disconnect_all-Kept :
      (L : Laws) (w : World) → Sane w → Returns (λ _ v. Kept w v) (kafka_disconnect [] w)
  unfolding kafka_disconnect
  disconnect_all-Kept L w s = Returns.bind (table_dismiss_all-Emptied L w s.inv) λ _ v m.
      let (_, (_, _, _, left)) = disconnect-Keeps w v s m in returns (no_topics-Kept w v left)

  change_param-Kept :
      (w : World) (name : Str) (value : Value)
      → Sane w
      → Returns (λ _ v. Kept w v) (change_param name (given value).bytes (given value).len w)
  unfolding change_param forget_param store_value registered
  change_param-Kept w name none s = Returns.bind (unset_param-ParamUnset w name s.inv) λ b v x.
      let k = unset-Kept w v name b x in
      elim (Bool-cases b) [
        | inl forgotten ↦ rw forgotten (returns k)
        | inr unknown ↦ rw unknown (returns {a = failed} k)
      ]
  change_param-Kept w name (some bytes) s =
      elim (Bool-cases (ltb max_setup_var_len (length bytes))) [
        | inl long ↦ rw long (returns {a = failed} (λ topic h. refl))
        | inr short ↦
            let fits : length bytes < max_setup_var_len + 1 = ground (arith, short) in
            rw (short, copy_arg-c_str (max_setup_var_len + 1) bytes w fits)
              (Returns.bind (set_param-ParamSet w name (c_str bytes) errbuf_len s.inv) λ st v x.
                let k = set-Kept w v name (c_str bytes) st x in
                elim (Status-cases st) [
                  | inl stored ↦ rw stored (returns k)
                  | inr (message, refused) ↦ rw refused (returns {a = failed} k)
                ])
      ]

  pub kafka_connection_param-Kept :
      (w : World) (name value : Value)
      → Sane w
      → Returns (λ _ v. Kept w v) (kafka_connection_param (given name ∷ given value ∷ []) w)
  unfolding kafka_connection_param arg param_args
  kafka_connection_param-Kept w none value s = returns {a = failed} (λ topic h. refl)
  kafka_connection_param-Kept w (some bytes) value s =
      length_checked Returns (λ P a v p. returns p) max_setup_var_len bytes
        invalid_property_name_length
        (λ name. change_param name (given value).bytes (given value).len) (λ _ v. Kept w v) w
        (λ bad topic h. refl) (λ good. change_param-Kept w (c_str bytes) value s)
