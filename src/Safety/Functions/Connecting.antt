-- ===== src/Safety/Functions/Connecting.antt =====
-- kafka_connect() and kafka_disconnect().
use trig_emit_kafka.Base.{refl, Bool, true, false, none, some, [], ◌∷◌, if◌then◌else◌, length}
use trig_emit_kafka.Base.Bytes.{Str, c_str}
use trig_emit_kafka.Base.Int.{pos}
use trig_emit_kafka.Env.{Env, Laws}
use trig_emit_kafka.Machine.{World, M, pure, print, ◌>>◌}
use trig_emit_kafka.Machine.Log.{
  null_argument, invalid_brokers, invalid_topic_length, connected_to, cannot_connect,
}
use trig_emit_kafka.Machine.Args.{
  returned, failed, Answer, arg, max_setup_var_len, max_topic_len, errbuf_len,
}
use trig_emit_kafka.Machine.Returns
use trig_emit_kafka.Machine.Returns.{Returns, returns}
use trig_emit_kafka.Engine.Producer.{Status, success, error}
use trig_emit_kafka.Contract.{Call, succeeded}
use trig_emit_kafka.Safety.Teardown.{table_dismiss_all-Emptied}
use trig_emit_kafka.Safety.Promises.Views.{Sane, Keeps}
use trig_emit_kafka.Safety.Promises.Connections.{connect-Keeps, disconnect-Keeps}
use trig_emit_kafka.Safety.Promises.Dismissals.{dismiss-Keeps}
use trig_emit_kafka.Udf.Connect.{kafka_connect, connect_arg, connect_to, errbuf_text}
use trig_emit_kafka.Udf.Disconnect.{kafka_disconnect, disconnect_arg, disconnect_topic}
use trig_emit_kafka.Udf.Statement.{Value, Statement, Reported, Promise, given}
use trig_emit_kafka.Safety.Functions.Arguments.{Promised, told, declined, name_checked}

module _ ⦃E : Env⦄ where
  -- What kafka_connect() makes of the status.
  connect_answered :
      (w v : World) (brokers : Str) (status : Status)
      → Keeps (Call.connect brokers errbuf_len) w (succeeded status) v
      → Returns (Promised w (Reported (Call.connect brokers errbuf_len) (pos 0))) (
          (elim status as (λ _. M Answer) [
            | error message ↦ print (cannot_connect (errbuf_text message)) >> pure failed
            | success ↦ print (connected_to brokers) >> pure (returned (pos 0))
          ])
            v)
  connect_answered w v brokers success (k, c) =
      returns {a = returned _}
        (told (Reported (Call.connect brokers errbuf_len) (pos 0)) _ w v _ (k, (true, refl, c)))
  connect_answered w v brokers (error _) (k, c) =
      returns {a = failed}
        (told (Reported (Call.connect brokers errbuf_len) (pos 0)) _ w v _ (k, (false, refl, c)))

  connect_to-Reported :
      (L : Laws) (w : World) (brokers : Str)
      → Sane w
      → Returns
          (Promised w (Reported (Call.connect brokers errbuf_len) (pos 0)))
          (connect_to brokers w)
  unfolding connect_to
  connect_to-Reported L w brokers s =
      Returns.bind (connect-Keeps L w brokers errbuf_len s)
        λ status v k. connect_answered w v brokers status k

  -- kafka_connect() on one argument, from a state that calls can lead to, always returns, to such a
  -- state. NULL, the empty string and one that is too long are answered by an error, and nothing that a
  -- session can tell changes. Otherwise it does what kafka_table_connect() promises for the string
  -- before the first 0 of the argument, and answers 0 exactly if that succeeds.
  pub kafka_connect-Promise :
      (L : Laws) (w : World) (brokers : Value)
      → Sane w
      → Returns
          (Promised w (Promise (Statement.connect brokers)))
          (kafka_connect (given brokers ∷ []) w)
  unfolding kafka_connect arg connect_arg
  kafka_connect-Promise L w none s = returns {a = failed} (declined w invalid_brokers s)
  kafka_connect-Promise L w (some bytes) s =
      name_checked Returns (λ P a v p. returns p) max_setup_var_len bytes invalid_brokers connect_to
        (λ b. Reported (Call.connect b errbuf_len) (pos 0)) w s
        (connect_to-Reported L w (c_str bytes) s)

  disconnect_topic-Reported :
      (L : Laws) (w : World) (topic : Str)
      → Sane w
      → Returns (Promised w (Reported (Call.dismiss topic) (pos 0))) (disconnect_topic topic w)
  unfolding disconnect_topic
  disconnect_topic-Reported L w topic s = Returns.bind (dismiss-Keeps L w topic s) answered
    where
      answered :
          (b : Bool) (v : World)
          → Keeps (Call.dismiss topic) w b v
          → Returns
              (Promised w (Reported (Call.dismiss topic) (pos 0)))
              ((if b then pure (returned (pos 0)) else pure failed) v)
      answered true v (k, c) = returns (k, (true, refl, c))
      answered false v (k, c) = returns (k, (false, refl, c))

  -- kafka_disconnect() on one argument, from a state that calls can lead to, always returns, to such a
  -- state. NULL, the empty string and one that is too long are answered by an error, and nothing that a
  -- session can tell changes. Otherwise the topic of the string before the first 0 of the argument is
  -- dismissed, and the answer is 0 exactly if it was registered.
  pub kafka_disconnect-Promise :
      (L : Laws) (w : World) (topic : Value)
      → Sane w
      → Returns
          (Promised w (Promise (Statement.disconnect topic)))
          (kafka_disconnect (given topic ∷ []) w)
  unfolding kafka_disconnect arg disconnect_arg
  kafka_disconnect-Promise L w none s = returns {a = failed} (declined w null_argument s)
  kafka_disconnect-Promise L w (some bytes) s =
      name_checked Returns (λ P a v p. returns p) max_topic_len bytes
        (invalid_topic_length (length bytes)) disconnect_topic
        (λ name. Reported (Call.dismiss name) (pos 0)) w s
        (disconnect_topic-Reported L w (c_str bytes) s)

  -- Without an argument it answers 0, and leaves neither a connection nor a topic.
  pub disconnect_all-Promise :
      (L : Laws) (w : World)
      → Sane w
      → Returns (Promised w (Promise Statement.disconnect_all)) (kafka_disconnect [] w)
  unfolding kafka_disconnect
  disconnect_all-Promise L w s =
      Returns.bind (table_dismiss_all-Emptied L w s.inv)
        λ _ v m. let (k, c) = disconnect-Keeps w v s m in returns (k, (true, refl, c))
