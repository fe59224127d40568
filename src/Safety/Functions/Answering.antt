-- ===== src/Safety/Functions/Answering.antt =====
-- kafka_send() does not wait for ever.
use trig_emit_kafka.Base.{ℕ, ◌+◌, ◌*◌, ◌≤◌, ◌≡◌, refl, true, some, List, [], ◌∷◌, length}
use trig_emit_kafka.Base.Bytes.{Str, c_str}
use trig_emit_kafka.Env.{Env, Laws}
use trig_emit_kafka.Machine.{World, ok, ◌>>=◌}
use trig_emit_kafka.Machine.Log.{invalid_topic_length}
use trig_emit_kafka.Machine.Args.{arg, max_topic_len}
use trig_emit_kafka.Machine.Returns
use trig_emit_kafka.Machine.Returns.{Returns, returns}
use trig_emit_kafka.Safety.Holders.{registered}
use trig_emit_kafka.Safety.Calls.{table_exists-lookup}
use trig_emit_kafka.Safety.Responsive.{Progress, table_send-Returns}
use trig_emit_kafka.Safety.Promises.Views.{Sane, Fed-Same}
use trig_emit_kafka.Safety.Promises.Topics.{has-lookup}
use trig_emit_kafka.Udf.Send.{kafka_send, send_args, send_to, payload_of, ensure_topic}
use trig_emit_kafka.Udf.Statement.{Statement, Delivered, Promise, given}
use trig_emit_kafka.Safety.Functions.Arguments.{Promised, name_checked}
use trig_emit_kafka.Safety.Functions.Sending.{already, report_sent-Delivered, payload_of-all}

module _ ⦃E : Env⦄ where
  ensure_topic-there :
      (w : World) (topic : Str)
      → Sane w
      → registered w topic ≡ true
      → ensure_topic topic w ≡ ok true w
  unfolding ensure_topic
  ensure_topic-there w topic s here =
      rw (table_exists-lookup w (some topic) s.inv, has-lookup w (some topic), here) refl

  module _ (L : Laws) (g : Progress) (fuel : ℕ) (w : World) (p : ℕ) (payload : List ℕ) (s : Sane w)
      (e : w.kt.producer ≡ some p) where
    send_to-Returns :
        (topic : Str)
        → registered w topic ≡ true
        → (E.outq_len (s.inv.connected p e).rk + 1) * (g.patience + 1) ≤ fuel
        → Returns (Promised w (Delivered payload topic)) (send_to fuel topic payload w)
    unfolding send_to
    send_to-Returns topic here enough = rw (ensure_topic-there w topic s here) (
        Returns.bind (table_send-Returns L g fuel w p (some topic) payload s.inv e enough) λ r u x.
          let (k, same) = Fed-Same w u s x.fed in
          report_sent-Delivered w w u topic payload _ r (already w topic s here) k same x.sent)

    -- Against a librdkafka that reports each message in the end, and from a state that calls can lead to
    -- in which the topic is registered, kafka_send() of a payload answers. If no more than `patience`
    -- polls in a row come back without a report, patience + 1 turns of its loop for each message in the
    -- out queue, and as many once more, are enough. It keeps its promise then.
    pub kafka_send-Returns :
        (topic : List ℕ)
        → registered w (c_str topic) ≡ true
        → (E.outq_len (s.inv.connected p e).rk + 1) * (g.patience + 1) ≤ fuel
        → Returns
            (Promised w (Promise (Statement.send fuel (some topic) (some payload))))
            (kafka_send fuel (given (some topic) ∷ given (some payload) ∷ []) w)
    unfolding kafka_send arg send_args
    kafka_send-Returns topic here enough =
        name_checked Returns (λ P a v x. returns x) max_topic_len topic
          (invalid_topic_length (length topic))
          (λ name. payload_of payload (length payload) >>= λ counted. send_to fuel name counted)
          (Delivered payload) w s
          (rw (payload_of-all payload w) (send_to-Returns (c_str topic) here enough))
