-- ===== src/Safety/Functions/Creating.antt =====
-- kafka_send() to a topic that is not registered yet.
use trig_emit_kafka.Base.{
  ◌≡◌, refl, ◌∙◌, ap, Bool, true, false, some, List, ◌⊎◌, inl, inr, ℕ, [], ◌∷◌, ◌||◌, ◌==◌, ltb,
  length, if◌then◌else◌,
}
use trig_emit_kafka.Base.Bytes.{Str, c_str, str_eq, str_eq_iff}
use trig_emit_kafka.Base.Int.{ℤ, pos, negsuc, to_int}
use trig_emit_kafka.Env.{Env, Laws}
use trig_emit_kafka.Machine.{World, ok, pure, print, ◌>>◌, ◌>>=◌}
use trig_emit_kafka.Machine.Log.{invalid_topic_length, cannot_initialize_topic}
use trig_emit_kafka.Machine.Args.{returned, failed, Answer, arg, max_topic_len}
use trig_emit_kafka.Machine.Returns
use trig_emit_kafka.Machine.Returns.{Safe, done, Returns, returns}
use trig_emit_kafka.Table.Registry.{table_create, table_send}
use trig_emit_kafka.Safety.Holders.{registered}
use trig_emit_kafka.Safety.Calls.{Sent, table_send-Fed, table_exists-lookup}
use trig_emit_kafka.Safety.Creation.{table_create-Ready}
use trig_emit_kafka.Safety.Promises.Views.{Sane, Fed-Same}
use trig_emit_kafka.Safety.Promises.Topics.{has-lookup, create-Keeps}
use trig_emit_kafka.Udf.Send.{kafka_send, send_args, send_to, report_sent, ensure_topic, payload_of}
use trig_emit_kafka.Udf.Statement.{given}
use trig_emit_kafka.Safety.Functions.Arguments.{length_checked}
use trig_emit_kafka.Safety.Functions.Sending.{payload_of-all}

module _ ⦃E : Env⦄ where
  -- What kafka_send() leaves behind kafka_table_create(): the topic is registered if that succeeded, and
  -- then the answer is that of the message; if not, the answer is an error.
  abbrev pub Follows : Bool → Str → List ℕ → Answer → World → Type 0
  Follows true topic payload a u =
      (registered u topic ≡ true) × ((a ≡ returned (to_int (length payload))) ⊎ (a ≡ failed))
  Follows false topic payload a u = (registered u topic ≡ false) × (a ≡ failed)

  abbrev pub Creates : World → Str → List ℕ → Answer → World → Type 0
  Creates w topic payload a u =
      (b : Bool) × (v : World) × (table_create (some topic) w ≡ ok b v)
      × Follows b topic payload a u

  report_sent-Follows :
      (u : World) (topic : Str) (payload : List ℕ) (found : Bool) (r : ℤ)
      → registered u topic ≡ true
      → Sent found payload r
      → Returns (Follows true topic payload) (report_sent r u)
  unfolding report_sent registered
  report_sent-Follows u topic payload found (pos n) here (inl e) = absurd (cc)
  report_sent-Follows u topic payload found (pos n) here (inr (e, _)) =
      returns (here, inl (ap returned e))
  report_sent-Follows u topic payload found (negsuc n) here sent =
      returns {a = failed} (here, inr refl)

  after_create :
      (L : Laws) (fuel : ℕ) (b : Bool) (v : World) (topic : Str) (payload : List ℕ)
      → Sane v
      → registered v topic ≡ b
      → Safe (Follows b topic payload) (
          (if b
              then (table_send fuel (some topic) payload >>= report_sent)
              else (print cannot_initialize_topic >> pure failed))
            v)
  unfolding registered
  after_create L fuel true v topic payload s here =
      Returns.Safe-bind (table_send-Fed L fuel v (some topic) payload s.inv) λ r u x.
        let (_, (_, _, same)) = Fed-Same v u s x.fed in
        Returns.Returns-Safe (report_sent-Follows u topic payload _ r (same topic ∙ here) x.sent)
  after_create L fuel false v topic payload s here = done {a = failed} (here, refl)

  send_to-Creates :
      (L : Laws) (fuel : ℕ) (w : World) (topic : Str) (payload : List ℕ)
      → Sane w
      → registered w topic ≡ false
      → Safe (Creates w topic payload) (send_to fuel topic payload w)
  unfolding send_to ensure_topic
  send_to-Creates L fuel w topic payload s new =
      let (b, v, run, r) = Returns.Returns-ok (table_create-Ready L w (some topic) s.inv) in
      let (k, (_, _, topics, _, _)) = create-Keeps w v (some topic) b s r in
      let self : str_eq topic topic ≡ true = (str_eq_iff topic topic).1 refl in
      let here : registered v topic ≡ b = topics topic ∙ (rw self refl) in
      rw (table_exists-lookup w (some topic) s.inv, has-lookup w (some topic), new, run)
        (Returns.Safe-mono (after_create L fuel b v topic payload k here) λ a u f. (b, v, run, f))

  -- kafka_send() creates a topic on demand. From a state that calls can lead to, for a topic whose name
  -- is neither empty nor too long and that is not registered, kafka_send() has no undefined behaviour;
  -- when it answers, it has called kafka_table_create() for the string before the first 0 of the
  -- argument in that state. If that succeeded, the topic is registered, and the answer is the length of
  -- the payload as an int or an error; if not, the topic is not registered, and the answer is an error.
  pub kafka_send-Creates :
      (L : Laws) (fuel : ℕ) (w : World) (bytes payload : List ℕ)
      → Sane w
      → ((length bytes == 0) || ltb max_topic_len (length bytes)) ≡ false
      → registered w (c_str bytes) ≡ false
      → Safe
          (Creates w (c_str bytes) payload)
          (kafka_send fuel (given (some bytes) ∷ given (some payload) ∷ []) w)
  unfolding kafka_send arg send_args
  kafka_send-Creates L fuel w bytes payload s fits new =
      length_checked Safe (λ P a v p. done p) max_topic_len bytes
        (invalid_topic_length (length bytes))
        (λ name. payload_of payload (length payload) >>= λ p. send_to fuel name p)
        (Creates w (c_str bytes) payload) w (λ bad. absurd (cc))
        (λ good.
          rw (payload_of-all payload w) (send_to-Creates L fuel w (c_str bytes) payload s new))
