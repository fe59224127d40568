-- ===== src/Safety/Functions/Sending.antt =====
-- kafka_send().
use trig_emit_kafka.Base.{
  ℕ, ◌≡◌, refl, sym, ◌∙◌, ap, Bool, true, false, not, ◌&&◌, ◌||◌, ◌==◌, none, some, List, [], ◌∷◌,
  arith, inl, inr, Bool-cases, if◌then◌else◌, is_some, ltb, length, take_of_le,
}
use trig_emit_kafka.Base.Bytes.{Str, c_str, str_eq, str_eq_iff}
use trig_emit_kafka.Base.Int.{ℤ, pos, negsuc, to_int}
use trig_emit_kafka.Env.{Env, Laws}
use trig_emit_kafka.Machine.{World, ok, pure, print, ◌>>◌, ◌>>=◌}
use trig_emit_kafka.Machine.Log.{null_argument, invalid_topic_length, cannot_initialize_topic}
use trig_emit_kafka.Machine.Args.{returned, failed, Answer, arg, max_topic_len}
use trig_emit_kafka.Machine.Returns
use trig_emit_kafka.Machine.Returns.{Returns, returns, Safe, done, waits}
use trig_emit_kafka.Table.Registry.{table_send}
use trig_emit_kafka.Contract.{Call, View, Contract, Same}
use trig_emit_kafka.Safety.Holders.{registered}
use trig_emit_kafka.Safety.Lookup.{lookup_name}
use trig_emit_kafka.Safety.Calls.{Sent, table_send-Fed, table_exists-lookup}
use trig_emit_kafka.Safety.Creation.{table_create-Ready}
use trig_emit_kafka.Safety.Promises.Views.{Sane, view, Fed-Same}
use trig_emit_kafka.Safety.Promises.Topics.{has-lookup, offline, create-Keeps}
use trig_emit_kafka.Udf.Send.{kafka_send, send_args, send_to, payload_of, report_sent, ensure_topic}
use trig_emit_kafka.Udf.Statement.{Value, Statement, Delivered, Promise, given, answer_of}
use trig_emit_kafka.Safety.Functions.Arguments.{Promised, told, declined, name_checked}

-- The topic is ready: it was registered, or it has been created, which needs a connection.
abbrev pub Prepared : Str → View → Bool → View → Type 0
Prepared topic = Contract (Call.create (some topic))

module _ ⦃E : Env⦄ where
  -- A topic that is there is ready.
  pub already :
      (w : World) (topic : Str)
      → Sane w
      → registered w topic ≡ true
      → Prepared topic (view w) true (view w)
  already w topic s here = (
    refl,
    (λ n. refl),
    (λ other. elim (Bool-cases (str_eq topic other)) [
      | inr differs ↦ rw differs refl
      | inl same ↦
          let eq : topic ≡ other = (str_eq_iff topic other).0 same in
          rw same (sym (ap (registered w) eq) ∙ here)
    ]),
    ap not (offline w s.inv topic here),
    rw here refl,
  )

  ensure_topic-Prepared :
      (L : Laws) (w : World) (topic : Str)
      → Sane w
      → Returns (λ b v. Sane v × Prepared topic (view w) b (view v)) (ensure_topic topic w)
  unfolding ensure_topic
  ensure_topic-Prepared L w topic s =
      rw (table_exists-lookup w (some topic) s.inv)
        (elim (Bool-cases (is_some (lookup_name w.heap (some topic) w.kt.topics))) [
          | inl found ↦
              rw found (returns (s, already w topic s (sym (has-lookup w (some topic)) ∙ found)))
          | inr missing ↦ rw missing (
              Returns.mono (table_create-Ready L w (some topic) s.inv)
                λ b v r. create-Keeps w v (some topic) b s r)
        ])

  -- What a session can tell after a topic was made ready, and nothing more happened.
  delivered :
      (w v u : World) (topic : Str) (payload : List ℕ) (ready b : Bool) (a : Answer)
      → Prepared topic (view w) ready (view v)
      → Same (view v) (view u)
      → a ≡ answer_of b (to_int (length payload))
      → (b && not ready) ≡ false
      → Delivered payload topic (view w) a (view u)
  delivered w v u topic payload ready b a (online, params, topics, up, kept) (e, p, t) answer sent =
      (
        b,
        ready,
        answer,
        e ∙ online,
        (λ n. p n ∙ params n),
        (λ n. t n ∙ topics n),
        kept,
        ground (arith, sent, up),
      )

  pub report_sent-Delivered :
      (w v u : World) (topic : Str) (payload : List ℕ) (found : Bool) (r : ℤ)
      → Prepared topic (view w) true (view v)
      → Sane u
      → Same (view v) (view u)
      → Sent found payload r
      → Returns (Promised w (Delivered payload topic)) (report_sent r u)
  unfolding report_sent
  report_sent-Delivered w v u topic payload found (pos n) p s same (inl e) = absurd (cc)
  report_sent-Delivered w v u topic payload found (pos n) p s same (inr (e, _)) =
      returns (s, delivered w v u topic payload true true _ p same (ap returned e) refl)
  report_sent-Delivered w v u topic payload found (negsuc n) p s same sent = returns {a = failed} (
      told (Delivered payload topic) failed w u _
        (s, delivered w v u topic payload true false failed p same refl refl))

  send_to-Delivered :
      (L : Laws) (fuel : ℕ) (w : World) (topic : Str) (payload : List ℕ)
      → Sane w
      → Safe (Promised w (Delivered payload topic)) (send_to fuel topic payload w)
  unfolding send_to
  send_to-Delivered L fuel w topic payload s =
      Returns.bind-Safe (ensure_topic-Prepared L w topic s) goes_on
    where
      goes_on :
          (ready : Bool) (v : World)
          → Sane v × Prepared topic (view w) ready (view v)
          → Safe (Promised w (Delivered payload topic)) (
              (if ready
                  then (table_send fuel (some topic) payload >>= report_sent)
                  else (print cannot_initialize_topic >> pure failed))
                v)
      goes_on true v (k, p) =
          Returns.Safe-bind (table_send-Fed L fuel v (some topic) payload k.inv) λ r u x.
            let (k', same) = Fed-Same v u k x.fed in
            let sent = x.sent in
            Returns.Returns-Safe (report_sent-Delivered w v u topic payload _ r p k' same sent)
      goes_on false v (k, p) = done {a = failed} (
          told (Delivered payload topic) failed w v _ (
            k,
            delivered w v v topic payload false false failed p (refl, (λ n. refl), λ n. refl) refl
                refl,
          ))

  pub payload_of-all : (bytes : List ℕ) (w : World) → payload_of bytes (length bytes) w ≡ ok bytes w
  unfolding payload_of
  payload_of-all bytes w =
      let fits : ltb (length bytes) (length bytes) ≡ false = ground arith in
      rw (fits, take_of_le (length bytes) bytes (omega arith)) refl

  -- kafka_send() on two arguments, from a state that calls can lead to, has no undefined behaviour
  -- however many turns of its loop are taken: it still waits, or it answered, in such a state. NULL, and
  -- a topic that is empty or too long, are answered by an error, and nothing that a session can tell
  -- changes. Otherwise the topic of the string before the first 0 of the argument is registered if it
  -- was not, or that fails; no other topic, no parameter and not the connection changes. The answer is
  -- the length of the payload as an int, which needs that there is a connection and that the topic is
  -- registered afterwards, or an error.
  pub kafka_send-Promise :
      (L : Laws) (fuel : ℕ) (w : World) (topic payload : Value)
      → Sane w
      → Safe
          (Promised w (Promise (Statement.send fuel topic payload)))
          (kafka_send fuel (given topic ∷ given payload ∷ []) w)
  unfolding kafka_send arg send_args
  kafka_send-Promise L fuel w none none s = done {a = failed} (declined w null_argument s)
  kafka_send-Promise L fuel w none (some payload) s = done {a = failed} (declined w null_argument s)
  kafka_send-Promise L fuel w (some bytes) none s =
      elim (Bool-cases ((length bytes == 0) || ltb max_topic_len (length bytes))) [
        | inl bad ↦ rw bad (done {a = failed} (declined w null_argument s))
        | inr good ↦ rw good (done {a = failed} (declined w null_argument s))
      ]
  kafka_send-Promise L fuel w (some bytes) (some payload) s =
      name_checked Safe (λ P a v p. done p) max_topic_len bytes
        (invalid_topic_length (length bytes))
        (λ name. payload_of payload (length payload) >>= λ p. send_to fuel name p)
        (Delivered payload) w s
        (rw (payload_of-all payload w) (send_to-Delivered L fuel w (c_str bytes) payload s))
