-- ===== src/Safety/Functions/Accounting.antt =====
-- Each SQL function that returns a number counts the message that it sent.
use trig_emit_kafka.Base.{
  ℕ, ◌^◌, ◌<◌, ◌≡◌, refl, sym, ◌∙◌, Bool, true, false, ◌&&◌, Option, none, some, List, [], ◌∷◌,
  arith, inl, inr, Bool-cases, if◌then◌else◌, is_some, ltb, length,
}
use trig_emit_kafka.Base.Bytes.{Str, c_str, str_eq}
use trig_emit_kafka.Base.Int.{ℤ, pos, negsuc}
use trig_emit_kafka.Env.{Env, Laws}
use trig_emit_kafka.Machine.{World, Run, pure, print, ◌>>◌, ◌>>=◌}
use trig_emit_kafka.Machine.Log.{invalid_topic_length, cannot_initialize_topic}
use trig_emit_kafka.Machine.Args.{Answer, returned, failed, arg, max_topic_len}
use trig_emit_kafka.Machine.Returns
use trig_emit_kafka.Machine.Returns.{Returns, returns, Safe, done}
use trig_emit_kafka.Contract.{is_natural}
use trig_emit_kafka.Table.Registry.{table_send}
use trig_emit_kafka.Safety.Lookup.{lookup_name}
use trig_emit_kafka.Safety.Holders.{registered}
use trig_emit_kafka.Safety.Calls.{table_send-Fed, table_exists-lookup}
use trig_emit_kafka.Safety.Creation.{table_create-Ready}
use trig_emit_kafka.Safety.Counting.{Counts, Kept, Kept-Counts, send-Counted}
use trig_emit_kafka.Safety.Promises.Views.{Sane, Fed-Same}
use trig_emit_kafka.Safety.Promises.Topics.{create-Keeps}
use trig_emit_kafka.Udf.Send.{kafka_send, send_args, send_to, payload_of, report_sent, ensure_topic}
use trig_emit_kafka.Udf.Statement.{Value, Statement, execute, given, named}
use trig_emit_kafka.Safety.Functions.Arguments.{length_checked}
use trig_emit_kafka.Safety.Functions.Sending.{payload_of-all}
use trig_emit_kafka.Safety.Functions.Keeping.{
  kafka_connect-Kept, kafka_disconnect-Kept, disconnect_all-Kept, kafka_connection_param-Kept,
}

-- One more message for the topic, where an answer that is not an error tells that it was sent there.
abbrev pub taken : Answer → Option Str → Str → ℕ
taken failed name topic = 0
taken (returned _) none topic = 0
taken (returned _) (some name) topic = if str_eq name topic then 1 else 0

-- The topic that the statement sends to, where it sends.
abbrev pub target : Statement → Option Str
target (Statement.connect _) = none
target Statement.disconnect_all = none
target (Statement.disconnect _) = none
target (Statement.send _ topic _) = named max_topic_len topic
target (Statement.param _ _) = none

-- The length of the message that the statement sends, if it sends one, is an int.
abbrev pub payload_fits : Statement → Bool
payload_fits (Statement.connect _) = true
payload_fits Statement.disconnect_all = true
payload_fits (Statement.disconnect _) = true
payload_fits (Statement.send _ _ none) = true
payload_fits (Statement.send _ _ (some payload)) = ltb (length payload) (2 ^ 31)
payload_fits (Statement.param _ _) = true

module _ ⦃E : Env⦄ where
  -- The topic is ready, and no message came or went.
  ensure_topic-Kept :
      (L : Laws) (w : World) (topic : Str)
      → Sane w
      → Returns (λ _ v. Sane v × Kept w v) (ensure_topic topic w)
  unfolding ensure_topic
  ensure_topic-Kept L w topic s =
      rw (table_exists-lookup w (some topic) s.inv)
        (elim (Bool-cases (is_some (lookup_name w.heap (some topic) w.kt.topics))) [
          | inl found ↦ rw found (returns (s, λ t h. refl))
          | inr missing ↦ rw missing (
              Returns.mono (table_create-Ready L w (some topic) s.inv)
                λ b v r. ((create-Keeps w v (some topic) b s r).0, λ t h. r.loads t))
        ])

  report_sent-Counts :
      (w u : World) (topic : Str) (r : ℤ)
      → Counts w (λ t. if is_natural r && str_eq topic t then 1 else 0) u
      → Returns (λ a v. Counts w (taken a (some topic)) v) (report_sent r u)
  unfolding report_sent registered
  report_sent-Counts w u topic (pos n) c = returns c
  report_sent-Counts w u topic (negsuc n) c = returns {a = failed} c

  send_to-Counts :
      (L : Laws) (fuel : ℕ) (w : World) (topic : Str) (payload : List ℕ)
      → Sane w
      → length payload < 2 ^ 31
      → Safe (λ a v. Counts w (taken a (some topic)) v) (send_to fuel topic payload w)
  unfolding send_to registered
  send_to-Counts L fuel w topic payload s small =
      Returns.bind-Safe (ensure_topic-Kept L w topic s) goes_on
    where
      goes_on :
          (ready : Bool) (v : World)
          → Sane v × Kept w v
          → Safe
              (λ a u. Counts w (taken a (some topic)) u)
              ((if ready
                  then (table_send fuel (some topic) payload >>= report_sent)
                  else (print cannot_initialize_topic >> pure failed))
                v)
      goes_on true v (k, kept) =
          Returns.Safe-bind (table_send-Fed L fuel v (some topic) payload k.inv) λ r u x.
            Returns.Returns-Safe (
              report_sent-Counts w u topic r λ t h.
                let (_, (_, _, same)) = Fed-Same v u k x.fed in
                let before = kept t (sym (same t) ∙ h) in
                let sent = send-Counted v u fuel (some topic) payload r k small x t h in
                omega (arith, before, sent))
      goes_on false v (k, kept) = done {a = failed} (λ t h. omega (arith, kept t h))

  kafka_send-Counts :
      (L : Laws) (fuel : ℕ) (w : World) (topic payload : Value)
      → Sane w
      → payload_fits (Statement.send fuel topic payload) ≡ true
      → Safe
          (λ a v. Counts w (taken a (named max_topic_len topic)) v)
          (kafka_send fuel (given topic ∷ given payload ∷ []) w)
  unfolding kafka_send arg send_args
  kafka_send-Counts L fuel w none none s fits = done {a = failed} (λ t h. omega arith)
  kafka_send-Counts L fuel w none (some payload) s fits = done {a = failed} (λ t h. omega arith)
  kafka_send-Counts L fuel w (some bytes) none s fits = done {a = failed} (λ t h. omega arith)
  kafka_send-Counts L fuel w (some bytes) (some payload) s fits =
      length_checked Safe (λ P a v p. done p) max_topic_len bytes
        (invalid_topic_length (length bytes))
        (λ name. payload_of payload (length payload) >>= λ p. send_to fuel name p)
        (λ a v. Counts w (taken a (named max_topic_len (some bytes))) v) w (λ bad t h. omega arith)
        (λ good.
          rw (good, payload_of-all payload w)
            (send_to-Counts L fuel w (c_str bytes) payload s (ground arith)))

  -- A function that sends nothing.
  nothing_taken :
      (w : World) (r : Run Answer)
      → Returns (λ _ v. Kept w v) r
      → Safe (λ a v. Counts w (taken a none) v) r
  nothing_taken w r k =
      Returns.Returns-Safe
        (Returns.mono k λ a v k. Kept-Counts w v (taken a none) (λ topic. none_taken a topic) k)
    where
      none_taken : (a : Answer) (topic : Str) → taken a none topic ≡ 0
      none_taken (returned _) topic = refl
      none_taken failed topic = refl

  -- Each statement counts the message that it sent.
  pub execute-Counts :
      (L : Laws) (x : Statement) (w : World)
      → Sane w
      → payload_fits x ≡ true
      → Safe (λ a v. Counts w (taken a (target x)) v) (execute x w)
  unfolding execute
  execute-Counts L (Statement.connect brokers) w s fits =
      nothing_taken w _ (kafka_connect-Kept L w brokers s)
  execute-Counts L Statement.disconnect_all w s fits = nothing_taken w _ (disconnect_all-Kept L w s)
  execute-Counts L (Statement.disconnect topic) w s fits =
      nothing_taken w _ (kafka_disconnect-Kept L w topic s)
  execute-Counts L (Statement.send fuel topic payload) w s fits =
      kafka_send-Counts L fuel w topic payload s fits
  execute-Counts L (Statement.param name value) w s fits =
      nothing_taken w _ (kafka_connection_param-Kept w name value s)
