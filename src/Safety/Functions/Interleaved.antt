-- ===== src/Safety/Functions/Interleaved.antt =====
-- kafka_send() with calls of other sessions between its own.
use trig_emit_kafka.Base.{
  ℕ, ◌≡◌, refl, ◌∙◌, ap, Bool, true, false, not, ◌&&◌, some, List, [], ◌∷◌, inl, inr, Bool-cases,
  if◌then◌else◌, is_some, length,
}
use trig_emit_kafka.Base.Bytes.{Str}
use trig_emit_kafka.Base.Int.{ℤ, pos, negsuc, to_int}
use trig_emit_kafka.Env.{Env, Laws}
use trig_emit_kafka.Machine.{World, pure, ◌>>=◌, ◌>>◌, print}
use trig_emit_kafka.Machine.Log.{cannot_initialize_topic}
use trig_emit_kafka.Machine.Args.{Answer, returned, failed}
use trig_emit_kafka.Machine.Returns
use trig_emit_kafka.Machine.Returns.{Returns, returns, Safe, done}
use trig_emit_kafka.Table.Registry.{table_send}
use trig_emit_kafka.Contract.{Call}
use trig_emit_kafka.Safety.Lookup.{lookup_name}
use trig_emit_kafka.Safety.Calls.{Sent, table_send-Fed, table_exists-lookup}
use trig_emit_kafka.Safety.Creation.{table_create-Ready}
use trig_emit_kafka.Safety.Promises.Views.{Sane, view, Fed-Same, logged}
use trig_emit_kafka.Safety.Promises.Topics.{has-lookup, create-Keeps}
use trig_emit_kafka.Safety.Promises.{perform-Keeps}
use trig_emit_kafka.Udf.Send.{report_sent}
use trig_emit_kafka.Udf.Statement.{answer_of}
use trig_emit_kafka.Udf.Among.{perform_all, ensure_among, send_among}

module _ ⦃E : Env⦄ where
  -- Success tells the length of the payload, and that the topic is registered.
  abbrev pub Accepted : Str → List ℕ → Answer → World → Type 0
  Accepted topic payload a v =
      (b : Bool) × (a ≡ answer_of b (to_int (length payload)))
      × ((b && not ((view v).topics topic)) ≡ false)

  perform_all-Sane :
      (L : Laws) (calls : List Call) (w : World)
      → Sane w
      → Safe (λ _ v. Sane v) (perform_all calls w)
  unfolding perform_all
  perform_all-Sane L [] w s = done s
  perform_all-Sane L (c ∷ calls) w s =
      Returns.Safe-bind (perform-Keeps L c w s) λ _ v k. perform_all-Sane L calls v k.0

  ensure_among-Sane :
      (L : Laws) (others : List Call) (w : World) (topic : Str)
      → Sane w
      → Safe (λ _ v. Sane v) (ensure_among others topic w)
  unfolding ensure_among
  ensure_among-Sane L others w topic s =
      rw (table_exists-lookup w (some topic) s.inv)
        (elim (Bool-cases (is_some (lookup_name w.heap (some topic) w.kt.topics))) [
          | inl found ↦ rw found (done s)
          | inr missing ↦ rw missing (
              Returns.Safe-bind (perform_all-Sane L others w s) λ _ v k. Returns.Returns-Safe (
                Returns.mono (table_create-Ready L v (some topic) k.inv)
                  λ b u r. (create-Keeps v u (some topic) b k r).0))
        ])

  report_sent-Accepted :
      (v u : World) (topic : Str) (payload : List ℕ) (r : ℤ)
      → Sane u
      → (view u).topics topic ≡ (view v).topics topic
      → Sent ((view v).topics topic) payload r
      → Returns (λ a x. Sane x × Accepted topic payload a x) (report_sent r u)
  unfolding report_sent
  report_sent-Accepted v u topic payload (pos n) s same (inl e) = absurd (cc)
  report_sent-Accepted v u topic payload (pos n) s same (inr (e, there)) =
      returns (s, (true, ap returned e, ap not (same ∙ there)))
  report_sent-Accepted v u topic payload (negsuc n) s same sent =
      returns {a = failed} (logged u u.calls _ s, (false, refl, refl))

  -- Whatever calls of other sessions and rounds of the poll thread come between its own calls of the
  -- table, disconnecting, dismissing the topic and unloading among them: from a state that calls can lead
  -- to, kafka_send() has no undefined behaviour behind its check of the arguments. It still waits, or it
  -- answered, in such a state; it answers the length of the payload, as an int, only if the topic is
  -- registered then, and an error otherwise.
  pub send_among-Accepted :
      (L : Laws) (others later : List Call) (fuel : ℕ) (w : World) (topic : Str) (payload : List ℕ)
      → Sane w
      → Safe
          (λ a v. Sane v × Accepted topic payload a v)
          (send_among others later fuel topic payload w)
  unfolding send_among
  send_among-Accepted L others later fuel w topic payload s =
      Returns.Safe-bind (ensure_among-Sane L others w topic s) goes_on
    where
      sends :
          (v : World)
          → Sane v
          → Safe
              (λ a x. Sane x × Accepted topic payload a x)
              ((table_send fuel (some topic) payload >>= report_sent) v)
      sends v k = Returns.Safe-bind (table_send-Fed L fuel v (some topic) payload k.inv) λ r u x.
          let (k', (_, _, topics)) = Fed-Same v u k x.fed in
          let sent = x.sent in
          Returns.Returns-Safe (
            report_sent-Accepted v u topic payload r k' (topics topic)
              (rw (← has-lookup v (some topic)) sent))

      goes_on :
          (ready : Bool) (v : World)
          → Sane v
          → Safe
              (λ a x. Sane x × Accepted topic payload a x)
              ((if ready
                  then (perform_all later >> (table_send fuel (some topic) payload >>= report_sent))
                  else (print cannot_initialize_topic >> pure failed))
                v)
      goes_on true v k = Returns.Safe-bind (perform_all-Sane L later v k) λ _ u k'. sends u k'
      goes_on false v k = done {a = failed} (logged v v.calls _ k, (false, refl, refl))
