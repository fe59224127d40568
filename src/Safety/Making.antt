-- ===== src/Safety/Making.antt =====
-- Building the record of a topic, tek_kafka_topic_create().
use trig_emit_kafka.Base.{
  ℕ, suc, ◌+◌, ◌≡◌, refl, ap, false, Option, none, some, inl, inr, Bool-cases, count, if◌then◌else◌,
  ◌==◌, ==_refl, Sum-cases,
}
use trig_emit_kafka.Base.Bytes.{Str, zstr}
use trig_emit_kafka.Env.{Env, Laws}
use trig_emit_kafka.Machine.{
  Topic, Producer, World, update, free_topic, store_topic, store_producer, new_topic,
}
use trig_emit_kafka.Machine.Returns.{Returns, returns}
use trig_emit_kafka.Engine.Topics.{open_handle, create_record, topic_create, zero_topic}
use trig_emit_kafka.Safety.Frame.{tally}
use trig_emit_kafka.Safety.Polling.{with_rk, update_self}
use trig_emit_kafka.Safety.Account.{SameAccounts, queued_for}
use trig_emit_kafka.Safety.Closing.{HasHandle}
use trig_emit_kafka.Safety.Invariant.{Inv, only_producer}
use trig_emit_kafka.Safety.Holders.{SameShapes}
use trig_emit_kafka.Safety.Frame.{shape}
use trig_emit_kafka.Safety.Lookup.{named, all-Live}
use trig_emit_kafka.Safety.Extending.{
  adds, conn, fresh-ne, extend-Sound, queue_kept, none_queued, unlisted,
}
use trig_emit_kafka.Machine.Log.{LogLine}
use trig_emit_kafka.Base.{List}

module _ ⦃E : Env⦄ (w : World) (i : Inv w) (p : ℕ) (e : w.kt.producer ≡ some p) where
  -- A new record for the name: it has a handle and no messages, and is not in the table.
  pub record Fresh (heap : ℕ → Option Topic) (producers : ℕ → Option Producer) (name : Option Str)
      (a : ℕ) : Type 0 where
    pub handle : HasHandle heap p a
    pub unlisted : count a w.kt.topics + count a w.kt.retired ≡ 0
    pub title : (n : Str) → (if named n (heap a) then 1 else 0) ≡ adds name n
    pub filled : zstr name ≡ false
    pub empty : tally (heap a) + queued_for producers w.kt.producer a ≡ 0

  -- What tek_kafka_topic_create() leaves: nothing, or a new record with a handle.
  pub record Made (name : Option Str) (o : Option ℕ) (v : World) : Type 0 where
    pub inv : Inv v
    pub kt : v.kt ≡ w.kt
    pub shapes : SameShapes w.heap v.heap w.kt.topics
    pub accounts : SameAccounts w v w.kt.topics
    pub made : (a : ℕ) → o ≡ some a → Fresh v.heap v.producers name a

  -- Nothing but the log and the calls of the environment changed.
  unchanged :
      (name : Option Str) (n : ℕ) (log : List LogLine)
      → Made name none (record w { calls = n; log = log })
  unchanged name n log = record {
    inv = i;
    kt = refl;
    shapes = λ b h. refl;
    accounts = λ b h. refl;
    made = λ a none_made. absurd (cc);
  }

  -- The heap changed at the new address only, and the handle moved on with the same queue.
  extended :
      (name : Option Str) (o : Option ℕ) (heap : ℕ → Option Topic) (rk' : E.Rk) (n : ℕ)
      (log : List LogLine)
      → ((b : ℕ) → (b == w.next) ≡ false → heap b ≡ w.heap b)
      → E.in_flight rk' ≡ E.in_flight (conn w i p e).rk
      → ((a : ℕ)
          → o ≡ some a
          → Fresh heap (update w.producers p (some (with_rk (conn w i p e).pr rk'))) name a)
      → Made name o (record w {
        heap = heap;
        producers = update w.producers p (some (with_rk (conn w i p e).pr rk'));
        next = suc w.next;
        calls = n;
        log = log;
      })
  extended name o heap rk' n log same queue made = record {
    inv = extend-Sound w i p e heap _ rk' same (update_self w p _) (λ q ne. rw ne refl) queue;
    kt = refl;
    shapes = λ b h. ap shape (same b (fresh-ne w i p e b (all-Live w i b h)));
    accounts = λ b h.
        let ne = fresh-ne w i p e b (all-Live w i b h) in
        rw (same b ne, queue_kept w i p e rk' b queue) refl;
    made = made;
  }

  open_handle-Made :
      (L : Laws) (name : Str) (heap : ℕ → Option Topic) (n : ℕ)
      → ((b : ℕ) → (b == w.next) ≡ false → heap b ≡ w.heap b)
      → heap w.next ≡ some (record (zero_topic p) { name = name })
      → zstr (some name) ≡ false
      → Returns (Made (some name)) (
          open_handle p
            (conn w i p e).rk
            w.next
            name
            (record w { heap = heap; next = suc w.next; calls = n }))
  unfolding open_handle store_topic store_producer free_topic
  open_handle-Made L name heap n same here filled =
      let c = conn w i p e in
      let keeps = L.topic_new_keeps n c.rk name in
      rw (c.runs.at, c.runs.at)
        (elim (Sum-cases (E.topic_new n c.rk name).0) [
          | inl (err, failed) ↦
              rw (failed, here)
                (returns {a = none} (
                  extended (some name) none (update heap w.next none) _ _ _
                    (λ b ne. rw ne (same b ne)) keeps (λ a none_made. absurd (cc))))
          | inr (handle, made) ↦
              let record_of = record (zero_topic p) { name = name; rkt = some handle } in
              rw (made, here, here)
                (returns {a = some w.next} (
                  extended (some name) (some w.next) (update heap w.next (some record_of)) _ _ _
                    (λ b ne. rw ne (same b ne)) keeps
                    (only_producer (Fresh (update heap w.next (some record_of)) _ (some name))
                      (some w.next) w.next refl
                      (record {
                        handle = rw (==_refl w.next) (name, handle, refl);
                        unlisted = unlisted w i p e;
                        title = λ n. rw (==_refl w.next) refl;
                        filled = filled;
                        empty =
                            rw
                              (
                                ==_refl w.next,
                                queue_kept w i p e _ w.next keeps,
                                none_queued w i p e,
                              )
                              refl;
                      }))))
        ])

  create_record-Made :
      (L : Laws) (name : Str)
      → zstr (some name) ≡ false
      → Returns (Made (some name)) (create_record p (conn w i p e).rk name w)
  unfolding create_record new_topic store_topic free_topic
  create_record-Made L name filled = elim (Bool-cases (E.malloc w.calls)) [
    | inr no_record ↦ rw no_record (returns {a = none} (unchanged (some name) _ _))
    | inl allocated ↦ rw allocated (elim (Bool-cases (E.malloc (w.calls + 1))) [
      | inr no_name ↦
          rw (no_name, ==_refl w.next)
            (returns (record {
              inv =
                  extend-Sound w i p e _ w.producers (conn w i p e).rk (λ b ne. rw ne refl)
                    (conn w i p e).runs.at (λ q ne. refl) refl;
              kt = refl;
              shapes = λ b h. let ne = fresh-ne w i p e b (all-Live w i b h) in rw ne refl;
              accounts = λ b h. let ne = fresh-ne w i p e b (all-Live w i b h) in rw ne refl;
              made = λ a none_made. absurd (cc);
            }))
      | inl copied ↦
          rw (copied, ==_refl w.next)
            (open_handle-Made L name _ _ (λ b ne. rw ne refl) (rw (==_refl w.next) refl) filled)
    ])
  ]

  pub topic_create-Made :
      (L : Laws) (name : Option Str) → Returns (Made name) (topic_create p name w)
  unfolding topic_create
  topic_create-Made L none = returns {a = none} (unchanged none _ _)
  topic_create-Made L (some name) =
      rw (conn w i p e).runs.at (elim (Bool-cases (zstr (some name))) [
        | inl empty ↦ rw empty (returns {a = none} (unchanged (some name) _ _))
        | inr filled ↦ rw filled (create_record-Made L name filled)
      ])
