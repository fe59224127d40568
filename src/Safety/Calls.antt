-- ===== src/Safety/Calls.antt =====
-- kafka_table_send(), kafka_topic_get_stats() and kafka_table_exists() are safe.
use trig_emit_kafka.Base.{
  ℕ, ◌≡◌, refl, ◌∙◌, false, Option, none, some, List, inl, inr, Bool-cases, Option-cases, is_some,
}
use trig_emit_kafka.Base.{Bool, if◌then◌else◌, true, ◌⊎◌, length}
use trig_emit_kafka.Base.Int.{ℤ, minus_one, to_int}
use trig_emit_kafka.Base.Bytes.{Str}
use trig_emit_kafka.Env.{Env, Laws}
use trig_emit_kafka.Machine.{Topic, World, ok}
use trig_emit_kafka.Machine.Returns
use trig_emit_kafka.Machine.Returns.{Returns, returns, Safe, done, waits}
use trig_emit_kafka.Engine.Producer.{producer_flush}
use trig_emit_kafka.Engine.Topics.{topic_feed_key, topic_feed, topic_get_stats}
use trig_emit_kafka.Table.Registry.{table_send, table_exists, table_get_stats}
use trig_emit_kafka.Safety.Closing.{HasHandle, HasHandle-owned}
use trig_emit_kafka.Safety.Invariant.{Inv}
use trig_emit_kafka.Safety.Lookup.{lookup_name, lookup_name-HasHandle, find_locked-lookup_name}
use mathlib.Core.Path.{subst}
use trig_emit_kafka.Safety.Sending.{added, feed_loop-Fed}
use trig_emit_kafka.Safety.Feeding.{Fed-refl, none_more, Fed, producer_flush-Fed}

module _ ⦃E : Env⦄ where
  topic_feed-Fed :
      (L : Laws) (fuel : ℕ) (w : World) (p a : ℕ) (payload : List ℕ)
      → Inv w
      → w.kt.producer ≡ some p
      → HasHandle w.heap p a
      → Safe (λ b v. Fed w (added (some b) a) v) (topic_feed fuel a payload w)
  unfolding topic_feed topic_feed_key
  topic_feed-Fed L fuel w p a payload i e (name, handle, same) =
      let c = i.connected p e in
      let (topic, here) = HasHandle-owned (w.heap a) p name handle same in
      rw (here, c.runs.at) (feed_loop-Fed L fuel w p a _ payload i e (name, handle, same))

  -- What kafka_table_send() returns: -1, or the length of the payload as an int, for a registered topic.
  abbrev pub Sent : Bool → List ℕ → ℤ → Type 0
  Sent found payload r = (r ≡ minus_one) ⊎ ((r ≡ to_int (length payload)) × (found ≡ true))

  -- What a call for the record found, if any, adds to the record at `x`.
  abbrev pub sent_to : Option ℕ → Bool → ℕ → ℕ
  sent_to none b x = 0
  sent_to (some a) b x = added (some b) a x

  -- What kafka_table_send() leaves. It handed one message to librdkafka, for the record that it found,
  -- or none; its result tells which.
  pub record Sends (w : World) (name : Option Str) (payload : List ℕ) (r : ℤ) (v : World)
      : Type 0 where
    pub took : Bool
    pub fed : Fed w (sent_to (lookup_name w.heap name w.kt.topics) took) v
    pub sent : Sent (is_some (lookup_name w.heap name w.kt.topics)) payload r
    pub answer : r ≡ (if took then to_int (length payload) else minus_one)

  -- Where the invariant holds, kafka_table_send() is never undefined behaviour, however many turns of
  -- its loop are taken: it still waits, or it returned, and then the invariant holds, the table is the
  -- same, and no record was created, freed or renamed. It returns -1, or the length of the payload as
  -- an int, and the latter only if a registered record has the name. Modulo 2^32, what is in the out
  -- queue for a record and what its counters have seen is one more together for the record found if
  -- the call took the message, and is as before for each other record; the call returns the length if
  -- it took the message, and -1 if not.
  pub table_send-Fed :
      (L : Laws) (fuel : ℕ) (w : World) (name : Option Str) (payload : List ℕ)
      → Inv w
      → Safe (λ r v. Sends w name payload r v) (table_send fuel name payload w)
  unfolding table_send
  table_send-Fed L fuel w name payload i =
      rw (find_locked-lookup_name name w i)
        (elim (Option-cases (lookup_name w.heap name w.kt.topics)) [
          | inl missing ↦ rw missing (
              done {a = minus_one} (record {
                took = false;
                fed = rw missing (
                    let f = Fed-refl w i in
                    record { inv = i; kt = refl; shapes = λ a. refl; accounts = f.accounts });
                sent = inl refl;
                answer = refl;
              }))
          | inr (a, found) ↦
              let (p, e, handle) = lookup_name-HasHandle w i name a found in
              rw found (
                Returns.Safe-bind (topic_feed-Fed L fuel w p a payload i e handle) λ b v f.
                  elim (Bool-cases b) [
                    | inl sent ↦
                        let f' : Fed w (added (some true) a) v =
                          subst (λ b'. Fed w (added (some b') a) v) sent f in
                        rw sent (
                          done {a = to_int (length payload)} (record {
                            took = true;
                            fed = rw found f';
                            sent = rw found (inr (refl, refl));
                            answer = refl;
                          }))
                    | inr failed ↦
                        let f' : Fed w (added (some false) a) v =
                          subst (λ b'. Fed w (added (some b') a) v) failed f in
                        rw failed (
                          done {a = minus_one} (record {
                            took = false;
                            fed = rw found (record {
                              inv = f'.inv;
                              kt = f'.kt;
                              shapes = f'.shapes;
                              accounts = f'.accounts;
                            });
                            sent = inl refl;
                            answer = refl;
                          }))
                  ])
        ])

  -- What kafka_topic_get_stats() returns for the record that it found: its counters after the flush.
  abbrev pub Counters : (ℕ → Option Topic) → Option ℕ → ℕ × ℕ → Type 0
  Counters heap none counts = counts ≡ (0, 0)
  Counters heap (some a) counts =
      (topic : Topic) × (heap a ≡ some topic) × (counts ≡ (topic.transferred, topic.failed))

  pub table_get_stats-Fed :
      (L : Laws) (w : World) (name : Option Str)
      → Inv w
      → Returns
          (λ counts v.
            Fed w none_more v × Counters v.heap (lookup_name w.heap name w.kt.topics) counts)
          (table_get_stats name w)
  unfolding table_get_stats topic_get_stats
  table_get_stats-Fed L w name i =
      rw (find_locked-lookup_name name w i)
        (elim (Option-cases (lookup_name w.heap name w.kt.topics)) [
          | inl missing ↦ rw missing (returns (Fed-refl w i, refl))
          | inr (a, found) ↦
              let (p, e, (n, handle, same)) = lookup_name-HasHandle w i name a found in
              let (topic, here) = HasHandle-owned (w.heap a) p n handle same in
              rw (found, here)
                (Returns.bind (producer_flush-Fed L w p i e) λ _ v f.
                  let (topic', here') = HasHandle-owned (v.heap a) p n handle (f.shapes a ∙ same) in
                  rw here' (returns (f, (_, here', refl))))
        ])

  -- Where the invariant holds, kafka_table_exists() returns, changes nothing, and says whether a
  -- registered record has the name.
  pub table_exists-lookup :
      (w : World) (name : Option Str)
      → Inv w
      → table_exists name w ≡ ok (is_some (lookup_name w.heap name w.kt.topics)) w
  unfolding table_exists
  table_exists-lookup w name i = rw (find_locked-lookup_name name w i)

  pub flush-Fed :
      (L : Laws) (w : World) (o : Option ℕ)
      → Inv w
      → w.kt.producer ≡ o
      → Returns (λ _ v. Fed w none_more v) (producer_flush o w)
  unfolding producer_flush
  flush-Fed L w none i e = returns (Fed-refl w i)
  flush-Fed L w (some p) i e = producer_flush-Fed L w p i e
