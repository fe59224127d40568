-- ===== src/Safety/Advancing.antt =====
-- One step of a thread that shares ktlock.
use trig_emit_kafka.Base.{
  ℕ, ◌+◌, ◌<◌, ◌≡◌, refl, false, Option, none, some, List, arith, inl, inr, Option-cases, count,
}
use mathlib.Core.Path.{subst}
use trig_emit_kafka.Base.Bytes.{Str}
use trig_emit_kafka.Env.{Env, Laws}
use trig_emit_kafka.Machine.{Topic, World}
use trig_emit_kafka.Machine.Returns
use trig_emit_kafka.Machine.Returns.{Returns, returns}
use trig_emit_kafka.Table.Sharing.{Reader, start_feeding, start_stats, advance}
use trig_emit_kafka.Safety.Closing.{HasHandle, HasHandle-owned}
use trig_emit_kafka.Safety.Invariant.{Inv}
use trig_emit_kafka.Safety.Lookup.{lookup_name, lookup_name-registered, find_locked-lookup_name}
use trig_emit_kafka.Safety.Feeding.{Fed, Fed-refl, none_more, producer_flush-Fed}
use trig_emit_kafka.Safety.Sending.{added, feed_round-Fed}
use trig_emit_kafka.Safety.Readers.{Uses, sent_by}

module _ ⦃E : Env⦄ where
  -- One thread went on, and so did the messages that it has sent.
  pub record Advances (w : World) (r r' : Reader) (v : World) : Type 0 where
    pub more : ℕ → ℕ
    pub fed : Fed w more v
    pub counts : (x : ℕ) → sent_by r x + more x ≡ sent_by r' x
    pub uses : Uses w.kt.topics r'

  module _ (L : Laws) (w : World) (i : Inv w) where
    listed :
        (a : ℕ)
        → 0 < count a w.kt.topics
        → (p : ℕ) × (w.kt.producer ≡ some p) × HasHandle w.heap p a
    listed a h = elim (Option-cases w.kt.producer) [
      | inl idle ↦ absurd (ground (arith, i.idle idle))
      | inr (p, at) ↦ (p, at, (i.connected p at).handles a h)
    ]

    quiet :
        {r r' : Reader} {v : World}
        → ((x : ℕ) → sent_by r x ≡ sent_by r' x)
        → Fed w none_more v
        → Uses w.kt.topics r'
        → Advances w r r' v
    quiet same fed uses = record {
      more = none_more;
      fed = fed;
      counts = λ x. omega (arith, same x);
      uses = uses;
    }

    start_feeding-Advances :
        (name : Option Str) (a : ℕ) (payload : List ℕ)
        → 0 < count a w.kt.topics
        → Returns (Advances w (Reader.send_called name payload)) (start_feeding a payload w)
    unfolding start_feeding
    start_feeding-Advances name a payload h =
        let (p, e, (n, handle, same)) = listed a h in
        let c = i.connected p e in
        let (topic, here) = HasHandle-owned (w.heap a) p n handle same in
        rw (here, c.runs.at)
          (returns {a = Reader.feeding a payload} (quiet (λ x. refl) (Fed-refl w i) h))

    start_stats-Advances :
        (name : Option Str) (a : ℕ)
        → 0 < count a w.kt.topics
        → Returns (Advances w (Reader.stats_called name)) (start_stats a w)
    unfolding start_stats
    start_stats-Advances name a h =
        let (p, e, (n, handle, same)) = listed a h in
        let (topic, here) = HasHandle-owned (w.heap a) p n handle same in
        rw here (
          Returns.bind (producer_flush-Fed L w p i e)
            λ _ v f. returns {a = Reader.flushed a} (quiet (λ x. refl) f h))

    feeding-Advances :
        (a : ℕ) (payload : List ℕ)
        → 0 < count a w.kt.topics
        → Returns (Advances w (Reader.feeding a payload)) (advance (Reader.feeding a payload) w)
    unfolding advance
    feeding-Advances a payload h =
        let (p, e, handle) = listed a h in
        Returns.bind (feed_round-Fed L w p a _ payload i e handle) λ o v f. elim (Option-cases o) [
          | inl again ↦
              let f' : Fed w none_more v = subst (λ o'. Fed w (added o' a) v) again f in
              rw again (returns {a = Reader.feeding a payload} (quiet (λ x. refl) f' h))
          | inr (b, ended) ↦ rw ended (
              returns {a = Reader.send_ended (some a) b} (record {
                more = added (some b) a;
                fed = subst (λ o'. Fed w (added o' a) v) ended f;
                counts = λ x. omega arith;
                uses = tt;
              }))
        ]

    reading : (a : ℕ) → 0 < count a w.kt.topics → (topic : Topic) × (w.heap a ≡ some topic)
    reading a h =
        let (p, _, (n, handle, same)) = listed a h in
        let (topic, here) = HasHandle-owned (w.heap a) p n handle same in (_, here)

    pub advance-Advances : (r : Reader) → Uses w.kt.topics r → Returns (Advances w r) (advance r w)
    unfolding advance
    advance-Advances (Reader.send_called name payload) u =
        rw (find_locked-lookup_name name w i)
          (elim (Option-cases (lookup_name w.heap name w.kt.topics)) [
            | inl missing ↦
                rw missing
                  (returns {a = Reader.send_ended none false} (quiet (λ x. refl) (Fed-refl w i) tt))
            | inr (a, found) ↦ rw found (
                start_feeding-Advances name a payload
                  (lookup_name-registered w.heap name w.kt.topics a found))
          ])
    advance-Advances (Reader.feeding a payload) u = feeding-Advances a payload u
    advance-Advances (Reader.send_ended found b) u =
        returns {a = Reader.send_ended found b} (quiet (λ x. refl) (Fed-refl w i) tt)
    advance-Advances (Reader.stats_called name) u =
        rw (find_locked-lookup_name name w i)
          (elim (Option-cases (lookup_name w.heap name w.kt.topics)) [
            | inl missing ↦
                rw missing
                  (returns {a = Reader.stats_ended 0 0} (quiet (λ x. refl) (Fed-refl w i) tt))
            | inr (a, found) ↦ rw found (
                start_stats-Advances name a
                  (lookup_name-registered w.heap name w.kt.topics a found))
          ])
    advance-Advances (Reader.flushed a) u =
        let (topic, here) = reading a u in
        rw here
          (returns {a = Reader.half_read a topic.transferred} (quiet (λ x. refl) (Fed-refl w i) u))
    advance-Advances (Reader.half_read a n) u =
        let (topic, here) = reading a u in
        rw here
          (returns {a = Reader.stats_ended n topic.failed} (quiet (λ x. refl) (Fed-refl w i) tt))
    advance-Advances (Reader.stats_ended n m) u =
        returns {a = Reader.stats_ended n m} (quiet (λ x. refl) (Fed-refl w i) tt)
