-- ===== src/Safety/Closing.antt =====
-- Giving back librdkafka topic handles, and freeing records.
use trig_emit_kafka.Base.{
  ℕ, ◌≤◌, ◌<◌, ◌≡◌, refl, ◌∙◌, ap, true, false, Option, none, some, List, [], ◌∷◌, arith, inl, inr,
  Bool-cases, count, ◌==◌, ltb, ==_refl, Option-cases, is_some,
}
use trig_emit_kafka.Base.Bytes.{Str}
use trig_emit_kafka.Env.{Env, Laws}
use trig_emit_kafka.Machine.{
  Topic, Producer, World, update, store_topic, store_producer, free_topic,
}
use trig_emit_kafka.Machine.Returns
use trig_emit_kafka.Machine.Returns.{Returns, returns}
use trig_emit_kafka.Engine.Topics.{topic_dispose, destroy_handle}
use trig_emit_kafka.Table.Registry.{free_all}
use trig_emit_kafka.Table.Connection.{dispose_all}
use trig_emit_kafka.Safety.Frame.{Live, shape}
use trig_emit_kafka.Safety.Polling.{Runs, with_rk, update_self}

module _ ⦃E : Env⦄ where
  -- The record at `a` has a librdkafka handle, and its producer is the one at `p`.
  abbrev pub HasHandle : (ℕ → Option Topic) → ℕ → ℕ → Type 0
  HasHandle heap p a =
      (name : Str) × (handle : E.Rkt) × (shape (heap a) ≡ some (name, some handle, p))

  abbrev pub owned : Topic → ℕ → E.Rkt → Topic
  owned topic p handle = record topic { producer = p; rkt = some handle }

  pub HasHandle-owned :
      (o : Option Topic) (p : ℕ) (name : Str) (handle : E.Rkt)
      → shape o ≡ some (name, some handle, p)
      → (topic : Topic) × (o ≡ some (owned topic p handle))
  HasHandle-owned none p name handle e = absurd (cc)
  HasHandle-owned (some topic) p name handle e = (topic, ground arith)

  -- From `w` to `v` the record at `a` gave its handle back.
  pub record Closed (w v : World) (p a : ℕ) (pr : Producer) (rk rk' : E.Rk) : Type 0 where
    pub producers : v.producers ≡ update w.producers p (some (with_rk pr rk'))
    pub next : v.next ≡ w.next
    pub kt : v.kt ≡ w.kt
    pub others : (b : ℕ) → (b == a) ≡ false → v.heap b ≡ w.heap b
    pub occupied : (b : ℕ) → is_some (v.heap b) ≡ is_some (w.heap b)
    pub queue : E.in_flight rk' ≡ E.in_flight rk

  pub topic_dispose-Closed :
      (L : Laws) (w : World) (p a : ℕ) (pr : Producer) (rk : E.Rk) (topic : Topic) (handle : E.Rkt)
      → Runs w p pr rk
      → w.heap a ≡ some (owned topic p handle)
      → Returns (λ _ v. (rk' : E.Rk) × Closed w v p a pr rk rk') (topic_dispose a w)
  unfolding topic_dispose destroy_handle store_topic store_producer
  topic_dispose-Closed L w p a pr rk topic handle r e =
      rw (e, r.at, r.at, e, ==_refl a)
        (elim (Bool-cases (ltb 0 topic.suppressed)) [
          | inl some_left ↦
              rw (some_left, ==_refl a)
                (returns (
                  E.topic_destroy handle rk,
                  record {
                    producers = refl;
                    next = refl;
                    kt = refl;
                    others = λ b ne. ground arith;
                    occupied = λ b. ground arith;
                    queue = L.topic_destroy_keeps handle rk;
                  },
                ))
          | inr none_left ↦ rw none_left (
              returns (
                E.topic_destroy handle rk,
                record {
                  producers = refl;
                  next = refl;
                  kt = refl;
                  others = λ b ne. ground arith;
                  occupied = λ b. ground arith;
                  queue = L.topic_destroy_keeps handle rk;
                },
              ))
        ])

  pub live_of : (s t : Option Topic) → is_some t ≡ is_some s → is_some s ≡ true → is_some t ≡ true
  live_of s t same live = same ∙ live

  pub Closed-Runs :
      {w v : World} {p a : ℕ} {pr : Producer} {rk rk' : E.Rk}
      → Runs w p pr rk
      → Closed w v p a pr rk rk'
      → Runs v p pr rk'
  Closed-Runs {w} {v} {p} {pr = pr} {rk' = rk'} r c = record {
    at = ap (λ f. f p) c.producers ∙ update_self w p (some (with_rk pr rk'));
    flying = λ b h. c.occupied b ∙ r.flying b (omega (arith, ap (count b) c.queue));
  }

  -- From `w` to `v` handles were given back, and nothing else changed but the log and throttles.
  pub record ClosedAll (w v : World) (p : ℕ) (pr : Producer) (rk rk' : E.Rk) : Type 0 where
    pub at : v.producers p ≡ some (with_rk pr rk')
    pub other_producers : (q : ℕ) → (q == p) ≡ false → v.producers q ≡ w.producers q
    pub next : v.next ≡ w.next
    pub kt : v.kt ≡ w.kt
    pub occupied : (b : ℕ) → is_some (v.heap b) ≡ is_some (w.heap b)
    pub queue : E.in_flight rk' ≡ E.in_flight rk

  ne_of_distinct :
      (a b : ℕ) (ts : List ℕ) → count b (a ∷ ts) ≤ 1 → 0 < count b ts → (b == a) ≡ false
  ne_of_distinct a b ts once h = ground arith

  pub dispose_all-ClosedAll :
      (L : Laws) (ts : List ℕ) (w : World) (p : ℕ) (pr : Producer) (rk : E.Rk)
      → Runs w p pr rk
      → ((a : ℕ) → count a ts ≤ 1)
      → ((a : ℕ) → 0 < count a ts → HasHandle w.heap p a)
      → Returns (λ _ v. (rk' : E.Rk) × ClosedAll w v p pr rk rk') (dispose_all ts w)
  unfolding dispose_all
  dispose_all-ClosedAll L [] w p pr rk r once handles = returns (
    rk,
    record {
      at = r.at;
      other_producers = λ q ne. refl;
      next = refl;
      kt = refl;
      occupied = λ b. refl;
      queue = refl;
    },
  )
  dispose_all-ClosedAll L (a ∷ ts) w p pr rk r once handles =
      let (name, handle, same) = handles a (ground (arith, ==_refl a)) in
      let (topic, e) = HasHandle-owned (w.heap a) p name handle same in
      rw e (
        Returns.bind (topic_dispose-Closed L _ p a pr rk topic handle r e) λ _ v (rk', c).
          Returns.mono
            (dispose_all-ClosedAll L ts v p pr rk' (Closed-Runs r c)
              (λ b. let h = once b in omega arith)
              (λ b h.
                let ne = ne_of_distinct a b ts (once b) h in
                rw (c.others b ne) (handles b (omega arith))))
            λ _ u (rk'', d). (
              rk'',
              record {
                at = d.at;
                other_producers =
                    λ q ne. d.other_producers q ne ∙ ap (λ f. f q) c.producers ∙ (rw ne refl);
                next = d.next ∙ c.next;
                kt = d.kt ∙ c.kt;
                occupied = λ b. d.occupied b ∙ c.occupied b;
                queue = d.queue ∙ c.queue;
              },
            ))

  -- From `w` to `v` exactly the records of `ts` were freed.
  pub record Freed (w v : World) (ts : List ℕ) : Type 0 where
    pub producers : v.producers ≡ w.producers
    pub next : v.next ≡ w.next
    pub kt : v.kt ≡ w.kt
    pub gone : (a : ℕ) → 0 < count a ts → v.heap a ≡ none
    pub others : (a : ℕ) → count a ts ≡ 0 → v.heap a ≡ w.heap a

  pub free_all-Freed :
      (ts : List ℕ) (w : World)
      → ((a : ℕ) → count a ts ≤ 1)
      → ((a : ℕ) → 0 < count a ts → Live w.heap a)
      → Returns (λ _ v. Freed w v ts) (free_all ts w)
  unfolding free_all free_topic
  free_all-Freed [] w once live = returns (record {
    producers = refl;
    next = refl;
    kt = refl;
    gone = λ a h. absurd (omega arith);
    others = λ a h. refl;
  })
  free_all-Freed (a ∷ ts) w once live = elim (Option-cases (w.heap a)) [
    | inl e ↦ absurd (ground (arith, live a, ==_refl a))
    | inr (topic, e) ↦ rw e (
        Returns.mono
          (free_all-Freed ts (record w { heap = update w.heap a none })
            (λ b. let h = once b in omega arith)
            (λ b h. let ne = ne_of_distinct a b ts (once b) h in rw ne (live b (omega arith))))
          λ _ v f. record {
            producers = f.producers;
            next = f.next;
            kt = f.kt;
            gone = λ b h. ground (arith, f.gone b, f.others b, once b);
            others = λ b h. ground (arith, f.others b);
          })
  ]
