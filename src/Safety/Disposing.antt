-- ===== src/Safety/Disposing.antt =====
-- tek_kafka_producer_dispose() on a producer that runs.
use trig_emit_kafka.Base.{
  ℕ, ◌+◌, ◌%◌, ◌^◌, count, ◌≡◌, refl, ◌∙◌, ap, true, false, Bool, none, some, arith, ◌==◌, ==_refl,
}
use trig_emit_kafka.Env.{Env, Laws}
use trig_emit_kafka.Machine.{Producer, World, update, store_producer, free_producer}
use trig_emit_kafka.Machine.Returns
use trig_emit_kafka.Machine.Returns.{Returns, returns}
use trig_emit_kafka.Engine.Producer.{
  producer_dispose, stop_thread, join_if, join_thread, release_handle, release_record, destroy_rk,
}
use trig_emit_kafka.Safety.Frame.{tally, shape, serve-Serves}
use trig_emit_kafka.Safety.Polling.{Runs, with_rk, Settled-Runs, poll_producer-Settled}

module _ ⦃E : Env⦄ where
  -- From `w` to `v` the producer at `p` was disposed of: nothing but counters and throttles of topic
  -- records changed besides.
  pub record Disposed (w v : World) (p : ℕ) : Type 0 where
    pub gone : v.producers p ≡ none
    pub others : (q : ℕ) → (q == p) ≡ false → v.producers q ≡ w.producers q
    pub shapes : (a : ℕ) → shape (v.heap a) ≡ shape (w.heap a)
    pub next : v.next ≡ w.next
    pub kt : v.kt ≡ w.kt

  -- Each message that was in the queue `rk` of `w` has been reported, and counted for its record.
  abbrev pub AllCounted : World → World → E.Rk → Type 0
  AllCounted w v rk =
      (a : ℕ) → tally (v.heap a) % 2 ^ 32 ≡ (tally (w.heap a) + count a (E.in_flight rk)) % 2 ^ 32

  -- The thread was joined; librdkafka's side still runs, and each message of the queue `before` is queued
  -- or counted.
  pub record Stopped (w v : World) (p : ℕ) (before : E.Rk) : Type 0 where
    pub pr : Producer
    pub rk : E.Rk
    pub joined : pr.thread_started ≡ false
    pub conserved :
        (a : ℕ)
        → (tally (v.heap a) + count a (E.in_flight rk)) % 2 ^ 32
          ≡ (tally (w.heap a) + count a (E.in_flight before)) % 2 ^ 32
    pub runs : Runs v p pr rk
    pub others : (q : ℕ) → (q == p) ≡ false → v.producers q ≡ w.producers q
    pub shapes : (a : ℕ) → shape (v.heap a) ≡ shape (w.heap a)
    pub next : v.next ≡ w.next
    pub kt : v.kt ≡ w.kt

  pub join_if-Stopped :
      (L : Laws) (b : Bool) (w : World) (p : ℕ) (pr : Producer) (rk : E.Rk)
      → Runs w p pr rk
      → pr.thread_started ≡ b
      → Returns (λ _ v. Stopped w v p rk) (join_if p b w)
  unfolding join_if join_thread store_producer
  join_if-Stopped L false w p pr rk r e = returns (record {
    pr = pr;
    rk = rk;
    joined = e;
    conserved = λ a. refl;
    runs = r;
    others = λ q ne. refl;
    shapes = λ a. refl;
    next = refl;
    kt = refl;
  })
  join_if-Stopped L true w p pr rk r e =
      Returns.bind (poll_producer-Settled L w p pr rk r) λ _ v (rk', s).
        let r' = Settled-Runs r s in
        rw (r'.at, r'.at)
          (returns (record {
            pr = record pr { thread_started = false };
            rk = rk';
            joined = refl;
            conserved = s.conserved;
            runs = record { at = ground (arith, ==_refl p); flying = r'.flying };
            others = λ q ne. rw (ne, s.producers, ne) refl;
            shapes = s.shapes;
            next = s.next;
            kt = s.kt;
          }))

  pub stop_thread-Stopped :
      (L : Laws) (w : World) (p : ℕ) (pr : Producer) (rk : E.Rk)
      → Runs w p pr rk
      → Returns (λ _ v. Stopped w v p rk) (stop_thread p w)
  unfolding stop_thread store_producer
  stop_thread-Stopped L w p pr rk r =
      rw (r.at, r.at)
        (Returns.mono
          (join_if-Stopped L pr.thread_started _ p (record pr { running = false }) rk
            (record { at = ground (arith, ==_refl p); flying = r.flying }) refl)
          λ _ v s. record {
            pr = s.pr;
            rk = s.rk;
            joined = s.joined;
            conserved = s.conserved;
            runs = s.runs;
            others = λ q ne. s.others q ne ∙ (rw ne refl);
            shapes = s.shapes;
            next = s.next;
            kt = s.kt;
          })

  pub release_record-Disposed :
      (w : World) (p : ℕ) (pr : Producer)
      → w.producers p ≡ some pr
      → pr.thread_started ≡ false
      → Returns (λ _ v. Disposed w v p × (v.heap ≡ w.heap)) (release_record p w)
  unfolding release_record store_producer free_producer
  release_record-Disposed w p pr at joined =
      rw (at, at, ==_refl p, joined)
        (returns (
          record {
            gone = ground (arith, ==_refl p);
            others = λ q ne. rw ne refl;
            shapes = λ a. refl;
            next = refl;
            kt = refl;
          },
          refl,
        ))

  pub destroy_rk-Serves :
      (L : Laws) (w : World) (p : ℕ) (pr : Producer) (rk : E.Rk)
      → Runs w p pr rk
      → Returns
          (λ _ v.
            (v.producers ≡ update w.producers p (some (record pr { rk = none })))
            × ((a : ℕ) → shape (v.heap a) ≡ shape (w.heap a))
            × (v.next ≡ w.next)
            × (v.kt ≡ w.kt)
            × AllCounted w v rk)
          (destroy_rk p rk w)
  unfolding destroy_rk store_producer
  destroy_rk-Serves L w p pr rk r =
      Returns.bind
        (serve-Serves (E.destroy w.calls rk) (record w { calls = _ })
          (λ a h. r.flying a (omega (arith, L.destroy_serves w.calls rk a))))
        λ _ v s.
          let at : v.producers p ≡ some (with_rk pr rk) = ap (λ f. f p) s.producers ∙ r.at in
          rw (at, at)
            (returns (
              ap (λ f. update f p (some (record pr { rk = none }))) s.producers,
              s.shapes,
              s.next,
              s.kt,
              λ a. omega (arith, s.tallies a, L.destroy_serves w.calls rk a),
            ))

  pub producer_dispose-Disposed :
      (L : Laws) (w : World) (p : ℕ) (pr : Producer) (rk : E.Rk)
      → Runs w p pr rk
      → Returns (λ _ v. Disposed w v p × AllCounted w v rk) (producer_dispose (some p) w)
  unfolding producer_dispose release_handle
  producer_dispose-Disposed L w p pr rk r =
      Returns.bind (stop_thread-Stopped L w p pr rk r) λ _ v s. rw s.runs.at (
        Returns.bind (destroy_rk-Serves L v p s.pr s.rk s.runs)
          λ _ u (prs, shapes, next, kt, counts).
            Returns.mono
              (release_record-Disposed u p (record s.pr { rk = none })
                (ap (λ f. f p) prs ∙ (rw (==_refl p) refl)) s.joined)
              λ _ t (d, same). (
                record {
                  gone = d.gone;
                  others = λ q ne. d.others q ne ∙ ap (λ f. f q) prs ∙ (rw ne refl) ∙ s.others q ne;
                  shapes = λ a. d.shapes a ∙ shapes a ∙ s.shapes a;
                  next = d.next ∙ next ∙ s.next;
                  kt = d.kt ∙ kt ∙ s.kt;
                },
                λ a.
                    let here : tally (t.heap a) ≡ tally (u.heap a) = ap (λ h. tally (h a)) same in
                    omega (arith, here, counts a, s.conserved a),
              ))
