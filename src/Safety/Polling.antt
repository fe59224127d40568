-- ===== src/Safety/Polling.antt =====
-- A producer that runs, and the calls of librdkafka that serve its delivery reports.
use trig_emit_kafka.Base.{
  ◌%◌, ◌^◌, ℕ, ◌+◌, ◌≤◌, ◌<◌, ◌≡◌, refl, ◌∙◌, ap, Option, some, List, arith, count,
}
use trig_emit_kafka.Env.{Env, Laws, Report, reported}
use trig_emit_kafka.Machine.{Topic, Producer, World, update, store_producer}
use trig_emit_kafka.Machine.Returns
use trig_emit_kafka.Machine.Returns.{Returns, returns}
use trig_emit_kafka.Engine.Delivery.{serve}
use trig_emit_kafka.Engine.Producer.{poll_producer, flush_rk, producer_flush}
use trig_emit_kafka.Safety.Frame.{tally, Live, shape, live-shape, serve-Serves}

module _ ⦃E : Env⦄ where
  abbrev pub with_rk : Producer → E.Rk → Producer
  with_rk pr rk = record pr { rk = some rk }

  -- The producer at `p` has the handle `rk`, and each message in its out queue names a record that
  -- is still allocated. `pr` gives the other fields.
  pub record Running (producers : ℕ → Option Producer) (heap : ℕ → Option Topic) (p : ℕ)
      (pr : Producer) (rk : E.Rk) : Type 0 where
    pub at : producers p ≡ some (with_rk pr rk)
    pub flying : (a : ℕ) → 0 < count a (E.in_flight rk) → Live heap a

  abbrev pub Runs : World → ℕ → Producer → E.Rk → Type 0
  Runs w p pr rk = Running w.producers w.heap p pr rk

  -- From `w` to `v` reports were served: the handle moved on to `rk'`, whose queue holds no message
  -- that was not in the queue of `rk`. Each message of a record is still queued, or counted by now.
  pub record Settled (w v : World) (p : ℕ) (pr : Producer) (rk rk' : E.Rk) : Type 0 where
    pub producers : v.producers ≡ update w.producers p (some (with_rk pr rk'))
    pub shapes : (a : ℕ) → shape (v.heap a) ≡ shape (w.heap a)
    pub next : v.next ≡ w.next
    pub kt : v.kt ≡ w.kt
    pub drained : (a : ℕ) → count a (E.in_flight rk') ≤ count a (E.in_flight rk)
    pub conserved :
        (a : ℕ)
        → (tally (v.heap a) + count a (E.in_flight rk')) % 2 ^ 32
          ≡ (tally (w.heap a) + count a (E.in_flight rk)) % 2 ^ 32

  pub update_self : (w : World) (p : ℕ) (o : Option Producer) → update w.producers p o p ≡ o
  update_self w p o = ground arith

  pub Settled-Runs :
      {w v : World} {p : ℕ} {pr : Producer} {rk rk' : E.Rk}
      → Runs w p pr rk
      → Settled w v p pr rk rk'
      → Runs v p pr rk'
  Settled-Runs {w} {v} {p} {pr} {rk} {rk'} r s = record {
    at = ap (λ f. f p) s.producers ∙ update_self w p (some (with_rk pr rk'));
    flying = λ a h.
        live-shape (w.heap a) (v.heap a) (s.shapes a) (r.flying a (omega (arith, s.drained a)));
  }

  -- The reports that a call served reach the callback, once the handle after it is stored.
  settle :
      (w : World) (n p : ℕ) (pr : Producer) (rk rk' : E.Rk) (reports : List Report)
      → Runs w p pr rk
      → ((a : ℕ) → count a (E.in_flight rk) ≡ reported a reports + count a (E.in_flight rk'))
      → Returns
          (λ _ v. Settled w v p pr rk rk')
          (serve reports
            (record w { calls = n; producers = update w.producers p (some (with_rk pr rk')) }))
  settle w n p pr rk rk' reports r law =
      Returns.mono (serve-Serves reports _ (λ a h. r.flying a (omega (arith, law a)))) λ _ v s.
        record {
          producers = s.producers;
          shapes = s.shapes;
          next = s.next;
          kt = s.kt;
          drained = λ a. omega (arith, law a);
          conserved = λ a. omega (arith, law a, s.tallies a);
        }

  module _ (L : Laws) (w : World) (p : ℕ) (pr : Producer) (rk : E.Rk) (r : Runs w p pr rk) where
    -- What a poll leaves, by the handle that librdkafka leaves.
    pub poll_producer-Polled :
        Returns (λ _ v. Settled w v p pr rk (E.poll w.calls rk).1) (poll_producer p w)
    unfolding poll_producer store_producer
    poll_producer-Polled =
        rw (r.at, r.at) (settle w _ p pr rk (E.poll w.calls rk).1 _ r (L.poll_serves w.calls rk))

    pub poll_producer-Settled :
        Returns (λ _ v. (rk' : E.Rk) × Settled w v p pr rk rk') (poll_producer p w)
    poll_producer-Settled = Returns.mono poll_producer-Polled λ _ v s. (_, s)

    flush_rk-Settled :
        Returns
          (λ n v. (rk' : E.Rk) × Settled w v p pr rk rk' × (n ≡ E.outq_len rk'))
          (flush_rk p rk w)
    unfolding flush_rk store_producer
    flush_rk-Settled =
        rw (r.at, r.at)
          (Returns.bind (settle w _ p pr rk (E.flush w.calls rk).1 _ r (L.flush_serves w.calls rk))
            λ _ v s. returns ((E.flush w.calls rk).1, s, refl))

    -- A flush returns the length of the queue that it leaves.
    pub producer_flush-Settled :
        Returns
          (λ n v. (rk' : E.Rk) × Settled w v p pr rk rk' × (n ≡ E.outq_len rk'))
          (producer_flush (some p) w)
    unfolding producer_flush
    producer_flush-Settled = rw r.at flush_rk-Settled
