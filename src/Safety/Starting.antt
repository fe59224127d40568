-- ===== src/Safety/Starting.antt =====
-- tek_kafka_producer_run(), and disposing of a producer that never ran.
use trig_emit_kafka.Base.{
  ℕ, ◌+◌, ◌≡◌, refl, ◌∙◌, true, false, Bool, Option, none, some, [], arith, inl, inr, ◌⊎◌,
  Bool-cases, ==_refl, Sum-cases,
}
use trig_emit_kafka.Base.Bytes.{Str}
use trig_emit_kafka.Env.{Env, Laws}
use trig_emit_kafka.Machine.{Producer, World, update, store_producer}
use trig_emit_kafka.Machine.Returns
use trig_emit_kafka.Machine.Returns.{Returns, returns}
use trig_emit_kafka.Engine.Producer.{
  Status, success, error, producer_run, start_thread, producer_dispose, stop_thread, join_if,
  release_handle, zero_producer,
}
use trig_emit_kafka.Safety.Disposing.{Disposed, release_record-Disposed}
use trig_emit_kafka.Safety.Setting.{Only, Only-update, configured}

module _ ⦃E : Env⦄ where
  -- Disposing of a producer that never ran.
  pub dispose_idle-Disposed :
      (w : World) (p : ℕ) (brokers : Option Str) (conf : Option E.Conf)
      → w.producers p ≡ some (record zero_producer { brokers = brokers; conf = conf })
      → Returns (λ _ v. Disposed w v p) (producer_dispose (some p) w)
  unfolding producer_dispose stop_thread join_if release_handle store_producer
  dispose_idle-Disposed w p brokers conf at =
      rw (at, at)
        (rw (==_refl p) (
          Returns.mono
            (release_record-Disposed _ p (record zero_producer { brokers = brokers; conf = conf })
              (rw (==_refl p) refl) refl)
            λ _ v (d, _). record {
              gone = d.gone;
              others = λ q ne. d.others q ne ∙ (rw ne refl);
              shapes = d.shapes;
              next = d.next;
              kt = d.kt;
            }))

  abbrev pub started_producer : Str → E.Rk → Bool → Producer
  started_producer brokers rk b = record zero_producer {
    brokers = some brokers;
    rk = some rk;
    running = b;
    thread_started = b;
  }

  -- Two writes to the producer.
  pub Only-update2 :
      (w u : World) (p : ℕ) (pr pr' : Producer)
      → u.producers ≡ update w.producers p (some pr)
      → u.heap ≡ w.heap
      → u.next ≡ w.next
      → u.kt ≡ w.kt
      → Only w (record u { producers = update u.producers p (some pr') }) p pr'
  Only-update2 w u p pr pr' prs heap next kt = record {
    at = ground (arith, ==_refl p);
    others = λ q ne. rw (ne, prs, ne) refl;
    heap = heap;
    next = next;
    kt = kt;
  }

  -- rd_kafka_new() made the handle of the configuration, with the callback for delivery reports.
  abbrev pub MadeOf : E.Conf → E.Rk → Type 0
  MadeOf conf rk = (n : ℕ) × (E.kafka_new n (E.set_dr_msg_cb conf) ≡ inr rk)

  -- How tek_kafka_producer_run() leaves the producer. `P` is what is known of the handle.
  abbrev pub RunPost : World → ℕ → Str → (E.Rk → Type 0) → Status → World → Type 0
  RunPost w p brokers P success v =
      (rk : E.Rk) × (E.in_flight rk ≡ []) × Only w v p (started_producer brokers rk true) × P rk
  RunPost w p brokers P (error _) v =
      ((conf : Option E.Conf) × Only w v p
          (record zero_producer { brokers = some brokers; conf = conf }))
      ⊎ ((rk : E.Rk) × (E.in_flight rk ≡ []) × Only w v p (started_producer brokers rk false))

  pub producer_run-RunPost :
      (L : Laws) (w : World) (p : ℕ) (brokers : Str) (conf : E.Conf) (errbuflen : Option ℕ)
      → w.producers p ≡ some (configured brokers conf)
      → Returns (RunPost w p brokers (MadeOf conf)) (producer_run p errbuflen w)
  unfolding producer_run start_thread store_producer
  producer_run-RunPost L w p brokers conf errbuflen at =
      rw at (elim (Sum-cases (E.kafka_new w.calls (E.set_dr_msg_cb conf))) [
        | inl (message, bad) ↦
            rw (bad, at)
              (returns (
                inl (
                  none,
                  Only-update w _ p (record zero_producer { brokers = some brokers }) refl refl refl
                      refl,
                )))
        | inr (rk, made) ↦
            rw (made, at, at)
              (elim (Bool-cases (E.pthread_create (w.calls + 1))) [
                | inl started ↦
                    rw (==_refl p, started, ==_refl p)
                      (returns (
                        rk,
                        L.started _ _ rk made,
                        Only-update2 w _ p _ _ refl refl refl refl,
                        (_, made),
                      ))
                | inr not_started ↦
                    rw (==_refl p, not_started, ==_refl p)
                      (returns (
                        inr
                          (rk, L.started _ _ rk made, Only-update2 w _ p _ _ refl refl refl refl)))
              ])
      ])
