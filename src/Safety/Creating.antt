-- ===== src/Safety/Creating.antt =====
-- tek_kafka_producer_create().
use trig_emit_kafka.Base.{
  ℕ, suc, ◌+◌, ◌≤◌, ◌≡◌, refl, ◌∙◌, ap, false, Option, none, some, arith, inl, inr, ◌⊎◌, Bool-cases,
  ◌==◌, ==_refl,
}
use trig_emit_kafka.Base.Bytes.{Str, zstr}
use trig_emit_kafka.Env.{Env}
use trig_emit_kafka.Machine.{Producer, World, update, store_producer, new_producer}
use trig_emit_kafka.Machine.Returns
use trig_emit_kafka.Machine.Returns.{Returns, returns}
use trig_emit_kafka.Engine.Producer.{default_params, abandon, producer_create, zero_producer}
use trig_emit_kafka.Safety.Frame.{shape}
use trig_emit_kafka.Safety.Disposing.{Disposed}
use trig_emit_kafka.Safety.Configuring.{Taken-true, set_defaults-Only}
use trig_emit_kafka.Safety.Setting.{configure, Only, configured}
use trig_emit_kafka.Safety.Starting.{dispose_idle-Disposed}

module _ ⦃E : Env⦄ where
  -- From `w` to `v` a connection was tried: the topics and the table are as before, and so is every
  -- producer but the one at the address that was free.
  pub record Tried (w v : World) : Type 0 where
    pub shapes : (a : ℕ) → shape (v.heap a) ≡ shape (w.heap a)
    pub next : w.next ≤ v.next
    pub kt : v.kt ≡ w.kt
    pub others : (q : ℕ) → (q == w.next) ≡ false → v.producers q ≡ w.producers q

  -- Giving a producer up leaves none behind.
  abbrev pub GivenUp : World → World → Type 0
  GivenUp w v =
      Tried w v × ((v.producers w.next ≡ none) ⊎ (v.producers w.next ≡ w.producers w.next))

  abbrev pub enlarged : World → ℕ → Producer → World
  enlarged w n pr = record w {
    producers = update (update w.producers w.next (some zero_producer)) w.next (some pr);
    next = suc w.next;
    calls = n;
  }

  pub Tried-refl : (w : World) (n : ℕ) → Tried w (record w { calls = n })
  Tried-refl w n = record {
    shapes = λ a. refl;
    next = omega arith;
    kt = refl;
    others = λ q ne. refl;
  }

  pub Tried-enlarged : (w : World) (n : ℕ) (pr : Producer) → Tried w (enlarged w n pr)
  Tried-enlarged w n pr = record {
    shapes = λ a. refl;
    next = omega arith;
    kt = refl;
    others = λ q ne. rw ne refl;
  }

  pub enlarged-at :
      (w : World) (n : ℕ) (pr : Producer) → (enlarged w n pr).producers w.next ≡ some pr
  enlarged-at w n pr = rw (==_refl w.next) refl

  pub Only-Tried :
      (w v : World) (n : ℕ) (pr0 pr : Producer) → Only (enlarged w n pr0) v w.next pr → Tried w v
  Only-Tried w v n pr0 pr o = record {
    shapes = λ a. ap (λ f. shape (f a)) o.heap;
    next = omega (arith, o.next);
    kt = o.kt;
    others = λ q ne. o.others q ne ∙ (rw ne refl);
  }

  pub Disposed-GivenUp : (w u v : World) → Tried w u → Disposed u v w.next → GivenUp w v
  Disposed-GivenUp w u v t d = (
    record {
      shapes = λ a. d.shapes a ∙ t.shapes a;
      next = omega (arith, d.next, t.next);
      kt = d.kt ∙ t.kt;
      others = λ q ne. d.others q ne ∙ t.others q ne;
    },
    inl d.gone,
  )

  -- What tek_kafka_producer_create() leaves.
  abbrev pub Created : World → Str → Option ℕ → World → Type 0
  Created w brokers none v = GivenUp w v
  Created w brokers (some p) v =
      (p ≡ w.next)
      × ((n : ℕ) × (pr0 : Producer) × (conf : E.Conf) × Only (enlarged w n pr0) v w.next
            (configured brokers conf)
          × (configure E.conf_new (default_params brokers) ≡ inr conf))

  pub producer_create-Created :
      (w : World) (brokers : Str) → Returns (Created w brokers) (producer_create brokers w)
  unfolding producer_create abandon store_producer new_producer
  producer_create-Created w brokers = elim (Bool-cases (zstr (some brokers))) [
    | inl empty ↦ rw empty (returns (Tried-refl w w.calls, inr refl))
    | inr filled ↦ rw filled (elim (Bool-cases (E.malloc w.calls)) [
      | inr no_record ↦ rw no_record (returns (Tried-refl w _, inr refl))
      | inl allocated ↦
          rw (allocated, ==_refl w.next)
            (elim (Bool-cases (E.malloc (w.calls + 1))) [
              | inr not_copied ↦ rw not_copied (abandoned _ _ _)
              | inl copied ↦ rw copied (elim (Bool-cases (E.malloc (w.calls + 1 + 1))) [
                | inr no_conf ↦ rw no_conf (abandoned _ _ _)
                | inl conf_made ↦ rw conf_made (
                    Returns.bind
                      (set_defaults-Only (default_params brokers)
                        (enlarged w (w.calls + 1 + 1 + 1) (configured brokers E.conf_new)) w.next
                        brokers E.conf_new (enlarged-at w (w.calls + 1 + 1 + 1) _))
                      λ b v (conf, o, taken). elim (Bool-cases b) [
                        | inl applied ↦ rw applied (
                            returns {a = some w.next} (
                              refl,
                              (
                                w.calls + 1 + 1 + 1,
                                configured brokers E.conf_new,
                                conf,
                                o,
                                Taken-true b _ _ _ applied taken,
                              ),
                            ))
                        | inr refused ↦ rw refused (
                            Returns.bind
                              (dispose_idle-Disposed v w.next (some brokers) (some conf) o.at)
                              λ _ u d. returns (Disposed-GivenUp w v u (Only-Tried w v _ _ _ o) d))
                      ])
              ])
            ])
    ])
  ]
    where
      abandoned :
          (n : ℕ) (b : Option Str) (c : Option E.Conf)
          → Returns
              (Created w brokers)
              (abandon w.next (enlarged w n (record zero_producer { brokers = b; conf = c })))
      abandoned n b c =
          Returns.bind
            (dispose_idle-Disposed _ w.next b c
              (enlarged-at w n (record zero_producer { brokers = b; conf = c })))
            λ _ v d. returns (Disposed-GivenUp w _ v (Tried-enlarged w n _) d)
