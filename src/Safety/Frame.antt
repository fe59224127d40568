-- ===== src/Safety/Frame.antt =====
-- What delivery reports leave alone: they change counters and the throttle of live records.
use trig_emit_kafka.Base.{
  ◌%◌, ◌^◌, if◌then◌else◌, ℕ, ◌+◌, ◌<◌, ◌≡◌, refl, ◌∙◌, inl, inr, true, Option, none, some, List,
  [], ◌∷◌, arith, is_some, Option-cases, Bool-cases, ◌==◌,
}
use trig_emit_kafka.Base.Bytes.{Str}
use trig_emit_kafka.Env.{reports_of, Env, Report, reported, no_error}
use trig_emit_kafka.Machine.{Topic, World, and_then, store_topic}
use trig_emit_kafka.Machine.Log.{LogLine}
use trig_emit_kafka.Machine.Returns
use trig_emit_kafka.Machine.Returns.{Returns, returns}
use trig_emit_kafka.Engine.Delivery.{
  log_delivery_failure, log_delivery_recovered, on_failure, on_success, print_if, deliver, serve,
}

module _ ⦃E : Env⦄ where
  abbrev pub Live : (ℕ → Option Topic) → ℕ → Type 0
  Live heap a = is_some (heap a) ≡ true

  -- The parts of a record that no report touches.
  abbrev pub shape : Option Topic → Option (Str × Option E.Rkt × ℕ)
  shape none = none
  shape (some topic) = some (topic.name, topic.rkt, topic.producer)

  -- How many delivery reports a record has counted.
  abbrev pub tally : Option Topic → ℕ
  tally none = 0
  tally (some topic) = topic.transferred + topic.failed

  -- From `w` to `v` reports were served, `reports a` of them for the record at `a`.
  pub record Serves (w : World) (reports : ℕ → ℕ) (v : World) : Type 0 where
    pub shapes : (a : ℕ) → shape (v.heap a) ≡ shape (w.heap a)
    pub producers : v.producers ≡ w.producers
    pub next : v.next ≡ w.next
    pub kt : v.kt ≡ w.kt
    pub tallies : (a : ℕ) → tally (v.heap a) % 2 ^ 32 ≡ (tally (w.heap a) + reports a) % 2 ^ 32

  pub Serves-refl : (w : World) → Serves w (λ _. 0) w
  Serves-refl w = record {
    shapes = λ a. refl;
    producers = refl;
    next = refl;
    kt = refl;
    tallies = λ a. omega arith;
  }

  pub Serves-trans :
      {u v w : World} {m n : ℕ → ℕ} → Serves u m v → Serves v n w → Serves u (λ a. m a + n a) w
  Serves-trans s t = record {
    shapes = λ a. t.shapes a ∙ s.shapes a;
    producers = t.producers ∙ s.producers;
    next = t.next ∙ s.next;
    kt = t.kt ∙ s.kt;
    tallies = λ a. omega (arith, s.tallies a, t.tallies a);
  }

  pub live-shape : (s t : Option Topic) → shape t ≡ shape s → is_some s ≡ true → is_some t ≡ true
  live-shape s t same live = ground arith

  on_failure-shape :
      (now : ℕ) (topic : Topic) (err : ℕ)
      → shape (some (on_failure now topic err).0) ≡ shape (some topic)
  unfolding on_failure
  on_failure-shape now topic err = ground arith

  on_success-shape : (topic : Topic) → shape (some (on_success topic).0) ≡ shape (some topic)
  unfolding on_success
  on_success-shape topic = ground arith

  on_failure-tally :
      (now : ℕ) (topic : Topic) (err : ℕ)
      → tally (some (on_failure now topic err).0) % 2 ^ 32 ≡ (tally (some topic) + 1) % 2 ^ 32
  unfolding on_failure log_delivery_failure
  on_failure-tally now topic err = ground arith

  on_success-tally :
      (topic : Topic)
      → tally (some (on_success topic).0) % 2 ^ 32 ≡ (tally (some topic) + 1) % 2 ^ 32
  unfolding on_success log_delivery_recovered
  on_success-tally topic = ground arith

  abbrev one_of : ℕ → ℕ → ℕ
  one_of a b = if b == a then 1 else 0

  record_report :
      (w : World) (a n : ℕ) (old new : Topic) (line : Option LogLine)
      → w.heap a ≡ some old
      → shape (some new) ≡ shape (some old)
      → tally (some new) % 2 ^ 32 ≡ (tally (some old) + 1) % 2 ^ 32
      → Returns
          (λ _ v. Serves w (one_of a) v)
          (and_then (store_topic a new (record w { calls = n })) (λ _. print_if line))
  unfolding store_topic print_if
  record_report w a n old new none e same more = rw e (
      returns (record {
        shapes = λ b. ground arith;
        producers = refl;
        next = refl;
        kt = refl;
        tallies = λ b. ground (arith, e, more);
      }))
  record_report w a n old new (some l) e same more = rw e (
      returns (record {
        shapes = λ b. ground arith;
        producers = refl;
        next = refl;
        kt = refl;
        tallies = λ b. ground (arith, e, more);
      }))

  deliver-Serves :
      (o : Option ℕ) (err : ℕ) (w : World)
      → ((a : ℕ) → o ≡ some a → Live w.heap a)
      → Returns
          (λ _ v. Serves w (λ a. reports_of a (record { opaque = o; err = err })) v)
          (deliver o err w)
  unfolding deliver
  deliver-Serves none err w live = returns (Serves-refl w)
  deliver-Serves (some a) err w live = elim (Option-cases (w.heap a)) [
    | inl e ↦ absurd (ground (arith, live a refl))
    | inr (topic, e) ↦ rw e (elim (Bool-cases (err == no_error)) [
      | inl fine ↦ rw fine (
          record_report w a w.calls topic _ (on_success topic).1 e (on_success-shape topic)
            (on_success-tally topic))
      | inr bad ↦ rw bad (
          record_report w a (w.calls + 1) topic _ _ e (on_failure-shape _ topic err)
            (on_failure-tally _ topic err))
    ])
  ]

  -- Reports of live records are served without a fault.
  pub serve-Serves :
      (rs : List Report) (w : World)
      → ((a : ℕ) → 0 < reported a rs → Live w.heap a)
      → Returns (λ _ v. Serves w (λ a. reported a rs) v) (serve rs w)
  unfolding serve
  serve-Serves [] w live = returns (Serves-refl w)
  serve-Serves (r ∷ rs) w live =
      Returns.bind (deliver-Serves r.opaque r.err w (λ a e. live a (ground arith))) λ _ v s.
        Returns.mono
          (serve-Serves rs v
            (λ a h. live-shape (w.heap a) (v.heap a) (s.shapes a) (live a (omega arith))))
          λ _ u t. Serves-trans s t
