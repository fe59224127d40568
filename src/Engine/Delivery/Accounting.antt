-- ===== src/Engine/Delivery/Accounting.antt =====
-- The reports of one topic, one after the other, and what its counters and its log lines add up to.
use trig_emit_kafka.Base.{
  ℕ, suc, ◌+◌, ◌-◌, ◌%◌, ◌^◌, ◌≤◌, ◌<◌, ◌≡◌, Option, none, some, List, [], ◌∷◌, arith,
  if◌then◌else◌, ◌==◌, length,
}
use trig_emit_kafka.Env.{Env, no_error}
use trig_emit_kafka.Machine.{Topic}
use trig_emit_kafka.Machine.Log.{
  LogLine, delivery_failed, delivery_failed_and_more, delivery_recovered_unreported,
}
use trig_emit_kafka.Engine.Delivery.{on_failure, on_success}

-- One report of the topic: its error code, and the time at which the callback runs.
pub record Event : Type 0 where
  pub now : ℕ
  pub err : ℕ

-- How many failures a line tells of.
abbrev pub told : Option LogLine → ℕ
told none = 0
told (some (delivery_failed _ _)) = 1
told (some (delivery_failed_and_more _ _ n _)) = suc n
told (some (delivery_recovered_unreported _ n)) = n
told (some _) = 0

abbrev pub is_failure : Event → ℕ
is_failure e = if e.err == no_error then 0 else 1

abbrev pub failures : List Event → ℕ
failures [] = 0
failures (e ∷ es) = is_failure e + failures es

abbrev pub successes : List Event → ℕ
successes [] = 0
successes (e ∷ es) = (1 - is_failure e) + successes es

is_failure-le : (e : Event) → is_failure e ≤ 1
is_failure-le e = ground arith

module _ ⦃E : Env⦄ where
  -- dr_msg_cb() on the record.
  unfoldable pub receive : Topic → Event → Topic × Option LogLine
  unfolding on_failure on_success
  receive tt e = if e.err == no_error then on_success tt else on_failure e.now tt e.err

  unfoldable pub receive_all : Topic → List Event → Topic
  receive_all tt [] = tt
  receive_all tt (e ∷ es) = receive_all (receive tt e).0 es

  -- The failures that the lines written meanwhile tell of.
  unfoldable pub told_all : Topic → List Event → ℕ
  told_all tt [] = 0
  told_all tt (e ∷ es) = told (receive tt e).1 + told_all (receive tt e).0 es

  receive-told :
      (tt : Topic) (e : Event)
      → tt.suppressed + 1 < 2 ^ 32
      → tt.suppressed + is_failure e ≡ told (receive tt e).1 + (receive tt e).0.suppressed
  unfolding receive
  receive-told tt e h = ground arith

  -- However failures and successes alternate, and whatever the times: each failure is told of in
  -- exactly one log line or is still counted as suppressed, as long as that count cannot wrap.
  pub told_all-failures :
      (tt : Topic) (es : List Event)
      → tt.suppressed + length es < 2 ^ 32
      → tt.suppressed + failures es ≡ told_all tt es + (receive_all tt es).suppressed
  unfolding receive_all told_all
  told_all-failures tt [] h = omega arith
  told_all-failures tt (e ∷ es) h =
      let step = receive-told tt e (omega arith) in
      omega
        (arith, step, told_all-failures (receive tt e).0 es (omega (arith, step, is_failure-le e)))

  receive-counts :
      (tt : Topic) (e : Event)
      → ((receive tt e).0.failed % 2 ^ 32 ≡ (tt.failed + is_failure e) % 2 ^ 32)
        × ((receive tt e).0.transferred % 2 ^ 32 ≡ (tt.transferred + (1 - is_failure e)) % 2 ^ 32)
  unfolding receive
  receive-counts tt e = ground arith

  -- The two counters that kafka_stats() reports count the reports of each kind, modulo 2 ^ 32.
  pub receive_all-counts :
      (tt : Topic) (es : List Event)
      → ((receive_all tt es).failed % 2 ^ 32 ≡ (tt.failed + failures es) % 2 ^ 32)
        × ((receive_all tt es).transferred % 2 ^ 32 ≡ (tt.transferred + successes es) % 2 ^ 32)
  unfolding receive_all
  receive_all-counts tt [] = omega arith
  receive_all-counts tt (e ∷ es) =
      let step = receive-counts tt e in
      let rest = receive_all-counts (receive tt e).0 es in
      (omega (arith, step.0, rest.0), omega (arith, step.1, rest.1))
