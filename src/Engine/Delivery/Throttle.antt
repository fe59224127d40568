-- ===== src/Engine/Delivery/Throttle.antt =====
-- How often the throttled log writes a line.
use trig_emit_kafka.Base.{
  ℕ, ◌+◌, ◌*◌, ◌≤◌, ◌≡◌, ◌≢◌, List, [], ◌∷◌, All, arith, is_some, if◌then◌else◌,
}
use trig_emit_kafka.Env.{Env, no_error}
use trig_emit_kafka.Machine.{Topic}
use trig_emit_kafka.Engine.Delivery.{error_log_interval}
use trig_emit_kafka.Engine.Delivery.Accounting.{Event, receive}

module _ ⦃E : Env⦄ where
  abbrev pub lines : Topic → List Event → ℕ
  lines tt [] = 0
  lines tt (e ∷ es) = (if is_some (receive tt e).1 then 1 else 0) + lines (receive tt e).0 es

  abbrev pub Outage : ℕ → ℕ → List Event → Type 0
  Outage err until = All λ e. (e.err ≡ err) × (e.now ≤ until)

  receive-interval :
      (tt : Topic) (e : Event) (err until : ℕ)
      → err ≢ no_error
      → tt.last_err ≡ err
      → tt.last_log_time ≤ until
      → e.err ≡ err
      → e.now ≤ until
      → (tt.last_log_time + (if is_some (receive tt e).1 then error_log_interval else 0)
          ≤ (receive tt e).0.last_log_time)
        × ((receive tt e).0.last_log_time ≤ until)
        × ((receive tt e).0.last_err ≡ err)
  unfolding receive
  receive-interval tt e err until ne same before h k = ground arith

  -- While every report fails with the error that was written of last, the lines are at least the
  -- interval apart: there are at most as many as intervals fit between the last line and the last
  -- report.
  pub lines-Outage :
      (tt : Topic) (es : List Event) (err until : ℕ)
      → err ≢ no_error
      → tt.last_err ≡ err
      → tt.last_log_time ≤ until
      → Outage err until es
      → tt.last_log_time + error_log_interval * lines tt es ≤ until
  lines-Outage tt [] err until ne same before h = omega arith
  lines-Outage tt (e ∷ es) err until ne same before h =
      let step = receive-interval tt e err until ne same before h.0.0 h.0.1 in
      ground (arith, step, lines-Outage (receive tt e).0 es err until ne step.2 step.1 h.1)
