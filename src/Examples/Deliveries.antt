-- ===== src/Examples/Deliveries.antt =====
-- The theorems on delivery reports, applied to one topic during an outage.
use trig_emit_kafka.Base.{◌+◌, ◌*◌, ◌%◌, ◌^◌, ◌≤◌, ◌≡◌, refl, none, List, [], ◌∷◌, arith}
use trig_emit_kafka.Base.Bytes.{codes}
use trig_emit_kafka.Machine.{Topic}
use trig_emit_kafka.Engine.Delivery.{error_log_interval}
use trig_emit_kafka.Engine.Delivery.Accounting.{
  Event, failures, successes, told_all, receive_all, told_all-failures, receive_all-counts,
}
use trig_emit_kafka.Engine.Delivery.Throttle.{lines, lines-Outage}
use trig_emit_kafka.Examples.{small}

-- A topic that the log spoke of at 100, and that failed twice since.
abbrev failing : Topic ⦃E = small⦄
failing = record {
  name = codes "orders";
  rkt = none;
  producer = 0;
  transferred = 4294967295;
  failed = 3;
  last_err = 9;
  last_log_time = 100;
  suppressed = 2;
}

abbrev outage : List Event
outage =
    record { now = 110; err = 9 }
    ∷ record { now = 165; err = 9 }
    ∷ record { now = 170; err = 9 }
    ∷ []

abbrev mixed : List Event
mixed = record { now = 110; err = 9 } ∷ record { now = 111; err = 0 } ∷ []

told_all-failures_example :
    2 + failures mixed
    ≡ told_all ⦃E = small⦄ failing mixed + (receive_all ⦃E = small⦄ failing mixed).suppressed
told_all-failures_example = told_all-failures ⦃E = small⦄ failing mixed (omega arith)

receive_all-counts_example :
    ((receive_all ⦃E = small⦄ failing mixed).failed % 2 ^ 32 ≡ (3 + failures mixed) % 2 ^ 32)
    × ((receive_all ⦃E = small⦄ failing mixed).transferred % 2 ^ 32
        ≡ (4294967295 + successes mixed) % 2 ^ 32)
receive_all-counts_example = receive_all-counts ⦃E = small⦄ failing mixed

lines-Outage_example : 100 + error_log_interval * lines ⦃E = small⦄ failing outage ≤ 170
lines-Outage_example =
    lines-Outage ⦃E = small⦄ failing outage 9 170 (λ e. absurd (omega (arith, e))) refl
      (omega arith) ((refl, omega arith), ((refl, omega arith), ((refl, omega arith), tt)))
