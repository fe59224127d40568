-- ===== src/Engine/Delivery.antt =====
-- kafka-engine.c, lines 25 to 86: what happens when a message's delivery report arrives, and the
-- throttled log of delivery failures.
pub mod Accounting
pub mod Throttle
use trig_emit_kafka.Base.{
  ℕ, ◌+◌, ◌%◌, ◌^◌, Bool, Option, none, some, List, [], ◌∷◌, if◌then◌else◌, ◌==◌, ltb, ◌&&◌,
}
use trig_emit_kafka.Base.Int.{sub_ℕ}
use trig_emit_kafka.Env.{Env, Report, no_error}
use trig_emit_kafka.Machine.{Topic, M, pure, ◌>>=◌, ◌>>◌, time, print, load_topic, store_topic}
use trig_emit_kafka.Machine.Log.{
  LogLine, delivery_failed, delivery_failed_and_more, delivery_recovered,
  delivery_recovered_unreported,
}

-- KAFKA_ERROR_LOG_INTERVAL_S
abbrev pub error_log_interval : ℕ
error_log_interval = 60

-- One more, as a uint32_t.
abbrev pub inc32 : ℕ → ℕ
inc32 n = (n + 1) % 2 ^ 32

module _ ⦃E : Env⦄ where
  -- Same error, and less than the interval since the last line: `now - last_log_time` is signed
  -- in the source, so the comparison is written as a sum.
  unfoldable pub is_throttled : ℕ → Topic → ℕ → Bool
  is_throttled now tt err = (err == tt.last_err) && ltb now (tt.last_log_time + error_log_interval)

  unfoldable pub failure_line : ℕ → Topic → ℕ → LogLine
  failure_line now tt err =
      if ltb 0 tt.suppressed
      then delivery_failed_and_more tt.name err tt.suppressed (sub_ℕ now tt.last_log_time)
      else delivery_failed tt.name err

  -- log_delivery_failure() at the time `now`: the record after, and the line, if one is written.
  unfoldable pub log_delivery_failure : ℕ → Topic → ℕ → Topic × Option LogLine
  unfolding is_throttled failure_line
  log_delivery_failure now tt err =
      if is_throttled now tt err then (record tt { suppressed = inc32 tt.suppressed }, none) else (
        record tt { last_err = err; last_log_time = now; suppressed = 0 },
        some (failure_line now tt err),
      )

  -- log_delivery_recovered()
  unfoldable pub log_delivery_recovered : Topic → Topic × LogLine
  log_delivery_recovered tt = (
    record tt { last_err = no_error; last_log_time = 0; suppressed = 0 },
    (if ltb 0 tt.suppressed
        then delivery_recovered_unreported tt.name tt.suppressed
        else delivery_recovered tt.name),
  )

  -- The branch of dr_msg_cb() for a message that failed, on the record.
  unfoldable pub on_failure : ℕ → Topic → ℕ → Topic × Option LogLine
  unfolding log_delivery_failure
  on_failure now tt err = log_delivery_failure now (record tt { failed = inc32 tt.failed }) err

  -- The branch for a message that was delivered.
  unfoldable pub on_success : Topic → Topic × Option LogLine
  unfolding log_delivery_recovered
  on_success tt =
      let (tt', line) = log_delivery_recovered tt in
      if tt.last_err == no_error
      then (record tt { transferred = inc32 tt.transferred }, none)
      else (record tt' { transferred = inc32 tt.transferred }, some line)

  unfoldable pub print_if : Option LogLine → M (Unit {0})
  print_if none = pure tt
  print_if (some l) = print l

  -- What dr_msg_cb() does with `rkmessage->_private` and `rkmessage->err`.
  unfoldable pub deliver : Option ℕ → ℕ → M (Unit {0})
  deliver none err = pure tt
  deliver (some a) err = load_topic a >>= λ topic.
      if err == no_error
      then (store_topic a (on_success topic).0 >> print_if (on_success topic).1)
      else (time >>= λ now.
          store_topic a (on_failure now topic err).0 >> print_if (on_failure now topic err).1)

  -- dr_msg_cb()
  abbrev pub dr_msg_cb : Report → M (Unit {0})
  dr_msg_cb r = deliver r.opaque r.err

  -- The reports that one call of librdkafka serves.
  unfoldable pub serve : List Report → M (Unit {0})
  serve [] = pure tt
  serve (r ∷ rs) = dr_msg_cb r >> serve rs
