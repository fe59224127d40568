-- ===== src/Safety/Functions/Texts.antt =====
-- The SQL functions that return a text: kafka_stats() and kafka_info().
use trig_emit_kafka.Base.{
  ◌++◌, ℕ, ◌+◌, ◌-◌, ◌/◌, ◌<◌, ◌≡◌, refl, ◌∙◌, ap, ◌||◌, Option, none, some, [], ◌∷◌, arith, inl,
  inr, Bool-cases, Option-cases, ltb, ◌==◌, length, take_of_le, length-take,
}
use trig_emit_kafka.Base.Bytes.{Str, codes, print_int, snprintf}
use trig_emit_kafka.Base.Int.{to_int}
use trig_emit_kafka.Env.{Env, Laws}
use trig_emit_kafka.Machine.{World, Producer, ok}
use trig_emit_kafka.Machine.Args.{
  arg, max_topic_len, max_setup_var_len, info_max_len, udf_result_len,
}
use trig_emit_kafka.Machine.Returns
use trig_emit_kafka.Machine.Returns.{Returns, returns}
use trig_emit_kafka.Table.Registry.{table_get_stats}
use trig_emit_kafka.Table.Describe.{get_brokers}
use trig_emit_kafka.Table.Describe.Text.{text, Alike, describe_params-hides}
use trig_emit_kafka.Contract.{Same}
use trig_emit_kafka.Safety.Invariant.{Inv}
use trig_emit_kafka.Safety.Calls.{table_get_stats-Fed}
use trig_emit_kafka.Safety.Promises.Views.{Sane, view, Fed-Same}
use trig_emit_kafka.Udf.Info.{Text, UdfInit, clamp_written, write_text, info_text, kafka_info}
use trig_emit_kafka.Udf.Stats.{kafka_stats, stats_text, stats_topic}
use trig_emit_kafka.Udf.Reading.{length-stats_text}
use trig_emit_kafka.Udf.Statement.{Value, given, named}
use trig_emit_kafka.Safety.Functions.Arguments.{copy_arg-c_str}

-- A text as long as it says.
abbrev pub whole : Str → Text
whole t = record { text = t; len = length t }

-- A clamped write says how long the text is that it leaves, which fits the buffer.
write_text-len :
    (size : ℕ) (full : Str)
    → 0 < size
    → (write_text size full ≡ whole (snprintf size full)) × (length (snprintf size full) < size)
write_text-len size full h =
    let cut = length-take (size - 1) full in
    let same : clamp_written size (length full) ≡ length (snprintf size full) =
      ground (arith, cut) in
    (ap (λ n. record { text = snprintf size full; len = n }) same, omega (arith, cut))

-- A text that fits is written as it is.
write_text-whole : (size : ℕ) (full : Str) → length full < size → write_text size full ≡ whole full
write_text-whole size full h =
    (write_text-len size full (omega arith)).0 ∙ ap whole (take_of_le (size - 1) full (omega arith))

-- The topic that kafka_stats() asks about; the empty string where there is none.
abbrev pub asked_topic : Option Str → Str
asked_topic none = []
asked_topic (some name) = name

-- A line in front of a text.
abbrev line : Str → Str → Str
line s rest = s ++ (b'\n' ∷ rest)

-- What is said of the connection.
abbrev connection : Option Str → Str
connection none = codes "Not connected"
connection (some brokers) = brokers

module _ ⦃E : Env⦄ where
  stats_topic-named :
      (w : World) (value : Value)
      → stats_topic (given value).bytes (given value).len w
        ≡ ok (asked_topic (named max_topic_len value)) w
  unfolding stats_topic
  stats_topic-named w none = refl
  stats_topic-named w (some bytes) =
      elim (Bool-cases ((length bytes == 0) || ltb max_topic_len (length bytes))) [
        | inl bad ↦ rw bad refl
        | inr good ↦
            let fits : length bytes < max_topic_len + 1 = ground (arith, good) in
            rw (good, copy_arg-c_str (max_topic_len + 1) bytes w fits) refl
      ]

  -- kafka_stats() on one argument, from a state that calls can lead to, always returns, to such a state,
  -- and nothing that a session can tell of the table changes. The result is the whole text, which is
  -- never cut off, of the two numbers that kafka_table_get_stats() returns for the topic; a topic that
  -- is NULL, empty or too long is asked for as the empty name.
  pub kafka_stats-text :
      (L : Laws) (w : World) (value : Value)
      → Sane w
      → Returns
          (λ t v.
            (Sane v × Same (view w) (view v))
            × ((counts : ℕ × ℕ) × (table_get_stats
                    (some (asked_topic (named max_topic_len value)))
                    w
                  ≡ ok counts v)
                × (t ≡ whole (stats_text counts.0 counts.1))))
          (kafka_stats (given value ∷ []) w)
  unfolding kafka_stats arg
  kafka_stats-text L w value s =
      let topic = some (asked_topic (named max_topic_len value)) in
      let (counts, v, run, (f, _)) = Returns.Returns-ok (table_get_stats-Fed L w topic s.inv) in
      rw (stats_topic-named w value, run) (returns (Fed-Same w v s f, (counts, refl, fits counts)))
    where
      fits :
          (counts : ℕ × ℕ)
          → write_text udf_result_len (stats_text counts.0 counts.1)
            ≡ whole (stats_text counts.0 counts.1)
      fits (transferred, failed) =
          let short = length-stats_text transferred failed in
          write_text-whole udf_result_len (stats_text transferred failed) (omega arith)

  -- The brokers that kafka_table_get_brokers() finds: those of the connection, as far as they fit.
  abbrev brokers_at : Option Producer → Option Str
  brokers_at none = none
  brokers_at (some pr) = elim pr.brokers [
    | none ↦ none
    | some brokers ↦ some (snprintf (max_setup_var_len + 1) brokers)
  ]

  abbrev connected_brokers : (ℕ → Option Producer) → Option ℕ → Option Str
  connected_brokers producers none = none
  connected_brokers producers (some p) = brokers_at (producers p)

  abbrev pub brokers_of : World → Option Str
  brokers_of w = connected_brokers w.producers w.kt.producer

  get_brokers-brokers_of :
      (w : World) → Inv w → get_brokers (max_setup_var_len + 1) w ≡ ok (brokers_of w) w
  unfolding get_brokers
  get_brokers-brokers_of w i = elim (Option-cases w.kt.producer) [
    | inl idle ↦ rw idle refl
    | inr (p, e) ↦
        let c = i.connected p e in
        rw (e, c.runs.at)
          (elim (Option-cases c.pr.brokers) [
            | inl nobody ↦ rw nobody refl
            | inr (brokers, there) ↦ rw there refl
          ])
  ]

  -- What kafka_info() shows of a table, line by line: the version, the brokers of the connection or
  -- that there is none, the number of parameters, and the lines of all parameters, cut off in a buffer
  -- of half the size.
  abbrev pub shown : Str → World → Str
  shown commit w = line (codes "Version: trigemit-kafka-" ++ commit) (
      line (codes "Brokers: " ++ connection (brokers_of w)) (
        line (codes "Parameters: " ++ print_int (to_int (length w.kt.params)))
          (snprintf (info_max_len / 2) (text w.kt.params))))

  -- Two states with the same brokers, whose parameters have the same names in the same order and differ
  -- only in values where the name contains "password" or "secret", are shown by kafka_info() as the same
  -- text, where the invariant holds of both.
  pub kafka_info-hides :
      (w v : World) (commit : Str) (initid : UdfInit) (buf : Str)
      → Inv w
      → Inv v
      → initid.ptr ≡ some buf
      → brokers_of w ≡ brokers_of v
      → Alike w.kt.params v.kt.params
      → (t : Text) × (kafka_info commit initid w ≡ ok t w) × (kafka_info commit initid v ≡ ok t v)
  unfolding kafka_info
  kafka_info-hides w v commit initid buf i j e same params =
      let (r, run, run') = describe_params-hides w v (info_max_len / 2) (omega arith) params in
      (
        write_text info_max_len (info_text commit (brokers_of w) r.0 r.1),
        rw (get_brokers-brokers_of w i, run, e) refl,
        rw (get_brokers-brokers_of v j, run', e, same) refl,
      )
