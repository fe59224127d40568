-- ===== src/Safety/Functions/Inits.antt =====
-- The _init() functions of kafka-cmd-*.c.
use trig_emit_kafka.Base.{
  ◌+◌, ◌<◌, ◌≡◌, refl, Bool, true, false, ◌&&◌, ◌||◌, none, some, [], ◌∷◌, arith, inl, inr,
  Bool-cases, if◌then◌else◌, is_some, ltb, ◌==◌, length,
}
use trig_emit_kafka.Base.Bytes.{Str, c_str}
use trig_emit_kafka.Env.{Env}
use trig_emit_kafka.Machine.{World}
use trig_emit_kafka.Machine.Args.{
  Args, ItemResult, string_result, other_result, Init, accepted, refused, coerced, refuse, arg,
  max_topic_len,
}
use trig_emit_kafka.Machine.Returns.{Returns, returns}
use trig_emit_kafka.Table.Connection.{connected}
use trig_emit_kafka.Contract.{has}
use trig_emit_kafka.Safety.Holders.{registered}
use trig_emit_kafka.Safety.Calls.{table_exists-lookup}
use trig_emit_kafka.Safety.Promises.Views.{Sane, view}
use trig_emit_kafka.Safety.Promises.Topics.{has-lookup}
use trig_emit_kafka.Udf.Stats.{kafka_stats_init, check_kind, check_topic}
use trig_emit_kafka.Udf.Statement.{Value, given, named}
use trig_emit_kafka.Safety.Functions.Arguments.{copy_arg-c_str}

module _ ⦃E : Env⦄ where
  -- The arguments are accepted, as strings, exactly if the test holds, and nothing else happens.
  abbrev pub Decides : World → Args → Bool → Init Args → World → Type 0
  Decides w args test r v =
      (v ≡ w) × ((text : Str) × (r ≡ (if test then accepted (coerced args) else refused text)))

  refused-Decides :
      (w : World) (args : Args) (test : Bool) (text : Str)
      → test ≡ false
      → Returns (Decides w args test) (refuse text w)
  unfolding refuse
  refused-Decides w args test text e = rw e (returns {a = refused _} (refl, (_, refl)))

  -- Which topics kafka_stats() may be asked about: a value that is not constant, or a registered one.
  abbrev pub known : World → Value → Bool
  known w none = true
  known w (some bytes) = has (view w) (named max_topic_len (some bytes))

  check_topic-Decides :
      (w : World) (args : Args) (value : Value)
      → Sane w
      → Returns
          (λ r v.
            (v ≡ w)
            × ((text : Str) × (r ≡ (if known w value then accepted args else refused text))))
          (check_topic args (given value).bytes (given value).len w)
  unfolding check_topic refuse
  check_topic-Decides w args none s = returns (refl, ([], refl))
  check_topic-Decides w args (some bytes) s =
      elim (Bool-cases ((length bytes == 0) || ltb max_topic_len (length bytes))) [
        | inl bad ↦ rw bad (returns (refl, (_, refl)))
        | inr good ↦
            let fits : length bytes < max_topic_len + 1 = ground (arith, good) in
            rw
              (
                good,
                copy_arg-c_str (max_topic_len + 1) bytes w fits,
                table_exists-lookup w (some (c_str bytes)) s.inv,
                has-lookup w (some (c_str bytes)),
              )
              (elim (Bool-cases (registered w (c_str bytes))) [
                | inl here ↦ rw here (returns (refl, ([], refl)))
                | inr missing ↦ rw missing (returns {a = refused _} (refl, (_, refl)))
              ])
      ]

  abbrev is_string : ItemResult → Bool
  is_string string_result = true
  is_string other_result = false

  -- kafka_stats_init() on one argument, from a state that calls can lead to, always returns and changes
  -- nothing. It accepts exactly if the argument is a string, there is a connection, and the argument is
  -- not constant or NULL, or else neither empty nor too long and a registered topic has the name that
  -- stands before its first 0.
  pub stats_init-Decides :
      (w : World) (kind : ItemResult) (value : Value)
      → Sane w
      → Returns
          (Decides w
            (record (given value) { kind = kind } ∷ [])
            (is_string kind && (is_some w.kt.producer && known w value)))
          (kafka_stats_init (record (given value) { kind = kind } ∷ []) w)
  unfolding kafka_stats_init arg check_kind connected
  stats_init-Decides w other_result value s =
      refused-Decides w (record (given value) { kind = other_result } ∷ []) false _ refl
  stats_init-Decides w string_result value s = elim (Bool-cases (is_some w.kt.producer)) [
    | inr idle ↦
        rw idle
          (refused-Decides w (record (given value) { kind = string_result } ∷ []) false _ refl)
    | inl busy ↦ rw busy (check_topic-Decides w _ value s)
  ]
