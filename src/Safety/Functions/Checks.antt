-- ===== src/Safety/Functions/Checks.antt =====
-- kafka_connection_param_init().
use trig_emit_kafka.Base.{
  ℕ, ◌+◌, ◌<◌, ◌≡◌, refl, ap, Bool, true, false, not, ◌&&◌, ◌||◌, none, some, [], ◌∷◌, arith, inl,
  inr, Bool-cases, Sum-cases, is_some, ltb, ◌==◌, length,
}
use trig_emit_kafka.Base.Bytes.{Str, c_str, zstr}
use trig_emit_kafka.Env.{Env}
use trig_emit_kafka.Machine.{World}
use trig_emit_kafka.Machine.Args.{
  Args, Init, accepted, refused, refuse, arg, max_setup_var_len, errbuf_len,
}
use trig_emit_kafka.Machine.Returns
use trig_emit_kafka.Machine.Returns.{Returns, returns}
use trig_emit_kafka.Engine.Producer.{Status, success, error}
use trig_emit_kafka.Table.Connection.{connected}
use trig_emit_kafka.Table.Params.{validate_param}
use trig_emit_kafka.Udf.Param.{kafka_connection_param_init, check_constants, validated}
use trig_emit_kafka.Udf.Statement.{Value, given}
use trig_emit_kafka.Safety.Functions.Arguments.{copy_arg-c_str}

module _ ⦃E : Env⦄ where
  -- What kafka_table_validate_param() tells of two strings.
  abbrev accepts_text : Str → Str → Bool
  accepts_text name value =
      not (zstr (some name))
      && elim (E.conf_set E.conf_new name value) [ inl _ ↦ false | inr _ ↦ true ]

  abbrev Verdict : World → Str → Str → Status → World → Type 0
  Verdict w name value success v =
      (v ≡ record w { calls = v.calls }) × (accepts_text name value ≡ true)
  Verdict w name value (error message) v =
      (v ≡ record w { calls = v.calls }) × (is_some message ≡ true)

  validate_param-Verdict :
      (w : World) (name value : Str) (n : ℕ)
      → Returns (Verdict w name value) (validate_param (some name) (some value) n w)
  unfolding validate_param
  validate_param-Verdict w name value n = elim (Bool-cases (zstr (some name))) [
    | inl empty ↦ rw empty (returns (refl, refl))
    | inr filled ↦ rw filled (elim (Bool-cases (E.malloc w.calls)) [
      | inr failed ↦ rw failed (returns (refl, refl))
      | inl allocated ↦ rw allocated (elim (Sum-cases (E.conf_set E.conf_new name value)) [
        | inl (message, bad) ↦ rw bad (returns (refl, refl))
        | inr (conf, good) ↦ rw good (returns (refl, rw (filled, good) refl))
      ])
    ])
  ]

  -- Which properties kafka_connection_param() may be asked for: if both values are constant, the name is
  -- neither empty nor too long, the value is not too long, and librdkafka takes the strings.
  abbrev pub acceptable : Value → Value → Bool
  acceptable none value = true
  acceptable (some name) none = true
  acceptable (some name) (some value) =
      not (
        (length name == 0)
        || (ltb max_setup_var_len (length name) || ltb max_setup_var_len (length value)))
      && accepts_text (c_str name) (c_str value)

  abbrev is_accepted : Init Args → Bool
  is_accepted (accepted _) = true
  is_accepted (refused _) = false

  -- Accepting needs what the test says, and nothing but allocations happens.
  abbrev pub Checks : World → Bool → Init Args → World → Type 0
  Checks w test r v = (v ≡ record w { calls = v.calls }) × ((is_accepted r && not test) ≡ false)

  validated-Checks :
      (w v : World) (args : Args) (name value : Str) (status : Status)
      → Verdict w name value status v
      → Returns (Checks w (accepts_text name value)) (validated args status v)
  unfolding validated refuse
  validated-Checks w v args name value success (e, good) = returns {a = accepted _} (e, ap not good)
  validated-Checks w v args name value (error (some text)) (e, h) =
      returns {a = refused _} (e, refl)
  validated-Checks w v args name value (error none) (e, h) = absurd (cc)

  check_constants-Checks :
      (w : World) (args : Args) (name value : Value)
      → Returns (Checks w (acceptable name value)) (
          check_constants args
            (given name).bytes
            (given name).len
            (given value).bytes
            (given value).len
            w)
  unfolding check_constants refuse
  check_constants-Checks w args none value = returns {a = accepted _} (refl, refl)
  check_constants-Checks w args (some name) none = returns {a = accepted _} (refl, refl)
  check_constants-Checks w args (some name) (some value) =
      elim (Bool-cases (
        (length name == 0)
        || (ltb max_setup_var_len (length name) || ltb max_setup_var_len (length value)))) [
          | inl bad ↦ rw bad (returns {a = refused _} (refl, refl))
          | inr good ↦
              let name_fits : length name < max_setup_var_len + 1 = ground (arith, good) in
              let value_fits : length value < max_setup_var_len + 1 = ground (arith, good) in
              rw
                (
                  good,
                  copy_arg-c_str (max_setup_var_len + 1) name w name_fits,
                  copy_arg-c_str (max_setup_var_len + 1) value w value_fits,
                )
                (Returns.bind (validate_param-Verdict w (c_str name) (c_str value) errbuf_len)
                  λ status v x. validated-Checks w v args _ _ status x)
        ]

  -- kafka_connection_param_init() on two arguments always returns and changes nothing but the count of
  -- allocations. It accepts only without a connection, and two constant arguments only if the name is
  -- neither empty nor too long, the value is not too long, and librdkafka takes the name, which is not
  -- empty, with the value, both up to their first 0.
  pub param_init-Checks :
      (w : World) (name value : Value)
      → Returns
          (Checks w (not (is_some w.kt.producer) && acceptable name value))
          (kafka_connection_param_init (given name ∷ given value ∷ []) w)
  unfolding kafka_connection_param_init arg connected refuse
  param_init-Checks w name value = elim (Bool-cases (is_some w.kt.producer)) [
    | inl busy ↦ rw busy (returns {a = refused _} (refl, refl))
    | inr idle ↦ rw idle (check_constants-Checks w _ name value)
  ]
