-- ===== src/Table/Describe.antt =====
-- kafka-table.c, lines 301 to 360: what kafka_info() shows of the table.
pub mod Text
use trig_emit_kafka.Base.{
  ℕ, ◌+◌, ◌-◌, Bool, ◌||◌, Option, none, some, List, [], ◌∷◌, ◌++◌, if◌then◌else◌, ltb, ◌==◌,
  length,
}
use trig_emit_kafka.Base.Int.{ℤ, to_int}
use trig_emit_kafka.Base.Bytes.{Str, codes, strstr, snprintf}
use trig_emit_kafka.Env.{Env}
use trig_emit_kafka.Machine.{Param, M, pure, ◌>>=◌, get_kt, load_producer}

-- kafka_param_is_secret()
unfoldable pub is_secret : Str → Bool
is_secret name = strstr name (codes "password") || strstr name (codes "secret")

-- The text of one parameter, `"  %s = %s\n"`.
unfoldable pub param_line : Param → Str
unfolding is_secret
param_line p =
    codes "  "
    ++ (p.name
        ++ (codes " = "
            ++ ((if is_secret p.name then codes "********" else p.value) ++ b'\n' ∷ [])))

-- The loop of kafka_table_describe_params(), from what the buffer holds and `used`.
unfoldable pub describe_loop : ℕ → List Param → ℕ → Str → Str
describe_loop buflen [] used buf = buf
describe_loop buflen (p ∷ ps) used buf =
    let rest =
      describe_loop buflen ps (used + length (param_line p))
        (buf ++ snprintf (buflen - used) (param_line p)) in
    if ltb (used + 1) buflen then rest else buf

module _ ⦃E : Env⦄ where
  -- kafka_table_describe_params(): the text left in a buffer that is not null, and the result.
  unfoldable pub describe_params : ℕ → M (Str × ℤ)
  describe_params buflen =
      if buflen == 0
      then pure ([], to_int 0)
      else (get_kt >>= λ kt. pure (describe_loop buflen kt.params 0 [], to_int (length kt.params)))

  -- kafka_table_get_brokers(): the text left in the buffer where the result is 1. Otherwise the
  -- buffer holds the empty text.
  unfoldable pub get_brokers : ℕ → M (Option Str)
  get_brokers buflen =
      if buflen == 0
      then pure none
      else (get_kt >>= λ kt. elim kt.producer [
        | none ↦ pure none
        | some p ↦ load_producer p >>= λ pr. elim pr.brokers [
          | none ↦ pure none
          | some brokers ↦ pure (some (snprintf buflen brokers))
        ]
      ])
