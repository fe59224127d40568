-- ===== src/Udf/Info.antt =====
-- kafka-cmd-info.c: kafka_info().
use trig_emit_kafka.Base.{
  ℕ, ◌+◌, ◌-◌, ◌/◌, Bool, false, not, Option, none, some, [], ◌∷◌, ◌++◌, if◌then◌else◌, leb, ◌==◌,
  length,
}
use trig_emit_kafka.Base.Int.{ℤ}
use trig_emit_kafka.Base.Bytes.{Str, codes, snprintf, print_int}
use trig_emit_kafka.Env.{Env}
use trig_emit_kafka.Machine.{M, fault, pure, ◌>>=◌, malloc}
use trig_emit_kafka.Machine.Args.{Args, Init, accepted, refuse, max_setup_var_len, info_max_len}
use trig_emit_kafka.Table.Describe.{get_brokers, describe_params}

-- UDF_INIT: `ptr` is a buffer with what it holds, or null.
pub record UdfInit : Type 0 where
  pub ptr : Option Str
  pub max_length : ℕ
  pub maybe_null : Bool
  pub const_item : Bool

-- The text of a result, and `*length`.
pub record Text : Type 0 where
  pub text : Str
  pub len : ℕ

-- `written` after the clamp, for a buffer of `size` bytes; snprintf() does not fail here.
abbrev pub clamp_written : ℕ → ℕ → ℕ
clamp_written size written = if leb size written then size - 1 else written

-- `snprintf(buf, size, ...)` and the clamp of what it returns.
abbrev pub write_text : ℕ → Str → Text
write_text size full = record { text = snprintf size full; len = clamp_written size (length full) }

-- `brk`, from the result of kafka_table_get_brokers().
abbrev pub brokers_shown : Option Str → Str
brokers_shown none = codes "Not connected"
brokers_shown (some brokers) = brokers

-- The whole text; PACKAGE_STRING is PACKAGE_NAME "-" GIT_COMMIT_ID, and the build fills in the latter.
unfoldable pub info_text : Str → Option Str → Str → ℤ → Str
info_text commit brokers params count =
    codes "Version: trigemit-kafka-"
    ++ (commit
        ++ ((b'\n' ∷ codes "Brokers: ")
            ++ (brokers_shown brokers
                ++ ((b'\n' ∷ codes "Parameters: ") ++ (print_int count ++ (b'\n' ∷ params))))))

module _ ⦃E : Env⦄ where
  -- kafka_info_init()
  unfoldable pub kafka_info_init : UdfInit → Args → M (Init UdfInit)
  kafka_info_init initid args =
      if not (length args == 0)
      then refuse (codes "Wrong arguments to function.")
      else (malloc >>= λ allocated.
          if not allocated
          then refuse (codes "Out of memory.")
          else pure (
              accepted (record {
                ptr = some [];
                max_length = info_max_len;
                maybe_null = false;
                const_item = false;
              })))

  -- kafka_info_deinit()
  unfoldable pub kafka_info_deinit : UdfInit → M UdfInit
  kafka_info_deinit initid = pure (record initid { ptr = none })

  -- kafka_info(): writing through a null pointer is a fault.
  unfoldable pub kafka_info : Str → UdfInit → M Text
  kafka_info commit initid = do
    brokers ← get_brokers (max_setup_var_len + 1)
    (params, count) ← describe_params (info_max_len / 2)
    elim initid.ptr [
      | none ↦ λ _. fault
      | some _ ↦ pure (write_text info_max_len (info_text commit brokers params count))
    ]
