-- ===== src/Machine/Args.antt =====
-- UDF_ARGS and UDF_INIT, as the server hands them to the functions of kafka-cmd-*.c, and the limits of
-- config.h.in.
use trig_emit_kafka.Base.{
  ℕ, ◌||◌, Option, List, [], ◌∷◌, if◌then◌else◌, ltb, leb, length, take, get_elem?,
}
use trig_emit_kafka.Base.Int.{ℤ}
use trig_emit_kafka.Base.Bytes.{Str, c_str}
use trig_emit_kafka.Env.{Env}
use trig_emit_kafka.Machine.{M, fault, pure, or_fault}

-- KAFKA_MAX_SETUP_VAR_LEN, KAFKA_MAX_TOPIC_LEN, KAFKA_UDF_RESULT_LEN, KAFKA_INFO_MAX_LEN and
-- KAFKA_ERRBUF_LEN
abbrev pub max_setup_var_len : ℕ
max_setup_var_len = 512

abbrev pub max_topic_len : ℕ
max_topic_len = 249

abbrev pub udf_result_len : ℕ
udf_result_len = 255

abbrev pub info_max_len : ℕ
info_max_len = 1024

abbrev pub errbuf_len : ℕ
errbuf_len = 512

-- The item types of the server.
pub data ItemResult : Type 0 where
  string_result : ItemResult
  other_result : ItemResult

-- One argument: `args->args[i]`, `args->lengths[i]` and `args->arg_type[i]`. The bytes are counted and
-- may hold a 0. A null pointer is SQL's NULL, or in an _init() an argument that is not constant.
pub record Arg : Type 0 where
  pub bytes : Option (List ℕ)
  pub len : ℕ
  pub kind : ItemResult

-- `arg_count` is the length of the list.
abbrev pub Args : Type 0
Args = List Arg

-- `args->arg_type[i] = STRING_RESULT`, for all arguments.
abbrev pub coerced : Args → Args
coerced [] = []
coerced (a ∷ args) = record a { kind = string_result } ∷ coerced args

-- How an _init() ends: 0, with the arguments as it leaves them, or 1, with the text in `message`.
pub data Init (A : Type 0) : Type 0 where
  accepted : A → Init A
  refused : Str → Init A

-- How a main function ends: with its result, or with -1 and `*error = 1`.
pub data Answer : Type 0 where
  returned : ℤ → Answer
  failed : Answer

module _ ⦃E : Env⦄ where
  -- `args->args[i]` and the like: a fault where there is no such argument.
  unfoldable pub arg : ℕ → Args → M Arg
  arg i args = or_fault (get_elem? args i)

  -- `memcpy(buf, bytes, len); buf[len] = '\0';` into a buffer of `capacity` bytes, and the string that
  -- functions on C strings then see. A fault where it reads or writes out of bounds.
  unfoldable pub copy_arg : ℕ → List ℕ → ℕ → M Str
  copy_arg capacity bytes len =
      if ltb (length bytes) len || leb capacity len
      then (λ _. fault)
      else pure (c_str (take len bytes))

  -- `strncpy(message, text, MYSQL_ERRMSG_SIZE); return 1;`
  unfoldable pub refuse : {A : Type 0} → Str → M (Init A)
  refuse text = pure (refused (take E.errmsg_size text))
