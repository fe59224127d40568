-- ===== src/Udf/Statement.antt =====
-- What an SQL session asks of the functions that return a number, and what it may expect: a reading of
-- kafka-cmd-*.c in terms of what a session can tell of the table.
use trig_emit_kafka.Base.{
  ℕ, ◌≡◌, Bool, true, false, not, ◌&&◌, ◌||◌, Option, none, some, List, [], ◌∷◌, if◌then◌else◌, ltb,
  ◌==◌, length,
}
use trig_emit_kafka.Base.Int.{ℤ, pos, to_int}
use trig_emit_kafka.Base.Bytes.{Str, str_eq, c_str}
use trig_emit_kafka.Env.{Env}
use trig_emit_kafka.Machine.{M}
use trig_emit_kafka.Machine.Args.{
  Arg, string_result, Answer, returned, failed, max_setup_var_len, max_topic_len, errbuf_len,
}
use trig_emit_kafka.Contract.{Call, View, Contract, Same, SameParams}
use trig_emit_kafka.Udf.Connect.{kafka_connect}
use trig_emit_kafka.Udf.Disconnect.{kafka_disconnect}
use trig_emit_kafka.Udf.Send.{kafka_send}
use trig_emit_kafka.Udf.Param.{kafka_connection_param}

-- A value of SQL: NULL, or counted bytes.
abbrev pub Value : Type 0
Value = Option (List ℕ)

-- How the server hands the value to a function whose _init() asked for a string.
abbrev pub given : Value → Arg
given none = record { bytes = none; len = 0; kind = string_result }
given (some bytes) = record { bytes = some bytes; len = length bytes; kind = string_result }

-- A call of one of the functions; kafka_send() has fuel.
pub data Statement : Type 0 where
  connect : Value → Statement
  disconnect_all : Statement
  disconnect : Value → Statement
  send : ℕ → Value → Value → Statement
  param : Value → Value → Statement

module _ ⦃E : Env⦄ where
  unfoldable pub execute : Statement → M Answer
  execute (connect brokers) = kafka_connect (given brokers ∷ [])
  execute disconnect_all = kafka_disconnect []
  execute (disconnect topic) = kafka_disconnect (given topic ∷ [])
  execute (send fuel topic payload) = kafka_send fuel (given topic ∷ given payload ∷ [])
  execute (param name value) = kafka_connection_param (given name ∷ given value ∷ [])

-- The string that a value stands for, where it is neither NULL nor empty, and not too long.
abbrev pub named : ℕ → Value → Option Str
named limit none = none
named limit (some bytes) =
    if (length bytes == 0) || ltb limit (length bytes) then none else some (c_str bytes)

abbrev pub answer_of : Bool → ℤ → Answer
answer_of true value = returned value
answer_of false value = failed

abbrev pub Effect : Type 1
Effect = View → Answer → View → Type 0

-- An error, and nothing else happened.
abbrev pub Declined : Effect
Declined s a t = (a ≡ failed) × Same s t

-- The call does what its contract says, and its success is told by the value.
abbrev pub Reported : Call → ℤ → Effect
Reported c value s a t = (b : Bool) × (a ≡ answer_of b value) × Contract c s b t

-- The effect on a name, or an error where there is none.
abbrev pub for_name : Option Str → (Str → Effect) → Effect
for_name none effect = Declined
for_name (some name) effect = effect name

-- Sending registers the topic where it is not, or fails to. Success tells the length of the payload, and
-- needs a connection and that the topic is registered afterwards. No other topic changes.
abbrev pub Delivered : List ℕ → Str → Effect
Delivered payload topic s a t =
    (b : Bool) × (registered : Bool) × (a ≡ answer_of b (to_int (length payload)))
    × (t.online ≡ s.online)
    × SameParams s t
    × ((other : Str) → t.topics other ≡ (if str_eq topic other then registered else s.topics other))
    × ((s.topics topic && not registered) ≡ false)
    × ((b && not (registered && s.online)) ≡ false)

abbrev pub send_effect : Value → Str → Effect
send_effect none topic = Declined
send_effect (some payload) topic = Delivered payload topic

abbrev pub param_effect : Value → Str → Effect
param_effect none name = Reported (Call.unset name) (pos 0)
param_effect (some value) name =
    if ltb max_setup_var_len (length value)
    then Declined
    else Reported (Call.set name (c_str value) errbuf_len) (pos 0)

-- `Promise x s a t`: the statement may turn `s` into `t` and answer `a`.
abbrev pub Promise : Statement → Effect
Promise (connect brokers) =
    for_name (named max_setup_var_len brokers) λ b. Reported (Call.connect b errbuf_len) (pos 0)
Promise disconnect_all = Reported Call.disconnect (pos 0)
Promise (disconnect topic) =
    for_name (named max_topic_len topic) λ name. Reported (Call.dismiss name) (pos 0)
Promise (send fuel topic payload) = for_name (named max_topic_len topic) (send_effect payload)
Promise (param name value) = for_name (named max_setup_var_len name) (param_effect value)
