-- ===== src/Contract.antt =====
-- What kafka-table.h promises of each call, in terms of what a session can tell of the table: whether
-- there is a connection, which value each parameter has, and which topics are registered.
use trig_emit_kafka.Base.{
  ℕ, ◌≡◌, Bool, true, false, not, ◌&&◌, Option, none, some, List, if◌then◌else◌, is_some,
}
use trig_emit_kafka.Base.Bytes.{Str, str_eq, zstr}
use trig_emit_kafka.Base.Int.{ℤ, pos, negsuc}
use trig_emit_kafka.Env.{Env}
use trig_emit_kafka.Machine.{Producer, M, pure, ◌>>=◌, ◌>>◌}
use trig_emit_kafka.Engine.Producer.{Status, success, error, producer_round}
use trig_emit_kafka.Table.Registry.{
  table_create, table_exists, table_send, table_dismiss, table_get_stats,
}
use trig_emit_kafka.Table.Params.{set_param, unset_param}
use trig_emit_kafka.Table.Connection.{table_connect, table_dismiss_all, module_unload}

-- The calls of kafka-table.h that can change the state, a round of a poll thread, and the unloading.
pub data Call : Type 0 where
  set : Str → Str → ℕ → Call
  unset : Str → Call
  connect : Str → ℕ → Call
  disconnect : Call
  create : Option Str → Call
  exists : Option Str → Call
  send : ℕ → Option Str → List ℕ → Call
  dismiss : Str → Call
  stats : Option Str → Call
  round : ℕ → Call
  unload : Call

pub record View : Type 0 where
  pub online : Bool
  pub params : Str → Option Str
  pub topics : Str → Bool

-- The topics and parameters of two views, name by name.
abbrev pub SameParams : View → View → Type 0
SameParams s t = (name : Str) → t.params name ≡ s.params name

abbrev SameTopics : View → View → Type 0
SameTopics s t = (name : Str) → t.topics name ≡ s.topics name

abbrev pub Same : View → View → Type 0
Same s t = (t.online ≡ s.online) × SameParams s t × SameTopics s t

abbrev pub NoTopics : View → Type 0
NoTopics t = (name : Str) → t.topics name ≡ false

-- Is the first a name, and the second the same?
abbrev pub is_name : Option Str → Str → Bool
is_name none other = false
is_name (some name) other = str_eq name other

abbrev pub has : View → Option Str → Bool
has s none = false
has s (some name) = s.topics name

-- A parameter can be forgotten if it is there, its name is not empty and there is no connection.
abbrev pub forgettable : Str → Bool → Option Str → Bool
forgettable name online value = not (zstr (some name)) && (not online && is_some value)

-- `Contract c s result t`: the call may turn `s` into `t` and report `result`, where an error is false.
abbrev pub Contract : Call → View → Bool → View → Type 0
-- Setting a parameter needs a name that is not empty and that there is no connection, and changes that parameter alone.
Contract (set name value _) s true t =
    (zstr (some name) ≡ false)
    × (s.online ≡ false)
    × (t.online ≡ false)
    × ((other : Str) → t.params other ≡ (if str_eq name other then some value else s.params other))
    × SameTopics s t
Contract (set _ _ _) s false t = Same s t
-- So does forgetting one, which succeeds exactly if it can be forgotten.
Contract (unset name) s true t =
    (forgettable name s.online (s.params name) ≡ true)
    × (t.online ≡ false)
    × ((other : Str) → t.params other ≡ (if str_eq name other then none else s.params other))
    × SameTopics s t
Contract (unset name) s false t = (forgettable name s.online (s.params name) ≡ false) × Same s t
-- Connecting needs that there is no connection. There are no topics then.
Contract (connect _ _) s true t =
    (s.online ≡ false) × (t.online ≡ true) × SameParams s t × NoTopics t
Contract (connect _ _) s false t = Same s t
-- Disconnecting keeps the parameters.
Contract disconnect s result t = (result ≡ true) × (t.online ≡ false) × SameParams s t × NoTopics t
-- After creating a topic it is registered exactly if the call succeeded, which needs a connection. It
-- succeeds if the topic is registered.
Contract (create name) s result t =
    (t.online ≡ s.online)
    × SameParams s t
    × ((other : Str) → t.topics other ≡ (if is_name name other then result else s.topics other))
    × ((result && not s.online) ≡ false)
    × ((has s name && not result) ≡ false)
Contract (exists name) s result t = (result ≡ has s name) × Same s t
-- A message can be sent to registered topics only.
Contract (send _ name _) s result t = ((result && not (has s name)) ≡ false) × Same s t
-- Dismissing succeeds exactly if the topic is registered.
Contract (dismiss name) s result t =
    (result ≡ s.topics name)
    × (t.online ≡ s.online)
    × SameParams s t
    × ((other : Str) → t.topics other ≡ (if str_eq name other then false else s.topics other))
Contract (stats _) s result t = Same s t
Contract (round _) s result t = Same s t
Contract unload s result t = (t.online ≡ false) × ((name : Str) → t.params name ≡ none) × NoTopics t

module _ ⦃E : Env⦄ where
  abbrev pub succeeded : Status → Bool
  succeeded success = true
  succeeded (error _) = false

  abbrev pub is_natural : ℤ → Bool
  is_natural (pos _) = true
  is_natural (negsuc _) = false

  abbrev pub accept : {A : Type 0} → (A → Bool) → M A → M Bool
  accept test m = m >>= λ a. pure (test a)

  -- Has the producer at an address a poll thread, which nobody has joined?
  abbrev pub has_thread : Option Producer → Bool
  has_thread none = false
  has_thread (some pr) = pr.thread_started

  -- A turn of the poll thread of the producer at `p`, if there is one. It is not the table that says so.
  unfoldable pub poll_round : ℕ → M (Unit {0})
  poll_round p w = if has_thread (w.producers p) then producer_round p w else pure tt w

  -- The call, and whether it reports success.
  unfoldable pub perform : Call → M Bool
  perform (set name value errbuflen) = accept succeeded (set_param name value errbuflen)
  perform (unset name) = unset_param name
  perform (connect brokers errbuflen) = accept succeeded (table_connect brokers errbuflen)
  perform disconnect = table_dismiss_all >> pure true
  perform (create name) = table_create name
  perform (exists name) = table_exists name
  perform (send fuel name payload) = accept is_natural (table_send fuel name payload)
  perform (dismiss name) = table_dismiss name
  perform (stats name) = accept (λ _. true) (table_get_stats name)
  perform (round p) = poll_round p >> pure true
  perform unload = module_unload >> pure true
