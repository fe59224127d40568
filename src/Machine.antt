-- ===== src/Machine.antt =====
-- The memory of the process as kafka-table.h, kafka-engine.h and kafka-table.c lay it out, and
-- programs over it. Topic records and producers lie on a heap, by address; an access through an
-- address that holds nothing is a fault, as is a write past the end of an array. An address is
-- never given out twice, so a stale pointer is always seen. Strings are values.
pub mod Log
pub mod Returns
pub mod Args
use Log.{LogLine}
use trig_emit_kafka.Base.{
  ℕ, zero, suc, ◌+◌, Bool, true, false, Option, none, some, List, [], ◌∷◌, if◌then◌else◌, ◌==◌,
  is_some,
}
use trig_emit_kafka.Base.Bytes.{Str}
use trig_emit_kafka.Env.{Env}

-- kafka_param_t
pub record Param : Type 0 where
  pub name : Str
  pub value : Str

-- tek_kafka_t, less the thread's identifier. A pointer that may be null is an Option.
pub record Producer ⦃E : Env⦄ : Type 0 where
  pub brokers : Option Str
  pub conf : Option E.Conf
  pub rk : Option E.Rk
  pub thread_started : Bool
  pub running : Bool

-- tek_topic_t
pub record Topic ⦃E : Env⦄ : Type 0 where
  pub name : Str
  pub rkt : Option E.Rkt
  pub producer : ℕ
  pub transferred : ℕ
  pub failed : ℕ
  pub last_err : ℕ
  pub last_log_time : ℕ
  pub suppressed : ℕ

-- kafka_tables_t. The counts are the lengths of the lists; the topics are addresses.
pub record Tables : Type 0 where
  pub producer : Option ℕ
  pub params : List Param
  pub param_capacity : ℕ
  pub topics : List ℕ
  pub capacity : ℕ
  pub retired : List ℕ
  pub retired_capacity : ℕ

-- The static initialiser of `kt`.
abbrev pub initial_tables : Tables
initial_tables = record {
  producer = none;
  params = [];
  param_capacity = 0;
  topics = [];
  capacity = 0;
  retired = [];
  retired_capacity = 0;
}

-- `calls` numbers the calls of the environment, `log` is stderr, newest line first.
pub record World ⦃E : Env⦄ : Type 0 where
  pub heap : ℕ → Option Topic
  pub producers : ℕ → Option Producer
  pub next : ℕ
  pub kt : Tables
  pub calls : ℕ
  pub log : List LogLine

-- How a program ends: with a result, in undefined behaviour, or not within its fuel.
pub data Run ⦃E : Env⦄ (A : Type 0) : Type 0 where
  ok : A → World → Run A
  fault : Run A
  blocked : Run A

abbrev pub update {ℓ} : {A : Type ℓ} → (ℕ → Option A) → ℕ → Option A → ℕ → Option A
update f p v q = if q == p then v else f q

module _ ⦃E : Env⦄ where
  abbrev pub M : Type 0 → Type 0
  M A = World → Run A

  abbrev pub pure : {A : Type 0} → A → M A
  pure a w = ok a w

  abbrev pub and_then : {A B : Type 0} → Run A → (A → M B) → Run B
  and_then (ok a w) f = f a w
  and_then fault f = fault
  and_then blocked f = blocked

  infixl 5 ◌>>◌ ◌>>=◌
  -- The second program runs on what the first returned, and in the memory that it left.
  abbrev pub ◌>>=◌ : {B C : Type 0} → M B → (B → M C) → M C
  ◌>>=◌ first next w = and_then (first w) next

  abbrev pub ◌>>◌ : {C : Type 0} → M (Unit {0}) → M C → M C
  first >> second = first >>= λ _. second

  abbrev pub tick : {A : Type 0} → (ℕ → A) → M A
  tick f w = ok (f w.calls) (record w { calls = w.calls + 1 })

  -- One allocation: did it succeed?
  abbrev pub malloc : M Bool
  malloc = tick E.malloc

  abbrev pub time : M ℕ
  time = tick E.time

  abbrev pub print : LogLine → M (Unit {0})
  print l w = ok tt (record w { log = l ∷ w.log })

  abbrev pub get_kt : M Tables
  get_kt w = ok w.kt w

  abbrev pub put_kt : Tables → M (Unit {0})
  put_kt kt w = ok tt (record w { kt = kt })

  abbrev pub or_fault : {A : Type 0} → Option A → M A
  or_fault none w = fault
  or_fault (some a) w = ok a w

  abbrev pub load_topic : ℕ → M Topic
  load_topic a w = or_fault (w.heap a) w

  abbrev pub load_producer : ℕ → M Producer
  load_producer p w = or_fault (w.producers p) w

  abbrev pub set_topic : ℕ → Option Topic → M (Unit {0})
  set_topic a t w = ok tt (record w { heap = update w.heap a t })

  abbrev pub set_producer : ℕ → Option Producer → M (Unit {0})
  set_producer p t w = ok tt (record w { producers = update w.producers p t })

  unfoldable pub store_topic : ℕ → Topic → M (Unit {0})
  store_topic a t = load_topic a >>= λ _. set_topic a (some t)

  -- free() of a topic record: a second one is a fault.
  unfoldable pub free_topic : ℕ → M (Unit {0})
  free_topic a = load_topic a >>= λ _. set_topic a none

  unfoldable pub store_producer : ℕ → Producer → M (Unit {0})
  store_producer p t = load_producer p >>= λ _. set_producer p (some t)

  -- free() of a producer, which its poll thread still reads until it is joined.
  unfoldable pub free_producer : ℕ → M (Unit {0})
  free_producer p =
      load_producer p >>= λ pr. if pr.thread_started then (λ _. fault) else set_producer p none

  -- A fresh address, behind a malloc() that succeeded.
  unfoldable pub new_topic : Topic → M ℕ
  new_topic t w = ok w.next (record w { heap = update w.heap w.next (some t); next = suc w.next })

  unfoldable pub new_producer : Producer → M ℕ
  new_producer t w =
      ok w.next (record w { producers = update w.producers w.next (some t); next = suc w.next })
