-- ===== src/Examples.antt =====
-- A small librdkafka, with which the theorems are applied to concrete states: its out queue has room
-- for two messages, poll serves one report, and flush and destroy serve all.
pub mod States
pub mod Witnesses
pub mod Functions
pub mod Parameters
pub mod Deliveries
pub mod Histories
use trig_emit_kafka.Base.{
  ℕ, ◌+◌, ◌<◌, ◌≡◌, refl, true, false, Bool, Option, none, some, List, [], ◌∷◌, arith, inl, inr,
  ◌⊎◌, Bool-cases, if◌then◌else◌, ◌==◌, leb, length, count,
}
use trig_emit_kafka.Base.Bytes.{Str, codes, str_eq}
use trig_emit_kafka.Env.{Env, Laws, Report, Outcome, queued, refused, reported}

abbrev delivered : List ℕ → List Report
delivered [] = []
delivered (a ∷ rk) = record { opaque = some a; err = 0 } ∷ delivered rk

abbrev poll_one : List ℕ → List Report × List ℕ
poll_one [] = ([], [])
poll_one (a ∷ rk) = (delivered (a ∷ []), rk)

abbrev produce_two : List ℕ → ℕ → Outcome × List ℕ
produce_two [] a = (queued, a ∷ [])
produce_two (b ∷ []) a = (queued, a ∷ b ∷ [])
produce_two (b ∷ c ∷ rk) a = (refused 184, b ∷ c ∷ rk)

abbrev pub small : Env
small = record {
  Conf = Bool;
  Rk = List ℕ;
  Rkt = Str;
  malloc = λ _. true;
  time = λ n. n;
  pthread_create = λ _. true;
  conf_new = false;
  conf_set =
      λ conf name _. if str_eq name (codes "bad") then inl (codes "No such property") else inr conf;
  set_dr_msg_cb = λ _. true;
  kafka_new = λ _ _. inr [];
  topic_new = λ _ rk name. (inr name, rk);
  topic_destroy = λ _ rk. rk;
  produce = λ _ rk _ _ _ a. produce_two rk a;
  poll = λ _ rk. poll_one rk;
  flush = λ _ rk. (delivered rk, []);
  destroy = λ _ rk. delivered rk;
  outq_len = length;
  queue_full = 184;
  errmsg_size = 512;
  in_flight = λ rk. rk;
}

reported-delivered : (a : ℕ) (rk : List ℕ) → reported a (delivered rk) ≡ count a rk
reported-delivered a [] = refl
reported-delivered a (b ∷ rk) = omega (arith, reported-delivered a rk)

poll_one-serves :
    (a : ℕ) (rk : List ℕ) → count a rk ≡ reported a (poll_one rk).0 + count a (poll_one rk).1
poll_one-serves a [] = refl
poll_one-serves a (b ∷ rk) = omega arith

produce_two-queues :
    (rk : List ℕ) (a b : ℕ)
    → (produce_two rk a).0 ≡ queued
    → count b (produce_two rk a).1 ≡ (if b == a then 1 else 0) + count b rk
produce_two-queues [] a b e = refl
produce_two-queues (c ∷ []) a b e = refl
produce_two-queues (c ∷ d ∷ rk) a b e = absurd (cc)

produce_two-refuses :
    (rk : List ℕ) (a err : ℕ) → (produce_two rk a).0 ≡ refused err → (produce_two rk a).1 ≡ rk
produce_two-refuses [] a err e = absurd (cc)
produce_two-refuses (c ∷ []) a err e = absurd (cc)
produce_two-refuses (c ∷ d ∷ rk) a err e = refl

pub poll_one-drains : (rk : List ℕ) → 0 < length rk → length (poll_one rk).1 < length rk
poll_one-drains [] h = absurd (omega arith)
poll_one-drains (a ∷ rk) h = omega arith

pub produce_two-full : (rk : List ℕ) (a : ℕ) → (produce_two rk a).0 ≡ refused 184 → 0 < length rk
produce_two-full [] a e = absurd (cc)
produce_two-full (b ∷ rk) a e = omega arith

abbrev made : List ℕ → Str ⊎ List ℕ
made rk = inr rk

made_empty : (rk : List ℕ) → made [] ≡ made rk → rk ≡ []
made_empty rk e = cc

pub small-Laws : Laws ⦃E = small⦄
small-Laws = record {
  outq = λ rk. refl;
  started = λ n conf rk e. made_empty rk e;
  topic_new_keeps = λ n rk name. refl;
  topic_destroy_keeps = λ h rk. refl;
  produce_queues = λ n rk h payload key a b e. produce_two-queues rk a b e;
  produce_refuses = λ n rk h payload key a err e. produce_two-refuses rk a err e;
  poll_serves = λ n rk a. poll_one-serves a rk;
  flush_serves = λ n rk a. omega (arith, reported-delivered a rk);
  destroy_serves = λ n rk a. omega (arith, reported-delivered a rk);
}
