-- ===== src/Env.antt =====
-- What the code takes from outside its repository: librdkafka, the server's headers, the allocator, the
-- clock and pthreads. Each call that can turn out in more than one way is given its number among all such
-- calls of the run, so an environment is any behaviour at all, and the theorems range over all of them.
use trig_emit_kafka.Base.{
  ℕ, ◌+◌, ◌≡◌, ◌⊎◌, inr, Bool, Option, some, List, [], ◌∷◌, if◌then◌else◌, ◌==◌, length, count,
}
use trig_emit_kafka.Base.Bytes.{Str}

-- RD_KAFKA_RESP_ERR_NO_ERROR. Error codes are the bit patterns of the enumeration.
abbrev pub no_error : ℕ
no_error = 0

-- A message's delivery report: `rkmessage->_private` and `rkmessage->err`.
pub record Report : Type 0 where
  pub opaque : Option ℕ
  pub err : ℕ

-- rd_kafka_produce: the message is queued, or it returns -1 and rd_kafka_last_error() is `err`.
pub data Outcome : Type 0 where
  queued : Outcome
  refused : ℕ → Outcome

-- Is this a report of a message whose opaque is `a`?
abbrev pub reports_of : ℕ → Report → ℕ
reports_of a r = elim r.opaque [ Option.none ↦ 0 | some b ↦ if a == b then 1 else 0 ]

-- How many of the reports are of messages whose opaque is `a`.
abbrev pub reported : ℕ → List Report → ℕ
reported a [] = 0
reported a (r ∷ rs) = reports_of a r + reported a rs

pub record Env : Type 1 where
  -- rd_kafka_conf_t, rd_kafka_t and rd_kafka_topic_t, with all that they stand for.
  pub Conf : Type 0
  pub Rk : Type 0
  pub Rkt : Type 0
  -- Does the allocation succeed? (malloc, realloc, strdup, rd_kafka_conf_new)
  pub malloc : ℕ → Bool
  pub time : ℕ → ℕ
  -- Does pthread_create start the thread?
  pub pthread_create : ℕ → Bool
  pub conf_new : Conf
  -- The new configuration, or the text of the error.
  pub conf_set : Conf → Str → Str → Str ⊎ Conf
  pub set_dr_msg_cb : Conf → Conf
  pub kafka_new : ℕ → Conf → Str ⊎ Rk
  -- The handle, or rd_kafka_last_error().
  pub topic_new : ℕ → Rk → Str → (ℕ ⊎ Rkt) × Rk
  pub topic_destroy : Rkt → Rk → Rk
  -- Topic handle, payload, key, message opaque.
  pub produce : ℕ → Rk → Rkt → List ℕ → Option (List ℕ) → ℕ → Outcome × Rk
  -- The delivery reports that a call serves, on the thread that makes it.
  pub poll : ℕ → Rk → List Report × Rk
  pub flush : ℕ → Rk → List Report × Rk
  pub destroy : ℕ → Rk → List Report
  pub outq_len : Rk → ℕ
  -- RD_KAFKA_RESP_ERR__QUEUE_FULL
  pub queue_full : ℕ
  -- MYSQL_ERRMSG_SIZE
  pub errmsg_size : ℕ
  -- The opaques of the messages in the out queue, which only statements mention.
  pub in_flight : Rk → List ℕ

-- What librdkafka documents: the out queue holds the messages that were accepted and whose
-- delivery report was not served yet, no report is made up, and rd_kafka_destroy serves the rest.
pub record Laws ⦃E : Env⦄ : Type 0 where
  pub outq : (rk : E.Rk) → E.outq_len rk ≡ length (E.in_flight rk)
  pub started :
      (n : ℕ) (conf : E.Conf) (rk : E.Rk) → E.kafka_new n conf ≡ inr rk → E.in_flight rk ≡ []
  pub topic_new_keeps :
      (n : ℕ) (rk : E.Rk) (name : Str) → E.in_flight (E.topic_new n rk name).1 ≡ E.in_flight rk
  pub topic_destroy_keeps :
      (h : E.Rkt) (rk : E.Rk) → E.in_flight (E.topic_destroy h rk) ≡ E.in_flight rk
  pub produce_queues :
      (n : ℕ) (rk : E.Rk) (h : E.Rkt) (payload : List ℕ) (key : Option (List ℕ)) (a b : ℕ)
      → (E.produce n rk h payload key a).0 ≡ queued
      → count b (E.in_flight (E.produce n rk h payload key a).1)
        ≡ (if b == a then 1 else 0) + count b (E.in_flight rk)
  pub produce_refuses :
      (n : ℕ) (rk : E.Rk) (h : E.Rkt) (payload : List ℕ) (key : Option (List ℕ)) (a err : ℕ)
      → (E.produce n rk h payload key a).0 ≡ refused err
      → E.in_flight (E.produce n rk h payload key a).1 ≡ E.in_flight rk
  pub poll_serves :
      (n : ℕ) (rk : E.Rk) (a : ℕ)
      → count a (E.in_flight rk)
        ≡ reported a (E.poll n rk).0 + count a (E.in_flight (E.poll n rk).1)
  pub flush_serves :
      (n : ℕ) (rk : E.Rk) (a : ℕ)
      → count a (E.in_flight rk)
        ≡ reported a (E.flush n rk).0 + count a (E.in_flight (E.flush n rk).1)
  pub destroy_serves :
      (n : ℕ) (rk : E.Rk) (a : ℕ) → count a (E.in_flight rk) ≡ reported a (E.destroy n rk)
