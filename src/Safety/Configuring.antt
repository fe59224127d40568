-- ===== src/Safety/Configuring.antt =====
-- Configuring a producer that does not run yet: only that producer and the log change.
use trig_emit_kafka.Base.{
  ℕ, ◌≡◌, refl, ◌∙◌, ap, false, Option, none, some, List, [], ◌∷◌, Bool, true, inl, inr, Bool-cases,
  Sum-cases,
}
use trig_emit_kafka.Base.Bytes.{Str, zstr}
use trig_emit_kafka.Env.{Env}
use trig_emit_kafka.Machine.{Param, World, store_producer}
use trig_emit_kafka.Machine.Returns
use trig_emit_kafka.Machine.Returns.{Returns, returns}
use trig_emit_kafka.Engine.Producer.{error, kafka_conf_set, set_defaults, producer_set_param}
use trig_emit_kafka.Table.Connection.{apply_params}
use trig_emit_kafka.Contract.{succeeded}
use trig_emit_kafka.Safety.Setting.{
  Only, configured, configure, Status-cases, Only-update, Only-trans, configure-set,
  configure-append,
}

module _ ⦃E : Env⦄ where
  -- Success means that all properties were set.
  abbrev pub Taken : Bool → List Param → E.Conf → E.Conf → Type 0
  Taken true ps conf conf' = configure conf ps ≡ inr conf'
  Taken false ps conf conf' = Unit

  Taken-cons :
      (b : Bool) (d : Param) (ds : List Param) (conf conf' conf'' : E.Conf)
      → configure conf (d ∷ []) ≡ inr conf'
      → Taken b ds conf' conf''
      → Taken b (d ∷ ds) conf conf''
  Taken-cons true d ds conf conf' conf'' first rest =
      configure-append (d ∷ []) ds conf conf' first ∙ rest
  Taken-cons false d ds conf conf' conf'' first rest = tt

  pub Taken-true :
      (b : Bool) (ps : List Param) (conf conf' : E.Conf)
      → b ≡ true
      → Taken b ps conf conf'
      → configure conf ps ≡ inr conf'
  Taken-true true ps conf conf' e taken = taken
  Taken-true false ps conf conf' e taken = absurd (cc)

  -- Setting a property writes to the log at most.
  record Quiet (w v : World) : Type 0 where
    producers : v.producers ≡ w.producers
    heap : v.heap ≡ w.heap
    next : v.next ≡ w.next
    kt : v.kt ≡ w.kt

  kafka_conf_set-Quiet :
      (w : World) (conf : E.Conf) (name value : Str) (errbuflen : Option ℕ)
      → Returns
          (λ r v.
            Quiet w v × Taken (succeeded r.1) (record { name = name; value = value } ∷ []) conf r.0)
          (kafka_conf_set conf name value errbuflen w)
  unfolding kafka_conf_set configure
  kafka_conf_set-Quiet w conf name value errbuflen = elim (Sum-cases (E.conf_set conf name value)) [
    | inl (message, bad) ↦
        rw (bad, kafka_conf_set)
          (returns (record { producers = refl; heap = refl; next = refl; kt = refl }, tt))
    | inr (conf', good) ↦
        rw (good, kafka_conf_set)
          (returns (
            record { producers = refl; heap = refl; next = refl; kt = refl },
            configure-set (record { name = name; value = value }) [] conf conf' good,
          ))
  ]

  set_param-Only :
      (w : World) (p : ℕ) (brokers : Str) (conf : E.Conf) (name value : Str) (errbuflen : Option ℕ)
      → w.producers p ≡ some (configured brokers conf)
      → Returns
          (λ r v.
            (conf' : E.Conf) × Only w v p (configured brokers conf')
            × Taken (succeeded r) (record { name = name; value = value } ∷ []) conf conf')
          (producer_set_param p name value errbuflen w)
  unfolding producer_set_param store_producer
  set_param-Only w p brokers conf name value errbuflen at = elim (Bool-cases (zstr (some name))) [
    | inl empty ↦ rw empty (
        returns (
          conf,
          record { at = at; others = λ q ne. refl; heap = refl; next = refl; kt = refl },
          tt,
        ))
    | inr filled ↦
        rw (filled, at)
          (Returns.bind (kafka_conf_set-Quiet w conf name value errbuflen) λ r v (q, taken).
            rw (ap (λ f. f p) q.producers ∙ at) (
              returns (
                r.0,
                Only-update w v p (configured brokers r.0) q.producers q.heap q.next q.kt,
                taken,
              )))
  ]

  pub set_defaults-Only :
      (ds : List Param) (w : World) (p : ℕ) (brokers : Str) (conf : E.Conf)
      → w.producers p ≡ some (configured brokers conf)
      → Returns
          (λ b v. (conf' : E.Conf) × Only w v p (configured brokers conf') × Taken b ds conf conf')
          (set_defaults p ds w)
  unfolding set_defaults store_producer configure
  set_defaults-Only [] w p brokers conf at =
      returns
        (conf, record { at = at; others = λ q ne. refl; heap = refl; next = refl; kt = refl }, refl)
  set_defaults-Only (d ∷ ds) w p brokers conf at = rw at (
      Returns.bind (kafka_conf_set-Quiet w conf d.name d.value none) λ r v (q, taken).
        let o = Only-update w v p (configured brokers r.0) q.producers q.heap q.next q.kt in
        rw (ap (λ f. f p) q.producers ∙ at) (elim (Status-cases r.1) [
          | inl good ↦ rw good (
              Returns.mono (set_defaults-Only ds _ p brokers r.0 o.at) λ b t (conf', o', rest). (
                conf',
                Only-trans o o',
                Taken-cons b d ds conf r.0 conf'
                    (Taken-true (succeeded r.1) (d ∷ []) conf r.0 (ap succeeded good) taken) rest,
              ))
          | inr (message, bad) ↦ rw bad (returns {a = false} (r.0, o, tt))
        ]))

  pub apply_params-Only :
      (params : List Param) (w : World) (p errbuflen : ℕ) (brokers : Str) (conf : E.Conf)
      → w.producers p ≡ some (configured brokers conf)
      → Returns
          (λ r v.
            (conf' : E.Conf) × Only w v p (configured brokers conf')
            × Taken (succeeded r) params conf conf')
          (apply_params p params errbuflen w)
  unfolding apply_params configure
  apply_params-Only [] w p errbuflen brokers conf at =
      returns
        (conf, record { at = at; others = λ q ne. refl; heap = refl; next = refl; kt = refl }, refl)
  apply_params-Only (d ∷ ds) w p errbuflen brokers conf at =
      Returns.bind (set_param-Only w p brokers conf d.name d.value (some errbuflen) at)
        λ r v (conf', o, taken). elim (Status-cases r) [
          | inl good ↦ rw good (
              Returns.mono (apply_params-Only ds v p errbuflen brokers conf' o.at)
                λ b t (conf'', o', rest). (
                  conf'',
                  Only-trans o o',
                  Taken-cons (succeeded b) d ds conf conf' conf''
                      (Taken-true (succeeded r) (d ∷ []) conf conf' (ap succeeded good) taken) rest,
                ))
          | inr (message, bad) ↦ rw bad (returns {a = error message} (conf', o, tt))
        ]
