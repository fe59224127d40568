-- ===== src/Safety/Setting.antt =====
-- Writing one parameter to the configuration of a producer.
use trig_emit_kafka.Base.{
  ℕ, ◌≡◌, refl, ◌∙◌, ap, false, Option, some, List, [], ◌∷◌, ◌++◌, sym, arith, inl, inr, ◌⊎◌, ◌==◌,
  ==_refl, Sum-cases,
}
use trig_emit_kafka.Base.Bytes.{Str}
use trig_emit_kafka.Env.{Env}
use trig_emit_kafka.Machine.{Param, Producer, World, update}
use trig_emit_kafka.Engine.Producer.{Status, success, error, zero_producer}

module _ ⦃E : Env⦄ where
  pub Status-cases : (s : Status) → (s ≡ success) ⊎ ((m : Option Str) × (s ≡ error m))
  Status-cases success = inl refl
  Status-cases (error m) = inr (m, refl)

  -- From `w` to `v` only the producer at `p` changed: it is `pr` now.
  pub record Only (w v : World) (p : ℕ) (pr : Producer) : Type 0 where
    pub at : v.producers p ≡ some pr
    pub others : (q : ℕ) → (q == p) ≡ false → v.producers q ≡ w.producers q
    pub heap : v.heap ≡ w.heap
    pub next : v.next ≡ w.next
    pub kt : v.kt ≡ w.kt

  -- A producer that is being configured.
  abbrev pub configured : Str → E.Conf → Producer
  configured brokers conf = record (zero_producer) { brokers = some brokers; conf = some conf }

  pub Only-update :
      (w u : World) (p : ℕ) (pr : Producer)
      → u.producers ≡ w.producers
      → u.heap ≡ w.heap
      → u.next ≡ w.next
      → u.kt ≡ w.kt
      → Only w (record u { producers = update u.producers p (some pr) }) p pr
  Only-update w u p pr prs heap next kt = record {
    at = ground (arith, ==_refl p);
    others = λ q ne. (rw ne (ap (λ f. f q) prs));
    heap = heap;
    next = next;
    kt = kt;
  }

  pub Only-trans :
      {u v w : World} {p : ℕ} {pr pr' : Producer} → Only u v p pr → Only v w p pr' → Only u w p pr'
  Only-trans f g = record {
    at = g.at;
    others = λ q ne. g.others q ne ∙ f.others q ne;
    heap = g.heap ∙ f.heap;
    next = g.next ∙ f.next;
    kt = g.kt ∙ f.kt;
  }

  -- What librdkafka makes of a configuration when properties are set one after the other, up to the first
  -- that it refuses.
  unfoldable pub configure : E.Conf → List Param → Str ⊎ E.Conf
  configure conf [] = inr conf
  configure conf (p ∷ ps) = elim (E.conf_set conf p.name p.value) [
    | inl message ↦ inl message
    | inr conf' ↦ configure conf' ps
  ]

  pub configure-set :
      (p : Param) (ps : List Param) (conf conf' : E.Conf)
      → E.conf_set conf p.name p.value ≡ inr conf'
      → configure conf (p ∷ ps) ≡ configure conf' ps
  unfolding configure
  configure-set p ps conf conf' good = rw (configure, good) refl

  pub configure_refused :
      (p : Param) (ps : List Param) (conf : E.Conf) (message : Str)
      → E.conf_set conf p.name p.value ≡ inl message
      → configure conf (p ∷ ps) ≡ inl message
  unfolding configure
  configure_refused p ps conf message bad = rw (configure, bad) refl

  pub configure-append :
      (ps qs : List Param) (conf conf' : E.Conf)
      → configure conf ps ≡ inr conf'
      → configure conf (ps ++ qs) ≡ configure conf' qs
  unfolding configure
  configure-append [] qs conf conf' e =
      let same : conf ≡ conf' = cc in ap (λ c. configure c qs) same
  configure-append (p ∷ ps) qs conf conf' e = elim (Sum-cases (E.conf_set conf p.name p.value)) [
    | inl (message, bad) ↦
        let never : inl message ≡ inr conf' = sym (configure_refused p ps conf message bad) ∙ e in
        absurd (cc)
    | inr (next, good) ↦
        configure-set p (ps ++ qs) conf next good
        ∙ configure-append ps qs next conf' (sym (configure-set p ps conf next good) ∙ e)
  ]
