-- ===== src/Safety/Attaching.antt =====
-- The producer that kafka_table_connect() puts into the table.
use trig_emit_kafka.Base.{
  ℕ, ◌≡◌, refl, sym, ◌∙◌, inl, ==_iff, Bool-cases, ap, true, false, Option, none, some, List, [],
  arith, inr, ◌⊎◌, count, ◌==◌, ◌++◌,
}
use trig_emit_kafka.Base.Bytes.{Str}
use trig_emit_kafka.Env.{Env}
use trig_emit_kafka.Machine.{Param, World}
use trig_emit_kafka.Engine.Producer.{Status, success, error, default_params}
use trig_emit_kafka.Safety.Frame.{live-shape}
use trig_emit_kafka.Safety.Invariant.{Inv, Sound, Connected, only_producer, shape-none, held, Sole}
use trig_emit_kafka.Safety.Setting.{configure}
use trig_emit_kafka.Safety.Starting.{started_producer, MadeOf}
use trig_emit_kafka.Safety.Creating.{Tried, GivenUp}

module _ ⦃E : Env⦄ where
  -- The handle was made of the configuration that librdkafka makes by setting the properties in order.
  abbrev pub BuiltFrom : E.Conf → List Param → E.Rk → Type 0
  BuiltFrom conf ps rk = (conf' : E.Conf) × (configure conf ps ≡ inr conf') × MadeOf conf' rk

  -- What kafka_table_connect() leaves. On failure the table and the topics are as before and no
  -- producer is left over. On success the table has the new producer, with its poll thread running and
  -- an empty queue; it was configured by the defaults first, and then by the parameters of the table.
  pub record Attached (w : World) (brokers : Str) (v : World) : Type 0 where
    pub inv : Inv v
    pub kt : v.kt ≡ record w.kt { producer = some w.next }
    pub built :
        (rk : E.Rk) × (v.producers w.next ≡ some (started_producer brokers rk true))
        × BuiltFrom E.conf_new (default_params brokers ++ w.kt.params) rk

  abbrev pub Connects : World → Str → Status → World → Type 0
  Connects w brokers success v = Attached w brokers v
  Connects w brokers (error _) v =
      Inv v
      × (v.kt ≡ w.kt)
      × ((q : ℕ) → (q == w.next) ≡ false → v.producers q ≡ w.producers q)
      × ((v.producers w.next ≡ none) ⊎ (v.producers w.next ≡ w.producers w.next))

  given_up :
      (w v : World) → Inv w → w.kt.producer ≡ none → GivenUp w v → Sole v.producers w.kt.producer
  given_up w v i e (t, gone) q h = elim (Bool-cases (q == w.next)) [
    | inr ne ↦ t.others q ne ∙ i.sole q h
    | inl eq ↦
        let same : q ≡ w.next = (==_iff q w.next).0 eq in
        elim gone [
          | inl freed ↦ ap v.producers same ∙ freed
          | inr kept ↦ ap v.producers same ∙ kept ∙ ap w.producers (sym same) ∙ i.sole q h
        ]
  ]

  pub GivenUp-Inv : (w v : World) → Inv w → w.kt.producer ≡ none → GivenUp w v → Inv v
  GivenUp-Inv w v i e (t, gone) = rw t.kt (record {
    fresh =
        λ a h. shape-none (w.heap a) (v.heap a) (t.shapes a) (i.fresh a (omega (arith, t.next)));
    once = i.once;
    retired = λ a h. live-shape (w.heap a) (v.heap a) (t.shapes a) (i.retired a h);
    topics_fit = i.topics_fit;
    retired_fit = i.retired_fit;
    params_fit = i.params_fit;
    idle = i.idle;
    sole = given_up w v i e (t, gone);
    connected = λ p at. absurd (cc);
  })

  pub GivenUp-Connects :
      (w v : World) (brokers : Str) (m : Option Str)
      → Inv w
      → w.kt.producer ≡ none
      → GivenUp w v
      → Connects w brokers (error m) v
  GivenUp-Connects w v brokers m i e (t, gone) =
      (GivenUp-Inv w v i e (t, gone), t.kt, t.others, gone)

  pub attach :
      (w v : World) (brokers : Str) (rk : E.Rk)
      → Inv w
      → w.kt.producer ≡ none
      → Tried w v
      → E.in_flight rk ≡ []
      → v.producers w.next ≡ some (started_producer brokers rk true)
      → Sound v.heap v.producers v.next (record w.kt { producer = some w.next })
  attach w v brokers rk i e t empty at = record {
    fresh =
        λ a h. shape-none (w.heap a) (v.heap a) (t.shapes a) (i.fresh a (omega (arith, t.next)));
    once = i.once;
    retired = λ a h. live-shape (w.heap a) (v.heap a) (t.shapes a) (i.retired a h);
    topics_fit = i.topics_fit;
    retired_fit = i.retired_fit;
    params_fit = i.params_fit;
    idle = λ n. absurd (cc);
    sole = λ q ne. t.others q ne ∙ i.sole q (ap (λ o. held o q) e);
    connected =
        only_producer (Connected v.producers v.heap w.kt.topics) (some w.next) w.next refl (record {
          pr = started_producer brokers rk true;
          rk = rk;
          runs = record { at = at; flying = λ a h. absurd (omega (arith, ap (count a) empty)) };
          running = refl;
          thread = refl;
          conf = refl;
          handles = λ a h. absurd (omega (arith, ap (count a) (i.idle e).0));
        });
  }
