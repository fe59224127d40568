-- ===== src/Safety/Promises/Views.antt =====
-- What a session can tell of the table, and steps that leave it as it was.
use trig_emit_kafka.Base.{ℕ, ◌≡◌, refl, ◌∙◌, ap, Bool, List, [], arith, ltb, is_some}
use trig_emit_kafka.Base.Bytes.{Str}
use trig_emit_kafka.Env.{Env}
use trig_emit_kafka.Machine.{Param, World, Tables}
use trig_emit_kafka.Machine.Log.{LogLine}
use trig_emit_kafka.Table.Params.Bindings.{Distinct, get_param}
use trig_emit_kafka.Contract.{Call, View, Contract, Same, NoTopics}
use trig_emit_kafka.Safety.Invariant.{Inv}
use trig_emit_kafka.Safety.Holders.{holders, holders-SameShapes, Unique, registered}
use trig_emit_kafka.Safety.Feeding.{Fed}
use trig_emit_kafka.Safety.Parameters.{Written}

module _ ⦃E : Env⦄ where
  -- The invariant, no parameter is held twice, and no name is registered twice or empty.
  pub record Sane (w : World) : Type 0 where
    pub inv : Inv w
    pub distinct : Distinct w.kt.params
    pub unique : Unique w

  -- What a session can tell.
  abbrev pub view : World → View
  view w = record {
    online = is_some w.kt.producer;
    params = λ name. get_param name w.kt.params;
    topics = registered w;
  }

  abbrev pub Keeps : Call → World → Bool → World → Type 0
  Keeps c w b v = Sane v × Contract c (view w) b (view v)

  -- Nothing that a session can tell has changed.
  pub record Still (w v : World) : Type 0 where
    pub inv : Inv v
    pub producer : v.kt.producer ≡ w.kt.producer
    pub params : v.kt.params ≡ w.kt.params
    pub names : (n : Str) → holders v.heap n v.kt.topics ≡ holders w.heap n w.kt.topics

  pub same_names :
      (w v : World)
      → Unique w
      → ((n : Str) → holders v.heap n v.kt.topics ≡ holders w.heap n w.kt.topics)
      → Unique v
  same_names w v u names = record {
    once = λ n. rw (names n) (u.once n);
    not_empty = names [] ∙ u.not_empty;
  }

  pub Still-Same : (w v : World) → Sane w → Still w v → Sane v × Same (view w) (view v)
  unfolding registered
  Still-Same w v s x = (
    record {
      inv = x.inv;
      distinct = λ n. rw x.params (s.distinct n);
      unique = same_names w v s.unique x.names;
    },
    (ap is_some x.producer, (λ n. ap (get_param n) x.params), λ n. ap (ltb 0) (x.names n)),
  )

  pub Still-refl : (w : World) → Sane w → Still w w
  Still-refl w s = record { inv = s.inv; producer = refl; params = refl; names = λ n. refl }

  pub Fed-Still : {more : ℕ → ℕ} → (w v : World) → Fed w more v → Still w v
  Fed-Still w v f = record {
    inv = f.inv;
    producer = ap (λ (kt : Tables). kt.producer) f.kt;
    params = ap (λ (kt : Tables). kt.params) f.kt;
    names = λ n.
        ap (λ (kt : Tables). holders v.heap n kt.topics) f.kt
        ∙ holders-SameShapes w.heap v.heap n w.kt.topics (λ a h. f.shapes a);
  }

  -- A list without topics.
  pub no_holders : (w : World) (n : Str) → w.kt.topics ≡ [] → holders w.heap n w.kt.topics ≡ 0
  unfolding holders
  no_holders w n e = ap (holders w.heap n) e

  pub no_topics : (w : World) → w.kt.topics ≡ [] → Unique w × NoTopics (view w)
  unfolding registered
  no_topics w e = (
    record {
      once = λ n. let h = no_holders w n e in omega (arith, h);
      not_empty = no_holders w [] e;
    },
    λ n. ap (ltb 0) (no_holders w n e),
  )

  pub names-Written :
      (w v : World) (ps : List Param)
      → Written w ps v
      → (n : Str) → holders v.heap n v.kt.topics ≡ holders w.heap n w.kt.topics
  names-Written w v ps x n =
      ap (λ heap. holders heap n v.kt.topics) x.heap ∙ ap (holders w.heap n) x.topics

  pub Written-Still : (w v : World) → Written w w.kt.params v → Still w v
  Written-Still w v x = record {
    inv = x.inv;
    producer = x.producer;
    params = x.params;
    names = names-Written w v _ x;
  }

  -- Lines in the log and calls of the environment change nothing else.
  pub logged :
      (w : World) (n : ℕ) (log : List LogLine) → Sane w → Sane (record w { calls = n; log = log })
  logged w n log s = record {
    inv = s.inv;
    distinct = s.distinct;
    unique = record { once = s.unique.once; not_empty = s.unique.not_empty };
  }

  pub Fed-Same :
      {more : ℕ → ℕ} → (w v : World) → Sane w → Fed w more v → Sane v × Same (view w) (view v)
  Fed-Same w v s f = Still-Same w v s (Fed-Still w v f)
