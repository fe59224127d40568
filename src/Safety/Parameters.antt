-- ===== src/Safety/Parameters.antt =====
-- kafka_table_set_param() is safe, and what a write to the parameters leaves alone.
use trig_emit_kafka.Base.{
  false, ℕ, ◌+◌, ◌≤◌, ◌≡◌, refl, ap, not, ◌||◌, none, some, List, [], ◌∷◌, arith, inl, inr,
  Bool-cases, length, Option-cases, Sum-cases, is_some, length-append,
}
use trig_emit_kafka.Base.Bytes.{Str, zstr, codes, snprintf}
use trig_emit_kafka.Env.{Env}
use trig_emit_kafka.Machine.{Param, World}
use trig_emit_kafka.Machine.Returns
use trig_emit_kafka.Machine.Returns.{Returns, returns}
use trig_emit_kafka.Engine.Producer.{Status, success, error}
use trig_emit_kafka.Table.Params.{
  find_param, out_of_memory, validate_param, replace_param, append_param, store_param, set_param,
}
use trig_emit_kafka.Table.Params.Bindings.{put_param, length-set_value}
use trig_emit_kafka.Safety.Invariant.{Inv}
use trig_emit_kafka.Safety.Lookup.{grow_cases, check_slot-ok}

module _ ⦃E : Env⦄ where
  -- From `w` to `v` the parameters became `ps`, and nothing else that a session can see changed.
  pub record Written (w : World) (ps : List Param) (v : World) : Type 0 where
    pub inv : Inv v
    pub params : v.kt.params ≡ ps
    pub producer : v.kt.producer ≡ w.kt.producer
    pub topics : v.kt.topics ≡ w.kt.topics
    pub heap : v.heap ≡ w.heap
    pub producers : v.producers ≡ w.producers

  pub Written-refl : (w : World) (n : ℕ) → Inv w → Written w w.kt.params (record w { calls = n })
  Written-refl w n i = record {
    inv = i;
    params = refl;
    producer = refl;
    topics = refl;
    heap = refl;
    producers = refl;
  }

  abbrev with_params : World → List Param → ℕ → ℕ → World
  with_params w ps capacity n = record w {
    kt = record w.kt { params = ps; param_capacity = capacity };
    calls = n;
  }

  pub write :
      (w : World) (ps : List Param) (capacity n : ℕ)
      → Inv w
      → length ps ≤ capacity
      → Written w ps (with_params w ps capacity n)
  write w ps capacity n i fits = record {
    inv = record {
      fresh = i.fresh;
      once = i.once;
      retired = i.retired;
      topics_fit = i.topics_fit;
      retired_fit = i.retired_fit;
      params_fit = fits;
      idle = i.idle;
      sole = i.sole;
      connected = i.connected;
    };
    params = refl;
    producer = refl;
    topics = refl;
    heap = refl;
    producers = refl;
  }

  -- What storing a parameter leaves: an error changes nothing, and success, which needs that there is
  -- no connection, binds the name to the value.
  abbrev Stored : World → Str → Str → Status → World → Type 0
  Stored w name value success v =
      (w.kt.producer ≡ none) × Written w (put_param name value w.kt.params) v
  Stored w name value (error _) v = Written w w.kt.params v

  -- The name is not empty, and librdkafka takes the value for it.
  abbrev pub Valid : Str → Str → Type 0
  Valid name value =
      (zstr (some name) ≡ false) × ((conf : E.Conf) × (E.conf_set E.conf_new name value ≡ inr conf))

  -- What kafka_table_set_param() leaves: it stores what is valid only.
  abbrev pub ParamSet : World → Str → Str → Status → World → Type 0
  ParamSet w name value success v = Valid name value × Stored w name value success v
  ParamSet w name value (error m) v = Stored w name value (error m) v

  checked :
      (w v : World) (name value : Str)
      → Valid name value
      → (s : Status) → Stored w name value s v
      → ParamSet w name value s v
  checked w v name value valid success (idle, x) = (valid, (idle, x))
  checked w v name value valid (error m) x = x

  append_param-Written :
      (w : World) (name value : Str) (errbuflen : ℕ)
      → Inv w
      → w.kt.producer ≡ none
      → find_param name w.kt.params ≡ none
      → Returns (Stored w name value) (append_param name value errbuflen w)
  unfolding append_param
  append_param-Written w name value errbuflen i e new =
      grow_cases (Returns (Stored w name value)) _ w.kt.param_capacity (length w.kt.params) w
        i.params_fit (λ n. returns {a = out_of_memory errbuflen} (Written-refl w n i))
        (λ n c room. elim (Bool-cases (not (E.malloc n) || not (E.malloc (n + 1)))) [
          | inl failed ↦
              rw failed
                (returns {a = out_of_memory errbuflen} (write w w.kt.params c _ i (omega arith)))
          | inr copied ↦
              rw
                (
                  copied,
                  check_slot-ok (length w.kt.params) c (with_params w w.kt.params c (n + 1 + 1))
                      room,
                )
                (returns {a = success} (
                  e,
                  rw new (
                      write w _ c _ i (
                        omega (
                          arith,
                          length-append w.kt.params (record { name = name; value = value } ∷ []),
                        ))),
                ))
        ])

  replace_param-Written :
      (w : World) (j : ℕ) (name value : Str) (errbuflen : ℕ)
      → Inv w
      → w.kt.producer ≡ none
      → find_param name w.kt.params ≡ some j
      → Returns (Stored w name value) (replace_param j value errbuflen w)
  unfolding replace_param
  replace_param-Written w j name value errbuflen i e old = elim (Bool-cases (E.malloc w.calls)) [
    | inr failed ↦ rw failed (returns {a = out_of_memory errbuflen} (Written-refl w _ i))
    | inl copied ↦ rw copied (
        returns {a = success} (
          e,
          rw old (
              write w _ w.kt.param_capacity _ i
                (omega (arith, i.params_fit, length-set_value j value w.kt.params))),
        ))
  ]

  store_param-Written :
      (w : World) (n : ℕ) (name value : Str) (errbuflen : ℕ)
      → Inv w
      → Returns (Stored w name value) (store_param name value errbuflen (record w { calls = n }))
  unfolding store_param
  store_param-Written w n name value errbuflen i = elim (Option-cases w.kt.producer) [
    | inr (p, connected) ↦ rw (ap is_some connected) (returns {a = busy} (Written-refl w n i))
    | inl idle ↦ rw (ap is_some idle) (elim (Option-cases (find_param name w.kt.params)) [
      | inl new ↦ rw new (
          Returns.mono
            (append_param-Written (record w { calls = n }) name value errbuflen i idle new) earlier)
      | inr (j, old) ↦ rw old (
          Returns.mono
            (replace_param-Written (record w { calls = n }) j name value errbuflen i idle old)
            earlier)
    ])
  ]
    where
      busy : Status
      busy = error (
          some
            (snprintf errbuflen (codes "Already connected: disconnect before changing parameters")))

      as_written :
          (ps : List Param) (v : World) → Written (record w { calls = n }) ps v → Written w ps v
      as_written ps v x = record {
        inv = x.inv;
        params = x.params;
        producer = x.producer;
        topics = x.topics;
        heap = x.heap;
        producers = x.producers;
      }

      earlier :
          (s : Status) (v : World)
          → Stored (record w { calls = n }) name value s v
          → Stored w name value s v
      earlier success v (none_yet, x) = (none_yet, as_written _ v x)
      earlier (error m) v x = as_written _ v x

  -- Where the invariant holds, kafka_table_set_param() always returns, and the invariant holds then.
  -- Success means that the name is not empty, that librdkafka takes the value for it, that there was no
  -- connection, and that the value was written to the first entry of the name or to a new last entry. After an error the parameters are as before. The producer, the
  -- topics and their records stay as they were.
  pub set_param-ParamSet :
      (w : World) (name value : Str) (errbuflen : ℕ)
      → Inv w
      → Returns (ParamSet w name value) (set_param name value errbuflen w)
  unfolding set_param validate_param
  set_param-ParamSet w name value errbuflen i = elim (Bool-cases (zstr (some name))) [
    | inl empty ↦ rw empty (returns (Written-refl w w.calls i))
    | inr filled ↦ rw filled (elim (Bool-cases (E.malloc w.calls)) [
      | inr failed ↦ rw failed (returns (Written-refl w _ i))
      | inl allocated ↦ rw allocated (elim (Sum-cases (E.conf_set E.conf_new name value)) [
        | inl (message, bad) ↦ rw bad (returns (Written-refl w _ i))
        | inr (conf, good) ↦ rw good (
            Returns.mono (store_param-Written w (w.calls + 1) name value errbuflen i)
              λ s v x. checked w v name value (filled, (conf, good)) s x)
      ])
    ])
  ]
