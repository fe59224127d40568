-- ===== src/Safety/Removal.antt =====
-- Freeing the records that were retired, kafka_table_reap_retired_locked().
use trig_emit_kafka.Base.{
  ℕ, ◌<◌, ◌+◌, ◌≡◌, refl, ◌∙◌, ap, false, some, none, List, [], ◌∷◌, arith, inl, inr, Bool-cases,
  count, ltb, Option-cases, count_of_empty,
}
use trig_emit_kafka.Env.{Env, Laws}
use trig_emit_kafka.Machine.{World, Tables}
use trig_emit_kafka.Machine.Returns
use trig_emit_kafka.Machine.Returns.{Returns, returns}
use trig_emit_kafka.Table.Registry.{reap, reap_retired}
use trig_emit_kafka.Safety.Frame.{Live, shape}
use trig_emit_kafka.Safety.Holders.{SameShapes}
use trig_emit_kafka.Safety.Account.{SameAccounts}
use trig_emit_kafka.Safety.Closing.{Freed, free_all-Freed}
use trig_emit_kafka.Safety.Invariant.{Inv, Sound, Connected, only_producer, outq_busy-connected}

module _ ⦃E : Env⦄ where
  -- What is left alone where only topics are retired or freed: the registered topics and their
  -- records with their messages, the producer and the parameters. A retired record stays retired until
  -- it is freed, and no record is made.
  pub record Keeps (w v : World) : Type 0 where
    pub topics : v.kt.topics ≡ w.kt.topics
    pub producer : v.kt.producer ≡ w.kt.producer
    pub params : v.kt.params ≡ w.kt.params
    pub shapes : SameShapes w.heap v.heap w.kt.topics
    pub accounts : SameAccounts w v w.kt.topics
    pub retains : (a : ℕ) → 0 < count a w.kt.retired → Live v.heap a → 0 < count a v.kt.retired
    pub none_made : (a : ℕ) → w.heap a ≡ none → v.heap a ≡ none

  pub Keeps-refl : (w : World) → Keeps w w
  Keeps-refl w = record {
    topics = refl;
    producer = refl;
    params = refl;
    shapes = λ a h. refl;
    accounts = λ a h. refl;
    retains = λ a h l. h;
    none_made = λ a h. h;
  }

  -- Nothing in the table or in the out queue names `a`, but it is still allocated.
  pub record Unlisted (w : World) (a : ℕ) : Type 0 where
    pub inv : Inv w
    pub live : Live w.heap a
    pub unlisted : count a w.kt.topics + count a w.kt.retired ≡ 0

  pub no_flight :
      (L : Laws) (rk : E.Rk) (a : ℕ) → ltb 0 (E.outq_len rk) ≡ false → count a (E.in_flight rk) ≡ 0
  no_flight L rk a h = let len = L.outq rk in count_of_empty a (E.in_flight rk) (ground arith)

  reap-Sound :
      (L : Laws) (w v : World) (p : ℕ) (ts : List ℕ) (i : Inv w) (e : w.kt.producer ≡ some p)
      → ltb 0 (E.outq_len (i.connected p e).rk) ≡ false
      → w.kt.retired ≡ ts
      → Freed w v ts
      → Sound v.heap v.producers v.next (record w.kt { retired = [] })
  reap-Sound L w v p ts i e empty same_ts f =
      rw (f.next, f.producers)
        (record {
          fresh = λ a h. elim (Bool-cases (ltb 0 (count a ts))) [
            | inl x ↦ f.gone a (ground arith)
            | inr x ↦ f.others a (ground arith) ∙ i.fresh a h
          ];
          once = λ a. let h = i.once a in omega arith;
          retired = λ a h. absurd (omega arith);
          topics_fit = i.topics_fit;
          retired_fit = omega arith;
          params_fit = i.params_fit;
          idle = λ n. absurd (cc);
          sole = i.sole;
          connected = only_producer (Connected w.producers v.heap w.kt.topics) w.kt.producer p e (
              let c = i.connected p e in
              record {
                pr = c.pr;
                rk = c.rk;
                runs = record {
                  at = c.runs.at;
                  flying = λ a h. absurd (omega (arith, no_flight L c.rk a empty));
                };
                running = c.running;
                thread = c.thread;
                conf = c.conf;
                handles = λ a h.
                    let (name, handle, same) = c.handles a h in
                    let once = i.once a in
                    (name, handle, rw (f.others a (omega (arith, ap (count a) same_ts))) same);
              });
        })

  reap-Inv :
      (L : Laws) (w : World) (ts : List ℕ)
      → Inv w
      → w.kt.retired ≡ ts
      → Returns (λ _ v. Inv v × Keeps w v) (reap ts w)
  unfolding reap
  reap-Inv L w [] i e = returns (i, Keeps-refl w)
  reap-Inv L w (a ∷ rest) i e = elim (Option-cases w.kt.producer) [
    | inl idle ↦ absurd (ground (arith, i.idle idle))
    | inr (p, at) ↦
        let c = i.connected p at in
        rw (outq_busy-connected w p c.pr c.rk at c.runs)
          (elim (Bool-cases (ltb 0 (E.outq_len c.rk))) [
            | inl busy ↦ rw busy (returns (i, Keeps-refl w))
            | inr free ↦ rw free (
                Returns.bind
                  (free_all-Freed (a ∷ rest) w
                    (λ b. let h = i.once b in omega (arith, ap (count b) e))
                    (λ b h. i.retired b (omega (arith, ap (count b) e))))
                  λ _ v f. returns (
                    rw f.kt (reap-Sound L w v p (a ∷ rest) i at free e f),
                    record {
                      topics = ap (λ (kt : Tables). kt.topics) f.kt;
                      producer = ap (λ (kt : Tables). kt.producer) f.kt;
                      params = ap (λ (kt : Tables). kt.params) f.kt;
                      shapes = λ b h.
                          let once = i.once b in
                          ap shape (f.others b (omega (arith, ap (count b) e)));
                      accounts = λ b h.
                          let once = i.once b in
                          rw
                            (
                              f.others b (omega (arith, ap (count b) e)),
                              f.producers,
                              ap (λ (kt : Tables). kt.producer) f.kt,
                            )
                            refl;
                      retains = λ b h l.
                          absurd (ground (arith, f.gone b (omega (arith, ap (count b) e)), l));
                      none_made = λ b h. elim (Bool-cases (ltb 0 (count b (a ∷ rest)))) [
                        | inl x ↦ f.gone b (ground arith)
                        | inr x ↦ f.others b (ground arith) ∙ h
                      ];
                    },
                  ))
          ])
  ]

  -- Where the invariant holds, kafka_table_reap_retired_locked() always returns; then the invariant
  -- holds, so that each record a queued message names is still allocated, and the registered topics,
  -- the producer and the parameters of the table are as before. No message of a registered topic is
  -- lost: what is in the out queue for it and what its counters have seen are together as before.
  pub reap_retired-Inv :
      (L : Laws) (w : World) → Inv w → Returns (λ _ v. Inv v × Keeps w v) (reap_retired w)
  unfolding reap_retired
  reap_retired-Inv L w i = reap-Inv L w w.kt.retired i refl
