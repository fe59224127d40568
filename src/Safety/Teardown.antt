-- ===== src/Safety/Teardown.antt =====
-- kafka_table_dismiss_all().
use trig_emit_kafka.Base.{
  ℕ, ◌+◌, ◌<◌, ◌≡◌, refl, sym, ◌∙◌, ap, Option, none, some, List, [], arith, inl, inr, Bool-cases,
  count, ltb, is_some, false, ◌==◌, ==_iff,
}
use trig_emit_kafka.Env.{Env, Laws}
use trig_emit_kafka.Machine.{Topic, Producer, World, Tables, ◌>>=◌, ◌>>◌, get_kt, put_kt}
use trig_emit_kafka.Machine.Returns
use trig_emit_kafka.Machine.Returns.{Returns, returns}
use trig_emit_kafka.Engine.Producer.{producer_dispose}
use trig_emit_kafka.Table.Connection.{table_dismiss_all, teardown, flush_all, dispose_all}
use trig_emit_kafka.Safety.Frame.{shape}
use trig_emit_kafka.Safety.Closing.{dispose_all-ClosedAll, free_all-Freed}
use trig_emit_kafka.Safety.Invariant.{Inv, held}
use trig_emit_kafka.Table.Registry.{free_all}
use trig_emit_kafka.Safety.Lookup.{all-Live}
use trig_emit_kafka.Safety.Calls.{flush-Fed}
use trig_emit_kafka.Safety.Feeding.{Fed, Fed-refl, none_more}
use trig_emit_kafka.Safety.Disposing.{producer_dispose-Disposed}

module _ ⦃E : Env⦄ where
  -- What kafka_table_dismiss_all() leaves: an empty table with the parameters of before. Each record
  -- that was in the table is freed, and no producer is left.
  pub record Emptied (w v : World) : Type 0 where
    pub inv : Inv v
    pub kt : v.kt ≡ record w.kt {
      producer = none;
      topics = [];
      capacity = 0;
      retired = [];
      retired_capacity = 0;
    }
    pub producers : (q : ℕ) → v.producers q ≡ none
    pub freed : (a : ℕ) → 0 < count a w.kt.topics + count a w.kt.retired → v.heap a ≡ none

  -- The part behind the producer's disposal, in a state `u` where the listed records are live.
  free_lists :
      (w u : World) (ts rs : List ℕ)
      → w.kt.topics ≡ ts
      → w.kt.retired ≡ rs
      → (i : Inv w) → u.kt ≡ w.kt
      → u.next ≡ w.next
      → ((q : ℕ) → u.producers q ≡ none)
      → ((a : ℕ) → is_some (u.heap a) ≡ is_some (w.heap a))
      → Returns
          (λ _ v. Emptied w v)
          ((◌>>=◌ get_kt λ kt.
              put_kt (record kt { producer = none })
              >> (free_all ts
                  >> (◌>>=◌ get_kt λ kt.
                      put_kt (record kt { topics = []; capacity = 0 })
                      >> (free_all rs
                          >> (◌>>=◌ get_kt
                              λ kt. put_kt (record kt { retired = []; retired_capacity = 0 }))))))
            u)
  free_lists w u ts rs et er i kt next disposed occ =
      Returns.bind
        (free_all-Freed ts (record u { kt = _ })
          (λ a. let h = i.once a in omega (arith, ap (count a) et))
          (λ a h. occ a ∙ all-Live w i a (omega (arith, ap (count a) et))))
        λ _ v f.
          Returns.bind
            (free_all-Freed rs (record v { kt = _ })
              (λ a. let h = i.once a in omega (arith, ap (count a) er))
              (λ a h.
                let once = i.once a in
                ap is_some (f.others a (omega (arith, ap (count a) et, ap (count a) er)))
                ∙ occ a
                ∙ i.retired a (omega (arith, ap (count a) er))))
            λ _ t g.
              let same =
                ap (λ (k : Tables). record k { retired = []; retired_capacity = 0 })
                  (g.kt
                    ∙ ap (λ (k : Tables). record k { topics = []; capacity = 0 })
                        (f.kt ∙ ap (λ (k : Tables). record k { producer = none }) kt)) in
              returns (record {
                inv = rw same (record {
                  fresh = λ a h.
                      let gone =
                        none_of (w.heap a) (u.heap a) (occ a)
                          (i.fresh a (omega (arith, g.next, f.next, next))) in
                      ground (arith, f.gone a, f.others a, g.gone a, g.others a, gone);
                  once = λ a. omega arith;
                  retired = λ a h. absurd (omega arith);
                  topics_fit = omega arith;
                  retired_fit = omega arith;
                  params_fit = i.params_fit;
                  idle = λ _. (refl, refl);
                  sole = λ q _. ap (λ f. f q) (g.producers ∙ f.producers) ∙ disposed q;
                  connected = λ p e. absurd (cc);
                });
                kt = same;
                producers = λ q. ap (λ f. f q) (g.producers ∙ f.producers) ∙ disposed q;
                freed = λ a h. ground (
                  arith,
                  f.gone a,
                  f.others a,
                  g.gone a,
                  g.others a,
                  ap (count a) et,
                  ap (count a) er,
                );
              })
    where
      none_of : (s t : Option Topic) → is_some t ≡ is_some s → s ≡ none → t ≡ none
      none_of s t occ' gone = ground arith

  occupied_of : (s t : Option Topic) → shape t ≡ shape s → is_some t ≡ is_some s
  occupied_of s t same = ground arith

  teardown-Emptied :
      (L : Laws) (w : World) (o : Option ℕ) (ts rs : List ℕ)
      → Inv w
      → w.kt.producer ≡ o
      → w.kt.topics ≡ ts
      → w.kt.retired ≡ rs
      → Returns (λ _ v. Emptied w v) (teardown o ts rs w)
  unfolding teardown producer_dispose dispose_all
  teardown-Emptied L w none ts rs i e et er =
      let empty : ts ≡ [] = sym et ∙ (i.idle e).0 in
      rw empty (
        free_lists w w [] rs (i.idle e).0 er i refl refl (λ q. i.sole q (ap (λ o. held o q) e))
          (λ a. refl))
  teardown-Emptied L w (some p) ts rs i e et er =
      let c = i.connected p e in
      Returns.bind
        (dispose_all-ClosedAll L ts w p c.pr c.rk c.runs
          (λ a. let h = i.once a in omega (arith, ap (count a) et))
          (λ a h. c.handles a (omega (arith, ap (count a) et))))
        λ _ v (rk', d).
          Returns.bind
            (producer_dispose-Disposed L v p c.pr rk' (record {
              at = d.at;
              flying = λ a h. d.occupied a ∙ c.runs.flying a (omega (arith, ap (count a) d.queue));
            }))
            λ _ u (x, _).
              free_lists w u ts rs et er i (x.kt ∙ d.kt) (x.next ∙ d.next)
                (none_left x.gone λ q ne.
                  x.others q ne ∙ d.other_producers q ne ∙ i.sole q (ap (λ o. held o q) e ∙ ne))
                (λ a. occupied_of (v.heap a) (u.heap a) (x.shapes a) ∙ d.occupied a)
    where
      none_left :
          {f : ℕ → Option Producer}
          → f p ≡ none
          → ((q : ℕ) → (q == p) ≡ false → f q ≡ none)
          → (q : ℕ) → f q ≡ none
      none_left {f} gone others q = elim (Bool-cases (q == p)) [
        | inl eq ↦ let same : q ≡ p = (==_iff q p).0 eq in ap f same ∙ gone
        | inr ne ↦ others q ne
      ]

  flush_all-Fed : (L : Laws) (w : World) → Inv w → Returns (λ _ v. Fed w none_more v) (flush_all w)
  unfolding flush_all
  flush_all-Fed L w i = elim (Bool-cases (is_some w.kt.producer)) [
    | inl some_producer ↦ rw some_producer (
        Returns.bind (flush-Fed L w w.kt.producer i refl) λ n v f. elim (Bool-cases (ltb 0 n)) [
          | inl left ↦ rw left (
              returns (record { inv = f.inv; kt = f.kt; shapes = f.shapes; accounts = f.accounts }))
          | inr drained ↦ rw drained (returns f)
        ])
    | inr no_producer ↦ rw no_producer (returns (Fed-refl w i))
  ]

  pub table_dismiss_all-Emptied :
      (L : Laws) (w : World) → Inv w → Returns (λ _ v. Emptied w v) (table_dismiss_all w)
  unfolding table_dismiss_all
  table_dismiss_all-Emptied L w i = Returns.bind (flush_all-Fed L w i) λ _ v f.
      Returns.mono
        (teardown-Emptied L v v.kt.producer v.kt.topics v.kt.retired f.inv refl refl refl)
        λ _ u m. record {
          inv = m.inv;
          kt = rw (← f.kt) m.kt;
          producers = m.producers;
          freed = rw (← f.kt) m.freed;
        }
