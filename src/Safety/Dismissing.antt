-- ===== src/Safety/Dismissing.antt =====
-- kafka_table_dismiss() is safe.
use trig_emit_kafka.Base.{
  ℕ, ◌<◌, count, ◌≡◌, refl, ◌∙◌, ap, false, Option, none, some, List, arith, inl, inr, Bool-cases,
  Option-cases, is_some, get_elem?, swap_remove,
}
use trig_emit_kafka.Base.Bytes.{Str, zstr}
use trig_emit_kafka.Env.{Env, Laws}
use trig_emit_kafka.Machine.{World, Tables}
use trig_emit_kafka.Machine.Returns
use trig_emit_kafka.Machine.Returns.{Returns, returns, Safe, done, waits}
use trig_emit_kafka.Table.Registry.{table_dismiss, dismiss_at, dismiss_found}
use trig_emit_kafka.Safety.Invariant.{Inv}
use trig_emit_kafka.Safety.Holders.{SameShapes}
use trig_emit_kafka.Safety.Lookup.{all-Live, index_in, index_in-named, find_index-index_in}
use trig_emit_kafka.Safety.Frame.{Live}
use trig_emit_kafka.Safety.Removal.{Keeps, reap_retired-Inv}
use trig_emit_kafka.Safety.Retiring.{remove_locked-Inv}
use trig_emit_kafka.Safety.Calls.{flush-Fed}
use trig_emit_kafka.Safety.Account.{SameAccounts}

module _ ⦃E : Env⦄ where
  -- The topics that kafka_table_dismiss() leaves, where the name was found at an index or not.
  abbrev pub without : Option ℕ → List ℕ → List ℕ
  without none ts = ts
  without (some i) ts = swap_remove i ts

  pub record Dismissed (w : World) (found : Option ℕ) (v : World) : Type 0 where
    pub inv : Inv v
    pub topics : v.kt.topics ≡ without found w.kt.topics
    pub producer : v.kt.producer ≡ w.kt.producer
    pub params : v.kt.params ≡ w.kt.params
    pub shapes : SameShapes w.heap v.heap (without found w.kt.topics)
    pub accounts : SameAccounts w v (without found w.kt.topics)
    pub retains : (a : ℕ) → 0 < count a w.kt.retired → Live v.heap a → 0 < count a v.kt.retired

  dismiss_at-Inv :
      (L : Laws) (w : World) (name : Str) (idx p : ℕ)
      → Inv w
      → w.kt.producer ≡ some p
      → index_in w.heap name w.kt.topics ≡ some idx
      → Returns (λ _ v. Dismissed w (some idx) v) (dismiss_at name idx w)
  unfolding dismiss_at
  dismiss_at-Inv L w name idx p i e found =
      let (a, at, hit) = index_in-named w.heap name w.kt.topics idx found in
      Returns.bind (flush-Fed L (record w { log = _ }) w.kt.producer i refl) λ _ v f.
        Returns.mono
          (remove_locked-Inv L v idx a p f.inv (ap (λ (kt : Tables). kt.producer) f.kt ∙ e)
            (ap (λ (kt : Tables). get_elem? kt.topics idx) f.kt ∙ at))
          λ _ u (j, k). record {
            inv = j;
            topics = k.topics ∙ ap (λ (kt : Tables). swap_remove idx kt.topics) f.kt;
            producer = k.producer ∙ ap (λ (kt : Tables). kt.producer) f.kt;
            params = k.params ∙ ap (λ (kt : Tables). kt.params) f.kt;
            shapes = λ b h. k.shapes b (rw f.kt h) ∙ f.shapes b;
            accounts =
                λ b h. let x = k.accounts b (rw f.kt h) in let y = f.accounts b in omega arith;
            retains = λ b h l. k.retains b (rw f.kt h) l;
          }

  dismiss_found-Dismissed :
      (L : Laws) (w : World) (name : Str) (o : Option ℕ)
      → Inv w
      → index_in w.heap name w.kt.topics ≡ o
      → Returns (λ _ v. Dismissed w o v) (dismiss_found name o w)
  unfolding dismiss_found
  dismiss_found-Dismissed L w name none i found = returns (record {
    inv = i;
    topics = refl;
    producer = refl;
    params = refl;
    shapes = λ b h. refl;
    accounts = λ b h. refl;
    retains = λ b h l. h;
  })
  dismiss_found-Dismissed L w name (some idx) i found = elim (Option-cases w.kt.producer) [
    | inl idle ↦
        absurd (ground (arith, i.idle idle, index_in-named w.heap name w.kt.topics idx found))
    | inr (p, e) ↦ dismiss_at-Inv L w name idx p i e found
  ]

  -- Where the invariant holds, kafka_table_dismiss() of a name that is not empty always returns. It
  -- says whether the name was registered; if it was, the last entry took the place of the first entry
  -- of that name, and if not, the topics are as before. The records of the topics that are left were not
  -- freed or renamed, and what was sent to them is queued or counted as before. A record that was retired
  -- before is retired still or freed. The invariant holds after it, and the producer of the table and
  -- the parameters are as before.
  pub table_dismiss-Dismissed :
      (L : Laws) (w : World) (name : Str)
      → Inv w
      → zstr (some name) ≡ false
      → let found = index_in w.heap name w.kt.topics in
        Returns (λ done v. (done ≡ is_some found) × Dismissed w found v) (table_dismiss name w)
  unfolding table_dismiss
  table_dismiss-Dismissed L w name i filled =
      rw (filled, find_index-index_in name w.kt.topics w (all-Live w i))
        (Returns.bind (dismiss_found-Dismissed L w name (index_in w.heap name w.kt.topics) i refl)
          λ _ v d. Returns.bind (reap_retired-Inv L v d.inv) λ _ u (j, k).
            let out : Dismissed w (index_in w.heap name w.kt.topics) u = record {
              inv = j;
              topics = k.topics ∙ d.topics;
              producer = k.producer ∙ d.producer;
              params = k.params ∙ d.params;
              shapes = λ b h. k.shapes b (rw d.topics h) ∙ d.shapes b h;
              accounts = λ b h. k.accounts b (rw d.topics h) ∙ d.accounts b h;
              retains = λ b h l. k.retains b (d.retains b h (was_live k b l)) l;
            } in
            elim (Bool-cases (is_some (index_in w.heap name w.kt.topics))) [
              | inl hit ↦ rw hit (returns (refl, out))
              | inr miss ↦ rw miss (
                  returns (
                    refl,
                    record {
                      inv = out.inv;
                      topics = out.topics;
                      producer = out.producer;
                      params = out.params;
                      shapes = out.shapes;
                      accounts = out.accounts;
                      retains = out.retains;
                    },
                  ))
            ])
    where
      was_live : {v u : World} → Keeps v u → (b : ℕ) → Live u.heap b → Live v.heap b
      was_live {v} {u} k b l = elim (Option-cases (v.heap b)) [
        | inl gone ↦ absurd (ground (arith, k.none_made b gone, l))
        | inr (topic, there) ↦ rw there refl
      ]
