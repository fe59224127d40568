-- ===== src/Safety/Creation.antt =====
-- Putting the record of a topic into the table, kafka_table_create().
use trig_emit_kafka.Base.{
  ◌+◌, ◌≡◌, refl, ◌∙◌, Bool, true, false, not, ◌&&◌, Option, arith, inl, inr, Bool-cases,
  if◌then◌else◌, is_some,
}
use trig_emit_kafka.Base.Bytes.{Str, zstr}
use trig_emit_kafka.Env.{Env, Laws}
use trig_emit_kafka.Machine.{World, pure}
use trig_emit_kafka.Machine.Returns
use trig_emit_kafka.Machine.Returns.{Returns, returns}
use trig_emit_kafka.Table.Registry.{create_new, table_create}
use trig_emit_kafka.Safety.Invariant.{Inv}
use trig_emit_kafka.Safety.Account.{load_of-kept}
use trig_emit_kafka.Safety.Holders.{holders, holders-SameShapes}
use trig_emit_kafka.Safety.Lookup.{lookup_name, find_locked-lookup_name}
use trig_emit_kafka.Safety.Removal.{reap_retired-Inv}
use trig_emit_kafka.Safety.Extending.{adds}
use trig_emit_kafka.Safety.Inserting.{Inserted, SameLoads, create_new-Inserted}

module _ ⦃E : Env⦄ where
  -- Was the name found before the call?
  abbrev pub found_before : World → Option Str → Bool
  found_before w name = is_some (lookup_name w.heap name w.kt.topics)

  -- What kafka_table_create() leaves. A name that was registered is ready, and nothing is added; else
  -- success adds one record of the name, which is not empty, and an error adds none.
  pub record Ready (w : World) (name : Option Str) (success : Bool) (v : World) : Type 0 where
    pub inv : Inv v
    pub producer : v.kt.producer ≡ w.kt.producer
    pub params : v.kt.params ≡ w.kt.params
    pub counts :
        (n : Str)
        → holders v.heap n v.kt.topics
          ≡ holders w.heap n w.kt.topics
            + (if success && not (found_before w name) then adds name n else 0)
    pub ready : (found_before w name && not success) ≡ false
    pub filled : ((success && not (found_before w name)) && zstr name) ≡ false
    pub loads : SameLoads w v

  -- Where the invariant holds, kafka_table_create() always returns, whatever fails meanwhile; then the
  -- invariant holds, and the producer and the parameters of the table are as before. If the name was
  -- registered, the call succeeds and registers nothing. If it was not, success registers one record of
  -- the name, which is not empty, and an error registers nothing. Modulo 2^32, what is in the out queue
  -- for the records of each name and what their counters have seen is together as before.
  pub table_create-Ready :
      (L : Laws) (w : World) (name : Option Str)
      → Inv w
      → Returns (Ready w name) (table_create name w)
  unfolding table_create
  table_create-Ready L w name i = rw (find_locked-lookup_name name w i) (
      Returns.bind created λ success v s. Returns.bind (reap_retired-Inv L v s.inv) λ _ u (k, t).
        returns {a = success} (record {
          inv = k;
          producer = t.producer ∙ s.producer;
          params = t.params ∙ s.params;
          counts = λ n.
              rw t.topics (holders-SameShapes v.heap u.heap n v.kt.topics t.shapes ∙ s.counts n);
          ready = s.ready;
          filled = s.filled;
          loads = λ n. load_of-kept v u n t.topics t.shapes t.accounts ∙ s.loads n;
        }))
    where
      created : Returns (Ready w name) (
          (if is_some (lookup_name w.heap name w.kt.topics)
              then pure true
              else create_new w.kt.producer name)
            w)
      created = elim (Bool-cases (is_some (lookup_name w.heap name w.kt.topics))) [
        | inl old ↦ rw old (
            returns {a = true} (record {
              inv = i;
              producer = refl;
              params = refl;
              counts = λ n. rw old (omega arith);
              ready = rw old refl;
              filled = rw old refl;
              loads = λ n. refl;
            }))
        | inr new ↦ rw new (
            Returns.mono (create_new-Inserted L w w.kt.producer name i refl) λ b v s. record {
              inv = s.inv;
              producer = s.producer;
              params = s.params;
              counts = λ n. rw new (as_new b n v s);
              ready = rw new refl;
              filled = rw new (ground (arith, s.filled));
              loads = s.loads;
            })
      ]
        where
          as_new :
              (b : Bool) (n : Str) (v : World)
              → Inserted w name b v
              → holders v.heap n v.kt.topics
                ≡ holders w.heap n w.kt.topics + (if b && not false then adds name n else 0)
          as_new true n v s = s.counts n
          as_new false n v s = s.counts n
