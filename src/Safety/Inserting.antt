-- ===== src/Safety/Inserting.antt =====
-- Putting a new topic record at the end of the table, kafka_table_create().
use trig_emit_kafka.Base.{
  ◌%◌, ◌^◌, ℕ, ◌+◌, ◌<◌, ◌≡◌, refl, sym, ◌∙◌, ap, Bool, true, false, ◌&&◌, Option, none, some, [],
  ◌∷◌, ◌++◌, arith, inl, inr, Bool-cases, count, if◌then◌else◌, ◌==◌, length, ==_iff, Option-cases,
  count-append, length-append,
}
use trig_emit_kafka.Base.Bytes.{Str, zstr}
use trig_emit_kafka.Env.{Env, Laws}
use trig_emit_kafka.Machine.{World, Tables}
use trig_emit_kafka.Machine.Returns
use trig_emit_kafka.Machine.Returns.{Returns, returns}
use trig_emit_kafka.Table.Registry.{insert_topic, create_new}
use trig_emit_kafka.Safety.Closing.{HasHandle}
use trig_emit_kafka.Safety.Invariant.{Inv, Sound, Connected, only_producer}
use trig_emit_kafka.Safety.Account.{
  account, queued_for, SameAccounts, load, load_of, load_of-kept, load-append,
}
use trig_emit_kafka.Safety.Frame.{tally}
use mathlib.Core.Path.{subst}
use trig_emit_kafka.Safety.Holders.{SameShapes, holders, holders-SameShapes, holders-append}
use native.Mathlib.Nat.{add-zero}
use trig_emit_kafka.Safety.Lookup.{grow_cases, check_slot-ok}
use trig_emit_kafka.Safety.Extending.{adds}
use trig_emit_kafka.Safety.Making.{topic_create-Made}

module _ ⦃E : Env⦄ where
  pub append-Sound :
      (w : World) (a p : ℕ)
      → Inv w
      → w.kt.producer ≡ some p
      → HasHandle w.heap p a
      → count a w.kt.topics + count a w.kt.retired ≡ 0
      → length w.kt.topics < w.kt.capacity
      → Sound w.heap w.producers w.next (record w.kt { topics = w.kt.topics ++ a ∷ [] })
  append-Sound w a p i e (name, handle, same) unlisted room = record {
    fresh = i.fresh;
    once = λ b. let h = i.once b in ground (arith, unlisted, count-append b w.kt.topics (a ∷ []));
    retired = i.retired;
    topics_fit = omega (arith, length-append w.kt.topics (a ∷ []));
    retired_fit = i.retired_fit;
    params_fit = i.params_fit;
    idle = λ n. absurd (cc);
    sole = i.sole;
    connected =
        only_producer (Connected w.producers w.heap (w.kt.topics ++ a ∷ [])) w.kt.producer p e (
          let c = i.connected p e in
          record {
            pr = c.pr;
            rk = c.rk;
            runs = c.runs;
            running = c.running;
            thread = c.thread;
            conf = c.conf;
            handles = λ b h. elim (Bool-cases (b == a)) [
              | inl eq ↦ let same' : b ≡ a = (==_iff b a).0 eq in rw same' (name, handle, same)
              | inr ne ↦ c.handles b (ground (arith, count-append b w.kt.topics (a ∷ [])))
            ];
          });
  }

  -- The registered records of each name have as many messages as before.
  abbrev pub SameLoads : World → World → Type 0
  SameLoads w v = (n : Str) → load_of v n % 2 ^ 32 ≡ load_of w n % 2 ^ 32

  -- A topic that was not registered was created, or not: success adds one record of the name, which
  -- is not empty. The producer and the parameters are as before.
  pub record Inserted (w : World) (name : Option Str) (success : Bool) (v : World) : Type 0 where
    pub inv : Inv v
    pub producer : v.kt.producer ≡ w.kt.producer
    pub params : v.kt.params ≡ w.kt.params
    pub counts :
        (n : Str)
        → holders v.heap n v.kt.topics
          ≡ holders w.heap n w.kt.topics + (if success then adds name n else 0)
    pub filled : (success && zstr name) ≡ false
    pub loads : SameLoads w v

  -- The messages of a name once the record at `a` is appended to the topics of `kt`.
  abbrev pub inserted_load : World → ℕ → Str → Tables → ℕ
  inserted_load v a n kt =
      load v.heap (λ b. tally (v.heap b) + queued_for v.producers kt.producer b) n
        (kt.topics ++ a ∷ [])

  pub insert-load :
      (w v : World) (a : ℕ) (n : Str)
      → v.kt ≡ w.kt
      → SameShapes w.heap v.heap w.kt.topics
      → SameAccounts w v w.kt.topics
      → account v a ≡ 0
      → inserted_load v a n v.kt % 2 ^ 32 ≡ load_of w n % 2 ^ 32
  insert-load w v a n same shapes accounts none_yet =
      ap (λ k. k % 2 ^ 32) (load-append v.heap (account v) n v.kt.topics a none_yet)
      ∙ load_of-kept w v n (ap (λ (kt : Tables). kt.topics) same) shapes accounts

  pub insert_topic-Inserted :
      (L : Laws) (w : World) (p : ℕ) (name : Option Str)
      → Inv w
      → w.kt.producer ≡ some p
      → length w.kt.topics < w.kt.capacity
      → Returns (Inserted w name) (insert_topic p w.kt.capacity name w)
  unfolding insert_topic
  insert_topic-Inserted L w p name i e room =
      Returns.bind (topic_create-Made w i p e L name) λ o v m. elim (Option-cases o) [
        | inl failed ↦ rw failed (
            returns {a = false} (record {
              inv = m.inv;
              producer = ap (λ (kt : Tables). kt.producer) m.kt;
              params = ap (λ (kt : Tables). kt.params) m.kt;
              counts = λ n.
                  rw m.kt
                    (holders-SameShapes w.heap v.heap n w.kt.topics m.shapes ∙ sym (add-zero _));
              filled = refl;
              loads = λ n.
                  load_of-kept w v n (ap (λ (kt : Tables). kt.topics) m.kt) m.shapes m.accounts;
            }))
        | inr (a, made) ↦
            let new = m.made a made in
            let none_yet : account v a ≡ 0 = rw m.kt new.empty in
            rw (made, ← m.kt, check_slot-ok (length v.kt.topics) v.kt.capacity v (rw m.kt room))
              (returns {a = true} (record {
                inv =
                    append-Sound v a p m.inv (ap (λ (kt : Tables). kt.producer) m.kt ∙ e) new.handle
                      (rw m.kt new.unlisted) (rw m.kt room);
                producer = refl;
                params = refl;
                counts = λ n.
                    let same : holders v.heap n v.kt.topics ≡ holders w.heap n v.kt.topics =
                      rw m.kt (holders-SameShapes w.heap v.heap n w.kt.topics m.shapes) in
                    omega (arith, holders-append v.heap n v.kt.topics a, new.title n, same);
                filled = new.filled;
                loads = λ n. rw m.kt (
                    subst (λ kt. inserted_load v a n kt % 2 ^ 32 ≡ load_of w n % 2 ^ 32) m.kt
                      (insert-load w v a n m.kt m.shapes m.accounts none_yet));
              }))
      ]

  pub create_new-Inserted :
      (L : Laws) (w : World) (o : Option ℕ) (name : Option Str)
      → Inv w
      → w.kt.producer ≡ o
      → Returns (Inserted w name) (create_new o name w)
  unfolding create_new
  create_new-Inserted L w none name i e = returns {a = false} (record {
    inv = i;
    producer = refl;
    params = refl;
    counts = λ n. omega arith;
    filled = refl;
    loads = λ n. refl;
  })
  create_new-Inserted L w (some p) name i e =
      grow_cases (Returns (Inserted w name)) _ w.kt.capacity (length w.kt.topics) w i.topics_fit
        (λ n. returns {a = false} (record {
          inv = i;
          producer = refl;
          params = refl;
          counts = λ n'. omega arith;
          filled = refl;
          loads = λ n'. refl;
        }))
        (λ n c room.
          Returns.mono
            (insert_topic-Inserted L (record w { kt = record w.kt { capacity = c }; calls = n }) p
              name
              (record {
                fresh = i.fresh;
                once = i.once;
                retired = i.retired;
                topics_fit = omega arith;
                retired_fit = i.retired_fit;
                params_fit = i.params_fit;
                idle = i.idle;
                sole = i.sole;
                connected = i.connected;
              })
              e room)
            (λ b v s. record {
              inv = s.inv;
              producer = s.producer;
              params = s.params;
              counts = s.counts;
              filled = s.filled;
              loads = s.loads;
            }))
