-- ===== src/Safety/Invariant.antt =====
-- What holds of the memory between two calls.
use trig_emit_kafka.Base.{
  ℕ, ◌+◌, ◌≤◌, ◌<◌, ◌≡◌, refl, sym, ap, ◌==◌, ==_iff, Bool, ◌∙◌, true, false, Option, none, some,
  List, [], arith, count, ltb, length,
}
use mathlib.Core.Path.{subst}
use trig_emit_kafka.Env.{Env}
use trig_emit_kafka.Machine.{Topic, Producer, Tables, update, World, initial_tables, ok}
use trig_emit_kafka.Table.Registry.{outq_busy}
use trig_emit_kafka.Safety.Frame.{Live, shape, live-shape}
use trig_emit_kafka.Safety.Polling.{Running, Runs, Settled, Settled-Runs}
use trig_emit_kafka.Safety.Closing.{HasHandle}

module _ ⦃E : Env⦄ where
  -- The producer at `p` runs, its poll thread is started, its configuration is given away, and each
  -- registered topic has a handle of it.
  pub record Connected (producers : ℕ → Option Producer) (heap : ℕ → Option Topic) (topics : List ℕ)
      (p : ℕ) : Type 0 where
    pub pr : Producer
    pub rk : E.Rk
    pub runs : Running producers heap p pr rk
    pub running : pr.running ≡ true
    pub thread : pr.thread_started ≡ true
    pub conf : pr.conf ≡ none
    pub handles : (a : ℕ) → 0 < count a topics → HasHandle heap p a

  -- Is the producer at `q` that of the table?
  abbrev pub held : Option ℕ → ℕ → Bool
  held none q = false
  held (some p) q = q == p

  pub held-some : (o : Option ℕ) (q : ℕ) → held o q ≡ true → o ≡ some q
  held-some none q h = absurd (cc)
  held-some (some p) q h = ap some (sym ((==_iff q p).0 h))

  -- No producer is left but that of the table.
  abbrev pub Sole : (ℕ → Option Producer) → Option ℕ → Type 0
  Sole producers o = (q : ℕ) → held o q ≡ false → producers q ≡ none

  pub Sole-others :
      (f g : ℕ → Option Producer) (o : Option ℕ) (p : ℕ)
      → o ≡ some p
      → Sole f o
      → ((q : ℕ) → (q == p) ≡ false → g q ≡ f q)
      → Sole g o
  Sole-others f g o p e sole same q h =
      let there : held o q ≡ (q == p) = ap (λ o. held o q) e in same q (sym there ∙ h) ∙ sole q h

  pub Sole-update :
      (f : ℕ → Option Producer) (o : Option ℕ) (p : ℕ) (x : Option Producer)
      → o ≡ some p
      → Sole f o
      → Sole (update f p x) o
  Sole-update f o p x e sole = Sole-others f (update f p x) o p e sole λ q ne. rw ne refl

  -- Addresses from `next` on were never given out; the registered and the retired topics are all
  -- different, and the retired ones are allocated; each array has room for its entries; there are
  -- topics only while there is a producer, then it runs, and there is no other.
  pub record Sound (heap : ℕ → Option Topic) (producers : ℕ → Option Producer) (next : ℕ)
      (kt : Tables) : Type 0 where
    pub fresh : (a : ℕ) → next ≤ a → heap a ≡ none
    pub once : (a : ℕ) → count a kt.topics + count a kt.retired ≤ 1
    pub retired : (a : ℕ) → 0 < count a kt.retired → Live heap a
    pub topics_fit : length kt.topics ≤ kt.capacity
    pub retired_fit : length kt.retired ≤ kt.retired_capacity
    pub params_fit : length kt.params ≤ kt.param_capacity
    pub idle : kt.producer ≡ none → (kt.topics ≡ []) × (kt.retired ≡ [])
    pub sole : Sole producers kt.producer
    pub connected : (p : ℕ) → kt.producer ≡ some p → Connected producers heap kt.topics p

  abbrev pub Inv : World → Type 0
  Inv w = Sound w.heap w.producers w.next w.kt

  abbrev pub initial_world : World
  initial_world = record {
    heap = λ _. none;
    producers = λ _. none;
    next = 0;
    kt = initial_tables;
    calls = 0;
    log = [];
  }

  -- The module as the server loads it.
  pub initial_world-Inv : Inv initial_world
  initial_world-Inv = record {
    fresh = λ a h. refl;
    once = λ a. omega arith;
    retired = λ a h. absurd (omega arith);
    topics_fit = omega arith;
    retired_fit = omega arith;
    params_fit = omega arith;
    idle = λ e. (refl, refl);
    sole = λ q h. refl;
    connected = λ p e. absurd (cc);
  }

  pub only_producer :
      (P : ℕ → Type 0) (o : Option ℕ) (p : ℕ) → o ≡ some p → P p → (q : ℕ) → o ≡ some q → P q
  only_producer P o p e x q e' = let same : p ≡ q = cc in subst P same x

  pub shape-none : (s t : Option Topic) → shape t ≡ shape s → s ≡ none → t ≡ none
  shape-none s t same e = ground arith

  -- The live records of registered topics.
  pub topics-Live :
      (w : World) (p : ℕ)
      → Inv w
      → w.kt.producer ≡ some p
      → (a : ℕ) → 0 < count a w.kt.topics
      → Live w.heap a
  topics-Live w p v e a h = let (name, handle, same) = (v.connected p e).handles a h in ground arith

  -- The invariant also holds once reports were served.
  pub Settled-Inv :
      {w v : World} (p : ℕ) (rk' : E.Rk)
      → (i : Inv w) → (e : w.kt.producer ≡ some p)
      → Settled w v p (i.connected p e).pr (i.connected p e).rk rk'
      → Inv v
  Settled-Inv {w} {v} p rk' i e s =
      let c = i.connected p e in
      rw (s.kt, s.next)
        (record {
          fresh = λ a h. shape-none (w.heap a) (v.heap a) (s.shapes a) (i.fresh a h);
          once = i.once;
          retired = λ a h. live-shape (w.heap a) (v.heap a) (s.shapes a) (i.retired a h);
          topics_fit = i.topics_fit;
          retired_fit = i.retired_fit;
          params_fit = i.params_fit;
          idle = λ n. absurd (cc);
          sole = rw s.producers (Sole-update w.producers w.kt.producer p _ e i.sole);
          connected =
              only_producer (Connected v.producers v.heap w.kt.topics) w.kt.producer p e (record {
                pr = c.pr;
                rk = rk';
                runs = Settled-Runs c.runs s;
                running = c.running;
                thread = c.thread;
                conf = c.conf;
                handles = λ a h.
                    let (name, handle, same) = c.handles a h in (name, handle, s.shapes a ∙ same);
              });
        })

  pub outq_busy-connected :
      (w : World) (p : ℕ) (pr : Producer) (rk : E.Rk)
      → w.kt.producer ≡ some p
      → Runs w p pr rk
      → outq_busy w ≡ ok (ltb 0 (E.outq_len rk)) w
  unfolding outq_busy
  outq_busy-connected w p pr rk e r = rw (e, r.at)

  pub outq_busy-idle : (w : World) → w.kt.producer ≡ none → outq_busy w ≡ ok false w
  unfolding outq_busy
  outq_busy-idle w e = rw e
