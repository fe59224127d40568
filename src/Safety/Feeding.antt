-- ===== src/Safety/Feeding.antt =====
-- Serving reports between two messages: what polls and flushes leave.
use trig_emit_kafka.Base.{ℕ, ◌+◌, ◌<◌, ◌≡◌, refl, ◌∙◌, ap, some, arith, count, ==_refl}
use trig_emit_kafka.Env.{Env, Laws}
use trig_emit_kafka.Machine.{World, Tables, update}
use trig_emit_kafka.Machine.Returns
use trig_emit_kafka.Machine.Returns.{Returns, returns, Safe, done, waits}
use trig_emit_kafka.Engine.Producer.{poll_producer, producer_round, producer_flush}
use trig_emit_kafka.Safety.Frame.{Live, shape}
use trig_emit_kafka.Safety.Polling.{
  with_rk, Settled, Settled-Runs, poll_producer-Settled, producer_flush-Settled,
}
use trig_emit_kafka.Safety.Account.{Accounts, queued_for-rk}
use trig_emit_kafka.Safety.Invariant.{
  Inv, Sound, Connected, only_producer, Settled-Inv, Sole-update,
}

module _ ⦃E : Env⦄ where
  -- From `w` to `v` messages were queued or reported: the table is the same, and no record was
  -- created, freed or renamed. The record at `a` got `more a` messages.
  pub record Fed (w : World) (more : ℕ → ℕ) (v : World) : Type 0 where
    pub inv : Inv v
    pub kt : v.kt ≡ w.kt
    pub shapes : (a : ℕ) → shape (v.heap a) ≡ shape (w.heap a)
    pub accounts : Accounts w more v

  -- No message came or went.
  abbrev pub none_more : ℕ → ℕ
  none_more a = 0

  pub Fed-refl : (w : World) → Inv w → Fed w none_more w
  Fed-refl w i = record { inv = i; kt = refl; shapes = λ a. refl; accounts = λ a. omega arith }

  pub Fed-trans : {u v w : World} {m n : ℕ → ℕ} → Fed u m v → Fed v n w → Fed u (λ a. m a + n a) w
  Fed-trans f g = record {
    inv = g.inv;
    kt = g.kt ∙ f.kt;
    shapes = λ a. g.shapes a ∙ f.shapes a;
    accounts = λ a. let x = f.accounts a in let y = g.accounts a in omega arith;
  }

  -- More steps, after one that only served reports.
  pub Fed-then : {u v w : World} {more : ℕ → ℕ} → Fed u none_more v → Fed v more w → Fed u more w
  Fed-then f g = record {
    inv = g.inv;
    kt = g.kt ∙ f.kt;
    shapes = λ a. g.shapes a ∙ f.shapes a;
    accounts = λ a. let x = f.accounts a in let y = g.accounts a in omega arith;
  }

  -- Serving reports moves messages from the queue to the counters.
  pub Settled-Fed :
      (w v : World) (p : ℕ) (rk' : E.Rk)
      → (i : Inv w) → (e : w.kt.producer ≡ some p)
      → Settled w v p (i.connected p e).pr (i.connected p e).rk rk'
      → Fed w none_more v
  Settled-Fed w v p rk' i e s =
      let c = i.connected p e in
      record {
        inv = Settled-Inv p rk' i e s;
        kt = s.kt;
        shapes = s.shapes;
        accounts = λ a.
            let after =
              queued_for-rk v.producers v.kt.producer p a c.pr rk'
                (ap (λ (kt : Tables). kt.producer) s.kt ∙ e) (Settled-Runs c.runs s).at in
            let before = queued_for-rk w.producers w.kt.producer p a c.pr c.rk e c.runs.at in
            omega (arith, after, before, s.conserved a);
      }

  module _ (L : Laws) (w : World) (p : ℕ) (i : Inv w) (e : w.kt.producer ≡ some p) where
    pub poll_producer-Fed : Returns (λ _ v. Fed w none_more v) (poll_producer p w)
    poll_producer-Fed =
        let c = i.connected p e in
        Returns.mono (poll_producer-Settled L w p c.pr c.rk c.runs)
          λ _ v (rk', s). Settled-Fed w v p rk' i e s

    pub producer_flush-Fed : Returns (λ _ v. Fed w none_more v) (producer_flush (some p) w)
    producer_flush-Fed =
        let c = i.connected p e in
        Returns.mono (producer_flush-Settled L w p c.pr c.rk c.runs)
          λ _ v (rk', s, _). Settled-Fed w v p rk' i e s

    -- One round of the poll thread.
    pub producer_round-Fed : Returns (λ _ v. Fed w none_more v) (producer_round p w)
    unfolding producer_round
    producer_round-Fed = let c = i.connected p e in rw (c.runs.at, c.running) poll_producer-Fed

    -- The handle moved on, and its queue still names allocated records only.
    pub swap_rk-Sound :
        (rk' : E.Rk)
        → ((a : ℕ) → 0 < count a (E.in_flight rk') → Live w.heap a)
        → Sound w.heap (update w.producers p (some (with_rk (i.connected p e).pr rk'))) w.next w.kt
    swap_rk-Sound rk' flying = record {
      fresh = i.fresh;
      once = i.once;
      retired = i.retired;
      topics_fit = i.topics_fit;
      retired_fit = i.retired_fit;
      params_fit = i.params_fit;
      idle = i.idle;
      sole = Sole-update w.producers w.kt.producer p _ e i.sole;
      connected = only_producer (Connected _ w.heap w.kt.topics) w.kt.producer p e (
          let c = i.connected p e in
          record {
            pr = c.pr;
            rk = rk';
            runs = record { at = ground (arith, ==_refl p); flying = flying };
            running = c.running;
            thread = c.thread;
            conf = c.conf;
            handles = c.handles;
          });
    }
