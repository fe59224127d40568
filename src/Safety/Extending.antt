-- ===== src/Safety/Extending.antt =====
-- A heap with one more record, and the queue of the producer that it was made for.
use trig_emit_kafka.Base.{
  ℕ, suc, ◌+◌, ◌≡◌, ◌∙◌, ap, false, Option, none, some, arith, count, if◌then◌else◌, ◌==◌,
}
use trig_emit_kafka.Base.Bytes.{Str, str_eq}
use trig_emit_kafka.Env.{Env}
use trig_emit_kafka.Machine.{Topic, Producer, World, update}
use trig_emit_kafka.Safety.Frame.{Live}
use trig_emit_kafka.Safety.Polling.{with_rk, update_self}
use trig_emit_kafka.Safety.Account.{queued_for, queued_for-rk, queued_for-same}
use trig_emit_kafka.Safety.Invariant.{Inv, Sound, Connected, only_producer, Sole-others}
use trig_emit_kafka.Safety.Lookup.{all-Live}

module _ ⦃E : Env⦄ where
  -- What one more record of the first name adds to the holders of the second.
  abbrev pub adds : Option Str → Str → ℕ
  adds none n = 0
  adds (some name) n = if str_eq name n then 1 else 0

  module _ (w : World) (i : Inv w) (p : ℕ) (e : w.kt.producer ≡ some p) where
    abbrev pub conn : Connected w.producers w.heap w.kt.topics p
    conn = i.connected p e

    pub fresh-ne : (b : ℕ) → Live w.heap b → (b == w.next) ≡ false
    fresh-ne b live = ground (arith, i.fresh b)

    -- The heap changed at most at the address that was given out last, and the producer's handle moved on
    -- with the same queue.
    pub extend-Sound :
        (heap : ℕ → Option Topic) (producers : ℕ → Option Producer) (rk' : E.Rk)
        → ((b : ℕ) → (b == w.next) ≡ false → heap b ≡ w.heap b)
        → producers p ≡ some (with_rk conn.pr rk')
        → ((q : ℕ) → (q == p) ≡ false → producers q ≡ w.producers q)
        → E.in_flight rk' ≡ E.in_flight conn.rk
        → Sound heap producers (suc w.next) w.kt
    extend-Sound heap producers rk' same at others queue = record {
      fresh = λ b h. same b (ground arith) ∙ i.fresh b (omega arith);
      once = i.once;
      retired = λ b h. rw (same b (fresh-ne b (i.retired b h))) (i.retired b h);
      topics_fit = i.topics_fit;
      retired_fit = i.retired_fit;
      params_fit = i.params_fit;
      idle = λ n. absurd (cc);
      sole = Sole-others w.producers producers w.kt.producer p e i.sole others;
      connected = only_producer (Connected producers heap w.kt.topics) w.kt.producer p e (record {
        pr = conn.pr;
        rk = rk';
        runs = record {
          at = at;
          flying = λ b h.
              let live = conn.runs.flying b (omega (arith, ap (count b) queue)) in
              rw (same b (fresh-ne b live)) live;
        };
        running = conn.running;
        thread = conn.thread;
        conf = conn.conf;
        handles = λ b h.
            let (name, handle, eq) = conn.handles b h in
            (name, handle, rw (same b (fresh-ne b (all-Live w i b h))) eq);
      });
    }

    -- The queue is as before, and names no record that was not there.
    pub queue_kept :
        (rk' : E.Rk) (b : ℕ)
        → E.in_flight rk' ≡ E.in_flight conn.rk
        → queued_for (update w.producers p (some (with_rk conn.pr rk'))) w.kt.producer b
          ≡ queued_for w.producers w.kt.producer b
    queue_kept rk' b queue =
        queued_for-same w.producers (update w.producers p (some (with_rk conn.pr rk')))
          w.kt.producer p b conn.pr conn.pr conn.rk rk' e conn.runs.at (update_self w p _) queue

    pub none_queued : queued_for w.producers w.kt.producer w.next ≡ 0
    none_queued =
        let here =
          queued_for-rk w.producers w.kt.producer p w.next conn.pr conn.rk e conn.runs.at in
        ground (arith, here, i.fresh w.next, conn.runs.flying w.next)

    pub unlisted : count w.next w.kt.topics + count w.next w.kt.retired ≡ 0
    unlisted = ground (arith, i.fresh w.next, i.once w.next, i.retired w.next, all-Live w i w.next)
