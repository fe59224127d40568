-- ===== src/Safety/Retiring.antt =====
-- Taking a topic out of the table: its record is freed, or retired while messages name it.
use trig_emit_kafka.Base.{
  ◌==◌, ℕ, ◌≡◌, refl, ◌∙◌, ap, false, Option, none, some, arith, inl, inr, Bool-cases, ltb, ==_refl,
  Option-cases, is_some, get_elem?, swap_remove, count-swap_remove, count_of_get_elem?,
}
use trig_emit_kafka.Env.{Env, Laws}
use trig_emit_kafka.Machine.{Topic, World, Tables, update, free_topic}
use trig_emit_kafka.Machine.Returns
use trig_emit_kafka.Machine.Returns.{Returns, returns}
use trig_emit_kafka.Table.Registry.{retire, remove_locked}
use trig_emit_kafka.Safety.Frame.{shape}
use trig_emit_kafka.Safety.Closing.{HasHandle-owned, topic_dispose-Closed}
use trig_emit_kafka.Safety.Invariant.{Inv, Connected, only_producer, outq_busy-connected}
use trig_emit_kafka.Safety.Account.{queued_for-same}
use trig_emit_kafka.Safety.Polling.{update_self}
use trig_emit_kafka.Safety.Removal.{Keeps, Unlisted, no_flight}
use trig_emit_kafka.Safety.Parking.{park-Inv, Closed-Unlisted}

module _ ⦃E : Env⦄ where
  pub Unlisted-free :
      (L : Laws) (w : World) (a p : ℕ)
      → (u : Unlisted w a) (e : w.kt.producer ≡ some p)
      → ltb 0 (E.outq_len (u.inv.connected p e).rk) ≡ false
      → Returns (λ _ v. Inv v × Keeps w v) (free_topic a w)
  unfolding free_topic
  Unlisted-free L w a p u e empty = elim (Option-cases (w.heap a)) [
    | inl gone ↦ absurd (ground (arith, u.live))
    | inr (topic, here) ↦ rw here (
        returns (
          record {
            fresh = λ b h. ground (arith, u.inv.fresh b);
            once = u.inv.once;
            retired = λ b h. ground (arith, u.inv.retired b, u.unlisted);
            topics_fit = u.inv.topics_fit;
            retired_fit = u.inv.retired_fit;
            params_fit = u.inv.params_fit;
            idle = u.inv.idle;
            sole = u.inv.sole;
            connected =
                only_producer (Connected w.producers (update w.heap a none) w.kt.topics)
                  w.kt.producer p e
                  (let c = u.inv.connected p e in
                    record {
                      pr = c.pr;
                      rk = c.rk;
                      runs = record {
                        at = c.runs.at;
                        flying = λ b h. absurd (omega (arith, no_flight L c.rk b empty));
                      };
                      running = c.running;
                      thread = c.thread;
                      conf = c.conf;
                      handles = λ b h.
                          let (name, handle, same) = c.handles b h in
                          (name, handle, ground (arith, u.unlisted));
                    });
          },
          record {
            topics = refl;
            producer = refl;
            params = refl;
            shapes = λ b h. ground (arith, u.unlisted);
            accounts = λ b h. let ne : (b == a) ≡ false = ground (arith, u.unlisted) in rw ne refl;
            retains = λ b h l. h;
            none_made = λ b h. ground arith;
          },
        ))
  ]

  -- A record that is out of the table is freed if the out queue is empty, and is parked or leaked
  -- otherwise.
  retire-Inv :
      (L : Laws) (w : World) (a p : ℕ)
      → w.kt.producer ≡ some p
      → Unlisted w a
      → Returns (λ _ v. Inv v × Keeps w v) (retire a w)
  unfolding retire
  retire-Inv L w a p e u =
      let c = u.inv.connected p e in
      rw (outq_busy-connected w p c.pr c.rk e c.runs) (elim (Bool-cases (ltb 0 (E.outq_len c.rk))) [
        | inl busy ↦ rw busy (park-Inv a p w e u)
        | inr free ↦ rw free (Unlisted-free L w a p u e free)
      ])

  -- Removing a topic is safe.
  pub remove_locked-Inv :
      (L : Laws) (w : World) (idx a p : ℕ)
      → Inv w
      → w.kt.producer ≡ some p
      → get_elem? w.kt.topics idx ≡ some a
      → Returns
          (λ _ v.
            Inv v
            × Keeps (record w { kt = record w.kt { topics = swap_remove idx w.kt.topics } }) v)
          (remove_locked idx w)
  unfolding remove_locked
  remove_locked-Inv L w idx a p i e at =
      let c = i.connected p e in
      let once = i.once a in
      let (name, handle, same) = c.handles a (count_of_get_elem? a idx w.kt.topics at) in
      let (topic, here) = HasHandle-owned (w.heap a) p name handle same in
      rw at (
        Returns.bind (topic_dispose-Closed L _ p a c.pr c.rk topic handle c.runs here)
          λ _ v (rk', d).
            Returns.mono
              (retire-Inv L v a p (ap (λ (kt : Tables). kt.producer) d.kt ∙ e) (record {
                inv = rw d.kt (Closed-Unlisted w v p a idx rk' i e at d);
                live = d.occupied a ∙ ap is_some here;
                unlisted =
                    rw d.kt (ground (arith, ==_refl a, count-swap_remove a a idx w.kt.topics at));
              }))
              λ _ u (j, k). (
                j,
                record {
                  topics = k.topics ∙ ap (λ (kt : Tables). kt.topics) d.kt;
                  producer = k.producer ∙ ap (λ (kt : Tables). kt.producer) d.kt;
                  params = k.params ∙ ap (λ (kt : Tables). kt.params) d.kt;
                  shapes = λ b h.
                      let once_b = i.once b in
                      k.shapes b (rw d.kt h)
                      ∙ ap shape (
                          d.others b
                            (ground (arith, ==_refl b, count-swap_remove b a idx w.kt.topics at)));
                  accounts = λ b h.
                      let once_b = i.once b in
                      let same_heap =
                        d.others b
                          (ground (arith, ==_refl b, count-swap_remove b a idx w.kt.topics at)) in
                      let queue =
                        queued_for-same w.producers v.producers w.kt.producer p b c.pr c.pr c.rk rk'
                          e c.runs.at (ap (λ f. f p) d.producers ∙ update_self w p _) d.queue in
                      k.accounts b (rw d.kt h) ∙ rw (same_heap, d.kt, queue) refl;
                  retains = λ b h l. k.retains b (rw d.kt h) l;
                  none_made = λ b h. k.none_made b (none_of _ _ (d.occupied b) h);
                },
              ))
    where
      none_of : (s t : Option Topic) → is_some t ≡ is_some s → s ≡ none → t ≡ none
      none_of s t same gone = ground arith
