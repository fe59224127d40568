-- ===== src/Safety/Parking.antt =====
-- Parking a topic record whose messages are still in flight.
use trig_emit_kafka.Base.{
  ℕ, ◌≤◌, ◌≡◌, refl, ◌∙◌, Option, none, some, [], ◌∷◌, arith, length, is_some, get_elem?,
  swap_remove, length-swap_remove-le, count-swap_remove, count-append, length-append,
}
use trig_emit_kafka.Env.{Env}
use trig_emit_kafka.Machine.{Topic, World}
use trig_emit_kafka.Machine.Returns.{Returns, returns}
use trig_emit_kafka.Table.Registry.{park}
use trig_emit_kafka.Safety.Closing.{Closed, Closed-Runs}
use trig_emit_kafka.Safety.Invariant.{Inv, Sound, Connected, only_producer, Sole-update}
use trig_emit_kafka.Safety.Lookup.{grow_cases, check_slot-ok}
use trig_emit_kafka.Safety.Removal.{Keeps, Unlisted}

module _ ⦃E : Env⦄ where
  pub park-Inv :
      (a p : ℕ) (w : World)
      → w.kt.producer ≡ some p
      → Unlisted w a
      → Returns (λ _ v. Inv v × Keeps w v) (park a w)
  unfolding park
  park-Inv a p w at u =
      let i = u.inv in
      grow_cases (Returns (λ _ v. Inv v × Keeps w v)) _ w.kt.retired_capacity (length w.kt.retired)
        w i.retired_fit
        (λ n. returns (
          i,
          record {
            topics = refl;
            producer = refl;
            params = refl;
            shapes = λ b h. refl;
            accounts = λ b h. refl;
            retains = λ b h l. h;
            none_made = λ b h. h;
          },
        ))
        (λ n c room. rw (check_slot-ok (length w.kt.retired) c (record w { calls = n }) room) (
          returns (
            record {
              fresh = i.fresh;
              once = λ b.
                  let h = i.once b in
                  ground (arith, u.unlisted, count-append b w.kt.retired (a ∷ []));
              retired =
                  λ b h. ground (arith, u.live, i.retired b, count-append b w.kt.retired (a ∷ []));
              topics_fit = i.topics_fit;
              retired_fit = omega (arith, length-append w.kt.retired (a ∷ []));
              params_fit = i.params_fit;
              idle = λ n'. absurd (cc);
              sole = i.sole;
              connected = i.connected;
            },
            record {
              topics = refl;
              producer = refl;
              params = refl;
              shapes = λ b h. refl;
              accounts = λ b h. refl;
              retains = λ b h l. omega (arith, count-append b w.kt.retired (a ∷ []));
              none_made = λ b h. h;
            },
          )))

  -- The state in which a topic is out of the array and has given its handle back.
  pub Closed-Unlisted :
      (w v : World) (p a idx : ℕ) (rk' : E.Rk) (i : Inv w) (e : w.kt.producer ≡ some p)
      → get_elem? w.kt.topics idx ≡ some a
      → Closed
          (record w { kt = record w.kt { topics = swap_remove idx w.kt.topics } })
          v
          p
          a
          (i.connected p e).pr
          (i.connected p e).rk
          rk'
      → Sound v.heap v.producers v.next (record w.kt { topics = swap_remove idx w.kt.topics })
  Closed-Unlisted w v p a idx rk' i e at c =
      let c0 = i.connected p e in
      let taken = λ (b : ℕ). count-swap_remove b a idx w.kt.topics at in
      rw c.next (record {
        fresh = λ b h. none_of (w.heap b) (v.heap b) (c.occupied b) (i.fresh b h);
        once = λ b. let h = i.once b in omega (arith, taken b);
        retired = λ b h. c.occupied b ∙ i.retired b h;
        topics_fit = fits;
        retired_fit = i.retired_fit;
        params_fit = i.params_fit;
        idle = λ n. absurd (cc);
        sole = rw c.producers (Sole-update w.producers w.kt.producer p _ e i.sole);
        connected =
            only_producer (Connected v.producers v.heap (swap_remove idx w.kt.topics)) w.kt.producer
              p e
              (record {
                pr = c0.pr;
                rk = rk';
                runs = Closed-Runs c0.runs c;
                running = c0.running;
                thread = c0.thread;
                conf = c0.conf;
                handles = λ b h.
                    let once = i.once b in
                    let (name, handle, same) = c0.handles b (omega (arith, taken b)) in
                    (name, handle, rw (c.others b (ground (arith, taken b))) same);
              });
      })
    where
      none_of : (s t : Option Topic) → is_some t ≡ is_some s → s ≡ none → t ≡ none
      none_of s t same gone = ground arith

      fits : length (swap_remove idx w.kt.topics) ≤ w.kt.capacity
      fits = omega (arith, length-swap_remove-le idx w.kt.topics, i.topics_fit)
