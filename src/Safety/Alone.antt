-- ===== src/Safety/Alone.antt =====
-- A thread that is alone with ktlock.
use trig_emit_kafka.Base.{ℕ, zero, suc, ◌≡◌, refl, ◌∙◌, ap, Bool, Option, none, some, List, [], ◌∷◌}
use trig_emit_kafka.Env.{Env, Laws}
use trig_emit_kafka.Machine.{World, Tables}
use trig_emit_kafka.Machine.{Run, ok, fault, blocked}
use trig_emit_kafka.Engine.Topics.{feed_loop, feed_round, message_key}
use trig_emit_kafka.Machine.Returns
use trig_emit_kafka.Machine.Returns.{Returns, returns}
use trig_emit_kafka.Table.Sharing.{Reader, advance, advance_at, turn, share}
use trig_emit_kafka.Safety.Closing.{HasHandle}
use trig_emit_kafka.Safety.Invariant.{Inv}
use trig_emit_kafka.Safety.Feeding.{Fed}
use trig_emit_kafka.Safety.Sending.{added, feed_round-Fed}

module _ ⦃E : Env⦄ where
  -- A thread that is alone with the lock does what the loop of tek_kafka_topic_feed_key() does: where the
  -- loop ends, so does the thread, with the same status and the same state.
  module _ (L : Laws) (p a : ℕ) (payload : List ℕ) where
    abbrev steps : ℕ → List (Option ℕ)
    steps zero = []
    steps (suc n) = some 0 ∷ steps n

    abbrev EndsAs : Run Bool → Run (List Reader) → Type 0
    EndsAs (ok b v) r = r ≡ ok (Reader.send_ended (some a) b ∷ []) v
    EndsAs fault r = Unit
    EndsAs blocked r = Unit

    ended_stays :
        (n : ℕ) (b : Bool) (v : World)
        → share (steps n) (Reader.send_ended (some a) b ∷ []) v
          ≡ ok (Reader.send_ended (some a) b ∷ []) v
    unfolding share turn advance_at advance
    ended_stays zero b v = refl
    ended_stays (suc n) b v = ended_stays n b v

    feed_loop-share :
        (fuel : ℕ) (w : World)
        → Inv w
        → w.kt.producer ≡ some p
        → HasHandle w.heap p a
        → EndsAs
            (feed_loop fuel a (message_key none 0) payload w)
            (share (steps fuel) (Reader.feeding a payload ∷ []) w)
    unfolding share turn advance_at advance feed_loop
    feed_loop-share zero w i e handle = tt
    feed_loop-share (suc fuel) w i e (name, handle, same) =
        let (o, v, run, f) =
          Returns.Returns-ok
            (feed_round-Fed L w p a (message_key none 0) payload i e (name, handle, same)) in
        after_round o v run f λ v' i' e' handle'. feed_loop-share fuel v' i' e' handle'
      where
        after_round :
            (o : Option Bool) (v : World)
            → feed_round a (message_key none 0) payload w ≡ ok o v
            → Fed w (added o a) v
            → ((v' : World)
                → Inv v'
                → v'.kt.producer ≡ some p
                → HasHandle v'.heap p a
                → EndsAs
                    (feed_loop fuel a (message_key none 0) payload v')
                    (share (steps fuel) (Reader.feeding a payload ∷ []) v'))
            → EndsAs
                (feed_loop (suc fuel) a (message_key none 0) payload w)
                (share (steps (suc fuel)) (Reader.feeding a payload ∷ []) w)
        after_round none v run f rest = rw run (
            rest v f.inv (ap (λ (kt : Tables). kt.producer) f.kt ∙ e)
              (name, handle, f.shapes a ∙ same))
        after_round (some b) v run f rest = rw run (ended_stays fuel b v)
