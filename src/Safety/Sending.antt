-- ===== src/Safety/Sending.antt =====
-- Producing a message: one turn of the loop of tek_kafka_topic_feed_key(), and the loop.
use trig_emit_kafka.Base.{
  ℕ, zero, suc, ◌<◌, ◌≡◌, refl, ◌∙◌, ap, Option, some, List, arith, inl, inr, ◌⊎◌, Bool-cases,
  count, ◌==◌, ◌+◌, Bool, true, false, none, ◌&&◌, if◌then◌else◌, ==_iff, Option-cases, is_some,
}
use mathlib.Core.Path.{subst}
use trig_emit_kafka.Env.{Env, Laws, Outcome, queued, refused}
use trig_emit_kafka.Machine.{Topic, World, Tables, update, store_producer}
use trig_emit_kafka.Machine.Returns
use trig_emit_kafka.Machine.Returns.{Returns, returns, Safe, done, waits}
use trig_emit_kafka.Engine.Topics.{answer, feed_round, feed_loop}
use trig_emit_kafka.Safety.Frame.{Live}
use trig_emit_kafka.Safety.Polling.{with_rk, update_self}
use trig_emit_kafka.Safety.Closing.{HasHandle, HasHandle-owned}
use trig_emit_kafka.Safety.Account.{queued_for-rk}
use trig_emit_kafka.Safety.Invariant.{Inv}
use trig_emit_kafka.Safety.Feeding.{Fed, none_more, Fed-then, poll_producer-Fed, swap_rk-Sound}

module _ ⦃E : Env⦄ where
  -- What the loop makes of librdkafka's answer.
  abbrev answered : Outcome → Option Bool
  answered queued = some true
  answered (refused err) = if err == E.queue_full then none else some false

  -- What that adds to the record at `x`, where the message was for the record at `a`.
  abbrev pub added : Option Bool → ℕ → ℕ → ℕ
  added none a x = 0
  added (some b) a x = if b && (x == a) then 1 else 0

  answer-Fed :
      (L : Laws) (w : World) (p : ℕ) (topic : Topic) (outcome : Outcome)
      → Inv w
      → w.kt.producer ≡ some p
      → Returns (λ o v. Fed w none_more v × (o ≡ answered outcome)) (answer p topic outcome w)
  unfolding answer
  answer-Fed L w p topic queued i e =
      Returns.bind (poll_producer-Fed L w p i e) λ _ v f. returns (f, refl)
  answer-Fed L w p topic (refused err) i e = elim (Bool-cases (err == E.queue_full)) [
    | inl full ↦ rw full (Returns.bind (poll_producer-Fed L w p i e) λ _ v f. returns (f, refl))
    | inr other ↦ rw other (
        returns {a = some false}
          (record { inv = i; kt = refl; shapes = λ a. refl; accounts = λ a. omega arith }, refl))
  ]

  pub Outcome-cases : (o : Outcome) → (o ≡ queued) ⊎ ((err : ℕ) × (o ≡ refused err))
  Outcome-cases queued = inl refl
  Outcome-cases (refused err) = inr (err, refl)

  -- A message joins the queue exactly if the answer says so.
  produce-added :
      (L : Laws) (n a x : ℕ) (rk : E.Rk) (h : E.Rkt) (payload : List ℕ) (key : Option (List ℕ))
      → count x (E.in_flight (E.produce n rk h payload key a).1)
        ≡ count x (E.in_flight rk) + added (answered (E.produce n rk h payload key a).0) a x
  produce-added L n a x rk h payload key = elim (Outcome-cases (E.produce n rk h payload key a).0) [
    | inl took ↦ rw took (omega (arith, L.produce_queues n rk h payload key a x took))
    | inr (err, no_room) ↦
        let same = ap (count x) (L.produce_refuses n rk h payload key a err no_room) in
        rw no_room (elim (Bool-cases (err == E.queue_full)) [
          | inl full ↦ rw full (omega (arith, same))
          | inr other ↦ rw other (omega (arith, same))
        ])
  ]

  pub flying-produce :
      (L : Laws) (heap : ℕ → Option Topic) (n a : ℕ) (rk : E.Rk) (h : E.Rkt) (payload : List ℕ)
      (key : Option (List ℕ))
      → Live heap a
      → ((b : ℕ) → 0 < count b (E.in_flight rk) → Live heap b)
      → (b : ℕ) → 0 < count b (E.in_flight (E.produce n rk h payload key a).1)
      → Live heap b
  flying-produce L heap n a rk h payload key live flying b x =
      elim (Outcome-cases (E.produce n rk h payload key a).0) [
        | inl took ↦
            let law = L.produce_queues n rk h payload key a b took in
            elim (Bool-cases (b == a)) [
              | inl eq ↦ let same : b ≡ a = (==_iff b a).0 eq in rw same live
              | inr ne ↦ flying b (ground (arith, law))
            ]
        | inr (err, no_room) ↦
            flying b
              (omega (arith, ap (count b) (L.produce_refuses n rk h payload key a err no_room)))
      ]

  pub feed_round-Fed :
      (L : Laws) (w : World) (p a : ℕ) (key : Option (List ℕ)) (payload : List ℕ)
      → Inv w
      → w.kt.producer ≡ some p
      → HasHandle w.heap p a
      → Returns (λ o v. Fed w (added o a) v) (feed_round a key payload w)
  unfolding feed_round store_producer
  feed_round-Fed L w p a key payload i e (name, handle, same) =
      let c = i.connected p e in
      let (topic, here) = HasHandle-owned (w.heap a) p name handle same in
      let rk' = (E.produce w.calls c.rk handle payload key a).1 in
      rw (here, c.runs.at, c.runs.at)
        (Returns.mono
          (answer-Fed L _ p _ (E.produce w.calls c.rk handle payload key a).0
            (swap_rk-Sound L w p i e rk' (
              flying-produce L w.heap w.calls a c.rk handle payload key (ap is_some here)
                c.runs.flying))
            e)
          λ o v (f, is). record {
            inv = f.inv;
            kt = f.kt;
            shapes = f.shapes;
            accounts = λ x.
                let before = queued_for-rk w.producers w.kt.producer p x c.pr c.rk e c.runs.at in
                let between =
                  queued_for-rk (update w.producers p (some (with_rk c.pr rk'))) w.kt.producer p x
                    c.pr rk' e (update_self w p _) in
                let moved = produce-added L w.calls a x c.rk handle payload key in
                rw is (let later = f.accounts x in omega arith);
          })

  -- However long the queue stays full, the loop is safe: it ends, or still waits. If it ends with
  -- success, the record got one message.
  pub feed_loop-Fed :
      (L : Laws) (fuel : ℕ) (w : World) (p a : ℕ) (key : Option (List ℕ)) (payload : List ℕ)
      → Inv w
      → w.kt.producer ≡ some p
      → HasHandle w.heap p a
      → Safe (λ b v. Fed w (added (some b) a) v) (feed_loop fuel a key payload w)
  unfolding feed_loop
  feed_loop-Fed L zero w p a key payload i e h = waits
  feed_loop-Fed L (suc fuel) w p a key payload i e (name, handle, same) =
      Returns.bind-Safe (feed_round-Fed L w p a key payload i e (name, handle, same)) λ o v f.
        elim (Option-cases o) [
          | inl again ↦
              let step : Fed w none_more v = subst (λ o'. Fed w (added o' a) v) again f in
              rw again (
                Returns.Safe-mono
                  (feed_loop-Fed L fuel v p a key payload f.inv
                    (ap (λ (kt : Tables). kt.producer) f.kt ∙ e) (name, handle, f.shapes a ∙ same))
                  λ _ u g. Fed-then step g)
          | inr (b, ended) ↦ rw ended (done (subst (λ o'. Fed w (added o' a) v) ended f))
        ]
