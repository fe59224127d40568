-- ===== src/Safety/Responsive.antt =====
-- The retry loop of tek_kafka_topic_feed_key() against a librdkafka that makes progress.
use trig_emit_kafka.Base.{
  ℕ, zero, suc, ◌+◌, ◌*◌, ◌≤◌, ◌⊎◌, ◌<◌, ◌≡◌, ◌∙◌, ap, true, false, Bool, Option, none, some, List,
  arith, inl, inr, Bool-cases, ◌==◌, ==_refl, ==_iff, sym, Option-cases, is_some, length,
}
use native.Mathlib.Nat.{mul-le-mul_right}
use trig_emit_kafka.Base.Bytes.{Str}
use trig_emit_kafka.Env.{Env, Laws, refused}
use trig_emit_kafka.Machine.{update, World, Producer, Run, M, pure, store_producer}
use trig_emit_kafka.Machine.Returns
use trig_emit_kafka.Machine.Returns.{Returns, returns, Safe, done, waits}
use trig_emit_kafka.Engine.Topics.{answer, feed_round, feed_loop, topic_feed_key, topic_feed}
use trig_emit_kafka.Table.Registry.{table_send}
use trig_emit_kafka.Safety.Frame.{Live}
use trig_emit_kafka.Safety.Polling.{Runs, with_rk, Settled-Runs, poll_producer-Polled}
use trig_emit_kafka.Safety.Closing.{HasHandle, HasHandle-owned}
use trig_emit_kafka.Safety.Invariant.{Inv}
use trig_emit_kafka.Safety.Lookup.{lookup_name, find_locked-lookup_name, lookup_name-registered}
use trig_emit_kafka.Safety.Sending.{Outcome-cases, flying-produce}
use trig_emit_kafka.Safety.Calls.{table_send-Fed, Sends}

module _ ⦃E : Env⦄ where
  -- What message.timeout.ms promises of a broker that may be down: no message waits for its report for
  -- ever. While the queue holds messages, at most `patience` polls in a row come back without a report,
  -- and `due` says how many more that can be. A refused message does not put reports off, and the
  -- queue is full only when it holds messages.
  pub record Progress : Type 0 where
    pub patience : ℕ
    pub due : E.Rk → ℕ
    pub patient : (rk : E.Rk) → due rk ≤ patience
    pub polled :
        (n : ℕ) (rk : E.Rk)
        → 0 < E.outq_len rk
        → (E.outq_len (E.poll n rk).1 < E.outq_len rk)
          ⊎ ((E.outq_len (E.poll n rk).1 ≡ E.outq_len rk) × (due (E.poll n rk).1 < due rk))
    pub not_put_off :
        (n : ℕ) (rk : E.Rk) (h : E.Rkt) (payload : List ℕ) (key : Option (List ℕ)) (a : ℕ)
        → (E.produce n rk h payload key a).0 ≡ refused E.queue_full
        → due (E.produce n rk h payload key a).1 ≤ due rk
    pub full :
        (n : ℕ) (rk : E.Rk) (h : E.Rkt) (payload : List ℕ) (key : Option (List ℕ)) (a : ℕ)
        → (E.produce n rk h payload key a).0 ≡ refused E.queue_full
        → 0 < E.outq_len rk

  -- How many polls it can take until the queue is empty.
  abbrev remaining : Progress → E.Rk → ℕ
  remaining g rk = E.outq_len rk * (g.patience + 1) + g.due rk

  -- After one turn: the loop is left, or fewer polls remain.
  abbrev Turned : Progress → ℕ → ℕ → Producer → E.Rk → Option Bool → World → Type 0
  Turned g p a pr rk (some _) v = Unit
  Turned g p a pr rk none v =
      (rk' : E.Rk) × Runs v p pr rk' × HasHandle v.heap p a × (remaining g rk' < remaining g rk)

  fewer_left :
      (g : Progress) (n : ℕ) (rk : E.Rk)
      → 0 < E.outq_len rk
      → remaining g (E.poll n rk).1 < remaining g rk
  fewer_left g n rk h = elim (g.polled n rk h) [
    | inl less ↦
        let step = mul-le-mul_right (g.patience + 1) less in
        let soon = g.patient (E.poll n rk).1 in omega (arith, step)
    | inr (same, sooner) ↦ rw same (omega arith)
  ]

  -- The handle that rd_kafka_produce() leaves, in place.
  abbrev sent : World → ℕ → Producer → E.Rk → World
  sent w p pr rk' = record w {
    producers = update w.producers p (some (with_rk pr rk'));
    calls = w.calls + 1;
  }

  sent-Runs :
      (L : Laws) (w : World) (p a : ℕ) (pr : Producer) (rk : E.Rk) (h : E.Rkt) (payload : List ℕ)
      (key : Option (List ℕ))
      → Runs w p pr rk
      → Live w.heap a
      → Runs
          (sent w p pr (E.produce w.calls rk h payload key a).1)
          p
          pr
          (E.produce w.calls rk h payload key a).1
  sent-Runs L w p a pr rk h payload key r live = record {
    at = ground (arith, ==_refl p);
    flying = flying-produce L w.heap w.calls a rk h payload key live r.flying;
  }

  refused_len :
      (L : Laws) (n : ℕ) (rk : E.Rk) (h : E.Rkt) (payload : List ℕ) (key : Option (List ℕ))
      (a err : ℕ)
      → (E.produce n rk h payload key a).0 ≡ refused err
      → E.outq_len (E.produce n rk h payload key a).1 ≡ E.outq_len rk
  refused_len L n rk h payload key a err e =
      L.outq _ ∙ ap length (L.produce_refuses n rk h payload key a err e) ∙ sym (L.outq rk)

  shorter :
      (L : Laws) (g : Progress) (n : ℕ) (rk : E.Rk) (h : E.Rkt) (payload : List ℕ)
      (key : Option (List ℕ)) (a : ℕ)
      → (E.produce n rk h payload key a).0 ≡ refused E.queue_full
      → remaining g (E.poll (n + 1) (E.produce n rk h payload key a).1).1 < remaining g rk
  shorter L g n rk h payload key a e =
      let same = refused_len L n rk h payload key a E.queue_full e in
      let some_left = g.full n rk h payload key a e in
      let kept = g.not_put_off n rk h payload key a e in
      let fewer = fewer_left g (n + 1) (E.produce n rk h payload key a).1 (omega (arith, same)) in
      let less : remaining g (E.produce n rk h payload key a).1 ≤ remaining g rk =
        rw same (omega arith) in
      omega arith

  feed_round-Turned :
      (L : Laws) (g : Progress) (w : World) (p a : ℕ) (key : Option (List ℕ)) (payload : List ℕ)
      (pr : Producer) (rk : E.Rk)
      → Runs w p pr rk
      → HasHandle w.heap p a
      → Returns (Turned g p a pr rk) (feed_round a key payload w)
  unfolding feed_round store_producer answer
  feed_round-Turned L g w p a key payload pr rk r (name, handle, same) =
      let (topic, here) = HasHandle-owned (w.heap a) p name handle same in
      let rk' = (E.produce w.calls rk handle payload key a).1 in
      let r' = sent-Runs L w p a pr rk handle payload key r (ap is_some here) in
      let polled = poll_producer-Polled L (sent w p pr rk') p pr rk' r' in
      rw (here, r.at, r.at)
        (elim (Outcome-cases (E.produce w.calls rk handle payload key a).0) [
          | inl took ↦ rw took (Returns.bind polled λ _ v s. returns {a = some true} tt)
          | inr (err, no_room) ↦ rw no_room (elim (Bool-cases (err == E.queue_full)) [
            | inr other ↦ rw other (returns {a = some false} tt)
            | inl full ↦ rw full (
                Returns.bind polled λ _ v s. returns {a = none} (
                  _,
                  Settled-Runs r' s,
                  (name, handle, s.shapes a ∙ same),
                  shorter L g w.calls rk handle payload key a
                      (no_room ∙ ap refused ((==_iff err E.queue_full).0 full)),
                ))
          ])
        ])

  -- The rest of the loop, given that it ends from a shorter queue.
  next_turn :
      (g : Progress) (fuel p a : ℕ) (key : Option (List ℕ)) (payload : List ℕ) (pr : Producer)
      (rk : E.Rk)
      → ((v : World) (rk' : E.Rk)
          → Runs v p pr rk'
          → HasHandle v.heap p a
          → remaining g rk' < remaining g rk
          → Returns (λ _ _. Unit) (feed_loop fuel a key payload v))
      → (o : Option Bool) (v : World) → Turned g p a pr rk o v
      → Returns
          (λ _ _. Unit)
          ((elim o as (λ _. M Bool) [ none ↦ feed_loop fuel a key payload | some b ↦ pure b ]) v)
  next_turn g fuel p a key payload pr rk again (some b) v t = returns {a = b} tt
  next_turn g fuel p a key payload pr rk again none v (rk', r', h', less) = again v rk' r' h' less

  feed_loop-Returns :
      (L : Laws) (g : Progress) (fuel : ℕ) (w : World) (p a : ℕ) (key : Option (List ℕ))
      (payload : List ℕ) (pr : Producer) (rk : E.Rk)
      → Runs w p pr rk
      → HasHandle w.heap p a
      → remaining g rk < fuel
      → Returns (λ _ _. Unit) (feed_loop fuel a key payload w)
  unfolding feed_loop
  feed_loop-Returns L g zero w p a key payload pr rk r h fits = absurd (omega arith)
  feed_loop-Returns L g (suc fuel) w p a key payload pr rk r h fits =
      Returns.bind (feed_round-Turned L g w p a key payload pr rk r h) (
        next_turn g fuel p a key payload pr rk λ v rk' r' h' less.
          feed_loop-Returns L g fuel v p a key payload pr rk' r' h' (omega arith))

  topic_feed-Returns :
      (L : Laws) (g : Progress) (fuel : ℕ) (w : World) (p a : ℕ) (payload : List ℕ) (pr : Producer)
      (rk : E.Rk)
      → Runs w p pr rk
      → HasHandle w.heap p a
      → remaining g rk < fuel
      → Returns (λ _ _. Unit) (topic_feed fuel a payload w)
  unfolding topic_feed topic_feed_key
  topic_feed-Returns L g fuel w p a payload pr rk r (name, handle, same) fits =
      let (topic, here) = HasHandle-owned (w.heap a) p name handle same in
      rw (here, r.at) (feed_loop-Returns L g fuel w p a _ payload pr rk r (name, handle, same) fits)

  ends :
      {A : Type 0} {P : A → World → Type 0} {r : Run A}
      → Safe P r
      → Returns (λ _ _. Unit) r
      → Returns P r
  ends (done x) y = returns x
  ends waits y = elim y [ ]

  -- Against a librdkafka that reports each message in the end, where the invariant holds and there is a
  -- connection, kafka_table_send() returns. If no more than `patience` polls in a row come back without
  -- a report, patience + 1 turns of its loop for each message in the out queue, and as many once more,
  -- are enough. Then the invariant holds, the table is the same, and no record was created,
  -- freed or renamed; the result is -1, or the length of the payload as an int, the latter only if a
  -- registered record has the name. Modulo 2^32, what is in the out queue for a record and what its
  -- counters have seen is one more together for the record found if the call took the message, and is
  -- as before for each other record; the call returns the length if it took the message, and -1 if not.
  pub table_send-Returns :
      (L : Laws) (g : Progress) (fuel : ℕ) (w : World) (p : ℕ) (name : Option Str)
      (payload : List ℕ) (i : Inv w) (e : w.kt.producer ≡ some p)
      → (E.outq_len (i.connected p e).rk + 1) * (g.patience + 1) ≤ fuel
      → Returns (λ r v. Sends w name payload r v) (table_send fuel name payload w)
  unfolding table_send
  table_send-Returns L g fuel w p name payload i e fits =
      ends (table_send-Fed L fuel w name payload i) send_returns
    where
      send_returns : Returns (λ _ _. Unit) (table_send fuel name payload w)
      send_returns =
          rw (find_locked-lookup_name name w i)
            (elim (Option-cases (lookup_name w.heap name w.kt.topics)) [
              | inl missing ↦ rw missing (returns tt)
              | inr (a, found) ↦
                  let c = i.connected p e in
                  let handle =
                    c.handles a (lookup_name-registered w.heap name w.kt.topics a found) in
                  rw found (
                    Returns.bind
                      (topic_feed-Returns L g fuel w p a payload c.pr c.rk c.runs handle
                        (let soon = g.patient c.rk in omega arith))
                      λ b v _. elim (Bool-cases b) [
                        | inl sent_it ↦ rw sent_it (returns tt)
                        | inr failed ↦ rw failed (returns tt)
                      ])
            ])
