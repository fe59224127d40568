-- ===== src/Safety/History.antt =====
-- How many messages each topic took, from the module as the server loads it.
use trig_emit_kafka.Base.{
  ℕ, ◌+◌, ◌%◌, ◌^◌, ◌≡◌, refl, ap, Bool, true, false, some, arith, inl, inr, Bool-cases,
  Option-cases, if◌then◌else◌,
}
use mathlib.Core.Path.{subst}
use trig_emit_kafka.Base.Bytes.{Str}
use trig_emit_kafka.Env.{Env, Laws}
use trig_emit_kafka.Machine.{Topic, World, ok}
use trig_emit_kafka.Machine.Returns
use trig_emit_kafka.Machine.Returns.{Returns, returns}
use trig_emit_kafka.Table.Registry.{table_get_stats}
use trig_emit_kafka.Contract.{Call, perform}
use trig_emit_kafka.Safety.Frame.{tally}
use trig_emit_kafka.Safety.Invariant.{initial_world}
use trig_emit_kafka.Safety.Holders.{holders, registered}
use trig_emit_kafka.Safety.Lookup.{lookup_name, lookup_name-registered, all-Live}
use trig_emit_kafka.Safety.Account.{account, load_of, load-alone, load-none, queued_for}
use trig_emit_kafka.Safety.Calls.{table_get_stats-Fed, Counters}
use trig_emit_kafka.Safety.Counting.{Counts, int_sized, one_more, lookup_name-named}
use trig_emit_kafka.Safety.Accounting.{perform-Counted}
use trig_emit_kafka.Udf.Statement.{Statement, execute}
use trig_emit_kafka.Machine.Args.{Answer}
use trig_emit_kafka.Safety.Functions.Served.{execute-Promise}
use trig_emit_kafka.Safety.Functions.Accounting.{taken, target, payload_fits, execute-Counts}
use trig_emit_kafka.Table.Sharing.{Reader, share, all_of, is_called, is_ended}
use trig_emit_kafka.Safety.Readers.{sent_by_all, called-AllUse, called-sent}
use trig_emit_kafka.Safety.Sharing.{Shares, share-Shares}
use trig_emit_kafka.Safety.Account.{load}
use trig_emit_kafka.Safety.Feeding.{Fed}
use trig_emit_kafka.Safety.Counting.{Fed-load}
use trig_emit_kafka.Base.{Option, List}
use trig_emit_kafka.Safety.Promises.Views.{Fed-Same}
use trig_emit_kafka.Safety.Sessions.{initial_world-Sane, reached}
use trig_emit_kafka.Safety.Promises.{perform-Keeps}
use trig_emit_kafka.Safety.Promises.Views.{Sane}

module _ ⦃E : Env⦄ where
  -- The messages that each topic took, once `more` were sent on the way to the state `v`: a topic that is
  -- not registered then starts again.
  abbrev pub counted_on : (Str → ℕ) → World → (Str → ℕ) → Str → ℕ
  counted_on more v sent topic = if registered v topic then sent topic + more topic else 0

  -- The messages that the threads sent to the registered records of a topic.
  abbrev pub sent_at : World → List Reader → Str → ℕ
  sent_at w ended topic = load w.heap (sent_by_all ended) topic w.kt.topics

  -- `History w sent`: statements, rounds of the poll thread, calls of the table and runs of threads that
  -- share its lock lead to `w` from the
  -- module as the server loads it, and each topic took the messages that `sent` says since it was
  -- registered last: one for each kafka_send() that did not answer an error, and for each
  -- kafka_table_send() that reported success, alone or beside other threads that share the lock with it. The length of each message is an int.
  pub data History : World → (Str → ℕ) → Type 0 where
    loaded : History initial_world (λ _. 0)
    asked :
        {w v : World} {sent : Str → ℕ}
        → History w sent
        → (x : Statement) → (a : Answer) → payload_fits x ≡ true
        → execute x w ≡ ok a v
        → History v (counted_on (taken a (target x)) v sent)
    called :
        {w v : World} {sent : Str → ℕ}
        → History w sent
        → (c : Call) → (b : Bool) → int_sized c ≡ true
        → perform c w ≡ ok b v
        → History v (counted_on (one_more c b) v sent)
    shared :
        {w v : World} {sent : Str → ℕ}
        → History w sent
        → (turns : List (Option ℕ)) → (readers ended : List Reader)
        → all_of is_called readers ≡ true
        → all_of is_ended ended ≡ true
        → share turns readers w ≡ ok ended v
        → History v (counted_on (sent_at w ended) v sent)

  -- No topic has messages where no topic is registered.
  unregistered-load : (w : World) (topic : Str) → registered w topic ≡ false → load_of w topic ≡ 0
  unfolding registered
  unregistered-load w topic h = load-none w.heap (account w) topic w.kt.topics (ground arith)

  -- The messages of each topic are those that were sent to it.
  abbrev AllSent : World → (Str → ℕ) → Type 0
  AllSent w sent = (topic : Str) → load_of w topic % 2 ^ 32 ≡ sent topic % 2 ^ 32

  counted_on-AllSent :
      (w v : World) (more sent : Str → ℕ)
      → AllSent w sent
      → Counts w more v
      → AllSent v (counted_on more v sent)
  counted_on-AllSent w v more sent all counts topic = elim (Bool-cases (registered v topic)) [
    | inl here ↦ rw here (omega (arith, all topic, counts topic here))
    | inr gone ↦ rw gone (omega (arith, unregistered-load v topic gone))
  ]

  -- Threads that only share the lock.
  shared-Counts :
      (w v : World) (readers ended : List Reader)
      → all_of is_called readers ≡ true
      → Shares w readers ended v
      → Counts w (sent_at w ended) v
  shared-Counts w v readers ended fresh s topic h =
      let f : Fed w (sent_by_all ended) v = record {
        inv = s.fed.inv;
        kt = s.fed.kt;
        shapes = s.fed.shapes;
        accounts = λ a.
            let sum = s.counts a in
            let none_yet = called-sent readers a fresh in
            let account_of = s.fed.accounts a in omega arith;
      } in
      Fed-load f topic

  pub History-AllSent :
      (L : Laws) (w : World) (sent : Str → ℕ) → History w sent → Sane w × AllSent w sent
  unfolding registered holders
  History-AllSent L w sent loaded =
      (initial_world-Sane, λ topic. omega (arith, unregistered-load initial_world topic refl))
  History-AllSent L w sent (asked {w = u} {sent = before} h x a fits e) =
      let (s, all) = History-AllSent L u before h in
      (
        (reached (execute-Promise L x u s) e).0,
        counted_on-AllSent u w _ before all (reached (execute-Counts L x u s fits) e),
      )
  History-AllSent L w sent (called {w = u} {sent = before} h c b fits e) =
      let (s, all) = History-AllSent L u before h in
      (
        (reached (perform-Keeps L c u s) e).0,
        counted_on-AllSent u w _ before all (reached (perform-Counted L c u s fits) e),
      )
  History-AllSent L w sent
        (shared {w = u} {sent = before} h turns readers ended fresh all_ended e) =
      let (s, all) = History-AllSent L u before h in
      let step =
        reached
          (Returns.Returns-Safe
            (share-Shares L turns readers u s.inv (called-AllUse u.kt.topics readers fresh)))
          e in
      (
        (Fed-Same u w s step.fed).0,
        counted_on-AllSent u w _ before all (shared-Counts u w readers ended fresh step),
      )

  -- The record that a name is looked up to has all messages of the name.
  alone :
      (w : World) (name : Str) (a : ℕ)
      → Sane w
      → lookup_name w.heap (some name) w.kt.topics ≡ some a
      → load_of w name ≡ account w a
  alone w name a s found =
      load-alone w.heap (account w) name w.kt.topics a (s.unique.once name)
        (lookup_name-registered w.heap (some name) w.kt.topics a found)
        (lookup_name-named w.heap name w.kt.topics a found)

  -- No message is lost or counted twice. In each state that SQL statements, rounds of the poll thread,
  -- calls of the table and runs of threads that share its lock lead to, a name that the table finds has a record, and modulo 2^32 its counters
  -- of transferred and of failed messages and the number of its messages in librdkafka's out queue are
  -- together the number of messages sent to the name since it was registered last: the calls of
  -- kafka_send() that did not answer an error, and those of kafka_table_send() that reported success.
  -- The length of each message that was sent is less than 2^31.
  pub History-Counted :
      (L : Laws) (w : World) (sent : Str → ℕ) (name : Str) (a : ℕ)
      → History w sent
      → lookup_name w.heap (some name) w.kt.topics ≡ some a
      → (topic : Topic) × (w.heap a ≡ some topic)
        × ((topic.transferred + topic.failed + queued_for w.producers w.kt.producer a) % 2 ^ 32
            ≡ sent name % 2 ^ 32)
  History-Counted L w sent name a h found =
      let (s, all) = History-AllSent L w sent h in
      let it = alone w name a s found in
      elim (Option-cases (w.heap a)) [
        | inl missing ↦ absurd (
            ground (
              arith,
              all-Live w s.inv a,
              lookup_name-registered w.heap (some name) w.kt.topics a found,
            ))
        | inr (topic, here) ↦ (topic, here, omega (arith, all name, it, ap tally here))
      ]

  -- What kafka_topic_get_stats() returns is all that happened. In each state that SQL statements, rounds
  -- of the poll thread, calls of the table and runs of threads that share its lock lead to, it returns two numbers for a name that the table
  -- finds, which modulo 2^32, together with the number of its messages that are left in librdkafka's out
  -- queue, are the number of messages sent to the name since it was registered last: the calls of
  -- kafka_send() that did not answer an error, and those of kafka_table_send() that reported success.
  -- The length of each message that was sent is less than 2^31.
  pub table_get_stats-Counted :
      (L : Laws) (w : World) (sent : Str → ℕ) (name : Str) (a : ℕ)
      → History w sent
      → lookup_name w.heap (some name) w.kt.topics ≡ some a
      → Returns
          (λ counts v.
            (counts.0 + counts.1 + queued_for v.producers v.kt.producer a) % 2 ^ 32
            ≡ sent name % 2 ^ 32)
          (table_get_stats (some name) w)
  table_get_stats-Counted L w sent name a h found =
      let (s, all) = History-AllSent L w sent h in
      let it = alone w name a s found in
      Returns.mono (table_get_stats-Fed L w (some name) s.inv) λ counts v (f, read).
        let (topic, here, same) = subst (λ o. Counters v.heap o counts) found read in
        rw same (omega (arith, all name, it, f.accounts a, ap tally here))
