-- ===== src/Safety/Accounting.antt =====
-- Each call of kafka-table.h counts the message that it sent.
use trig_emit_kafka.Base.{
  ℕ, ◌%◌, ◌^◌, ◌≡◌, refl, ◌∙◌, ap, Bool, true, false, none, some, arith, inl, inr, Bool-cases,
  Option-cases, is_some,
}
use trig_emit_kafka.Base.Bytes.{Str, zstr}
use trig_emit_kafka.Env.{Env, Laws}
use trig_emit_kafka.Machine.{World}
use trig_emit_kafka.Machine.Returns
use trig_emit_kafka.Machine.Returns.{Returns, returns, Safe, done}
use trig_emit_kafka.Engine.Producer.{Status, success, error}
use trig_emit_kafka.Table.Registry.{table_dismiss}
use trig_emit_kafka.Table.Connection.{table_connect}
use trig_emit_kafka.Contract.{Call, Contract, perform, succeeded}
use trig_emit_kafka.Safety.Holders.{registered}
use trig_emit_kafka.Safety.Lookup.{index_in}
use trig_emit_kafka.Safety.Account.{load_of}
use trig_emit_kafka.Safety.Creation.{table_create-Ready}
use trig_emit_kafka.Safety.Calls.{table_send-Fed, table_get_stats-Fed, table_exists-lookup}
use trig_emit_kafka.Safety.Dismissing.{table_dismiss-Dismissed}
use trig_emit_kafka.Safety.Parameters.{set_param-ParamSet, ParamSet}
use trig_emit_kafka.Safety.Unsetting.{unset_param-ParamUnset, ParamUnset}
use trig_emit_kafka.Safety.Counting.{
  Counted, Kept, Kept-Counts, no_topics-Kept, int_sized, Fed-kept, Written-kept, send-Counted,
  dismiss-Counted,
}
use trig_emit_kafka.Safety.Promises.{perform-Keeps, poll_round-Fed}
use trig_emit_kafka.Safety.Promises.Topics.{offline}
use trig_emit_kafka.Safety.Promises.Connections.{
  connect-Keeps, table_connect-empty, table_connect-busy,
}
use trig_emit_kafka.Safety.Promises.Dismissals.{names-Dismissed, table_dismiss-empty}
use trig_emit_kafka.Safety.Promises.Views.{Sane, view}

module _ ⦃E : Env⦄ where
  pub set-Kept :
      (w v : World) (name value : Str) (st : Status) → ParamSet w name value st v → Kept w v
  set-Kept w v name value success (_, (_, x)) topic h = omega (arith, Written-kept w v _ x topic)
  set-Kept w v name value (error _) x topic h = omega (arith, Written-kept w v _ x topic)

  pub unset-Kept : (w v : World) (name : Str) (b : Bool) → ParamUnset w name b v → Kept w v
  unset-Kept w v name true (_, _, (_, _, x)) topic h = omega (arith, Written-kept w v _ x topic)
  unset-Kept w v name false (_, x) topic h = omega (arith, Written-kept w v _ x topic)

  -- Connecting twice changes nothing.
  connect_busy :
      (w : World) (brokers : Str) (n : ℕ)
      → is_some w.kt.producer ≡ true
      → Returns (λ _ v. v ≡ w) (table_connect brokers n w)
  connect_busy w brokers n busy = elim (Bool-cases (zstr (some brokers))) [
    | inl empty ↦ rw (table_connect-empty w brokers n empty) (returns {a = error _} refl)
    | inr filled ↦ rw (table_connect-busy w brokers n busy filled) (returns {a = error _} refl)
  ]

  -- There are no topics when a connection is made.
  pub table_connect-Kept :
      (L : Laws) (w : World) (brokers : Str) (n : ℕ)
      → Sane w
      → Returns (λ _ v. Kept w v) (table_connect brokers n w)
  table_connect-Kept L w brokers n s = elim (Option-cases w.kt.producer) [
    | inr (p, at) ↦
        Returns.mono (connect_busy w brokers n (ap is_some at))
          λ st v e topic h. ap (λ u. load_of u topic % 2 ^ 32) e
    | inl idle ↦
        Returns.mono (connect-Keeps L w brokers n s)
          λ st v (_, k). no_topics-Kept w v (none_left idle (succeeded st) v k)
  ]
    where
      none_left :
          w.kt.producer ≡ none
          → (b : Bool) (v : World) → Contract (Call.connect brokers n) (view w) b (view v)
          → (topic : Str) → registered v topic ≡ false
      none_left idle true v (_, _, _, left) topic = left topic
      none_left idle false v (_, _, same) topic = elim (Bool-cases (registered w topic)) [
        | inl yes' ↦ absurd (ground (arith, offline w s.inv topic yes', ap is_some idle))
        | inr no' ↦ same topic ∙ no'
      ]

  -- The topics that are left keep their messages.
  pub table_dismiss-Kept :
      (L : Laws) (w : World) (name : Str)
      → Sane w
      → Returns (λ _ v. Kept w v) (table_dismiss name w)
  table_dismiss-Kept L w name s = elim (Bool-cases (zstr (some name))) [
    | inl empty ↦ rw (table_dismiss-empty w name empty) (returns {a = false} (λ topic h. refl))
    | inr filled ↦
        Returns.mono (table_dismiss-Dismissed L w name s.inv filled) λ b v (_, d) topic h.
          let found = index_in w.heap name w.kt.topics in
          let left = (names-Dismissed w v name found s refl d topic).0 in
          dismiss-Counted w v name found refl d topic (ground arith)
  ]

  -- Each call counts the message that it sent.
  pub perform-Counted :
      (L : Laws) (c : Call) (w : World)
      → Sane w
      → int_sized c ≡ true
      → Safe (λ b v. Counted c w b v) (perform c w)
  unfolding perform
  perform-Counted L (Call.set name value n) w s fits =
      Returns.bind-Safe (set_param-ParamSet w name value n s.inv)
        λ st v x. done (Kept-Counts w v _ (λ topic. ground arith) (set-Kept w v name value st x))
  perform-Counted L (Call.unset name) w s fits = Returns.Returns-Safe (
      Returns.mono (unset_param-ParamUnset w name s.inv)
        λ b v x. Kept-Counts w v _ (λ topic. ground arith) (unset-Kept w v name b x))
  perform-Counted L (Call.connect brokers n) w s fits =
      Returns.bind-Safe (table_connect-Kept L w brokers n s)
        λ st v k. done (Kept-Counts w v _ (λ topic. ground arith) k)
  perform-Counted L Call.disconnect w s fits =
      Returns.Safe-mono (perform-Keeps L Call.disconnect w s)
        λ b v (_, k). Kept-Counts w v _ (λ topic. ground arith) (no_topics-Kept w v k.3)
  perform-Counted L (Call.create name) w s fits = Returns.Returns-Safe (
      Returns.mono (table_create-Ready L w name s.inv)
        λ b v r. Kept-Counts w v _ (λ topic. ground arith) (λ topic h. r.loads topic))
  perform-Counted L (Call.exists name) w s fits =
      rw (table_exists-lookup w name s.inv) (done (λ topic h. ground arith))
  perform-Counted L (Call.send fuel name payload) w s fits =
      Returns.Safe-bind (table_send-Fed L fuel w name payload s.inv)
        λ r v x. done (send-Counted w v fuel name payload r s (ground arith) x)
  perform-Counted L (Call.dismiss name) w s fits = Returns.Returns-Safe (
      Returns.mono (table_dismiss-Kept L w name s)
        λ b v k. Kept-Counts w v _ (λ topic. ground arith) k)
  perform-Counted L (Call.stats name) w s fits =
      Returns.bind-Safe (table_get_stats-Fed L w name s.inv)
        λ _ v (f, _). done (λ topic h. omega (arith, Fed-kept f topic))
  perform-Counted L (Call.round p) w s fits =
      Returns.bind-Safe (poll_round-Fed L w p s.inv)
        λ _ v f. done (λ topic h. omega (arith, Fed-kept f topic))
  perform-Counted L Call.unload w s fits =
      Returns.Safe-mono (perform-Keeps L Call.unload w s)
        λ b v (_, k). Kept-Counts w v _ (λ topic. ground arith) (no_topics-Kept w v k.2)
