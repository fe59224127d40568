-- ===== src/Safety/Promises.antt =====
-- Each call keeps what kafka-table.h promises.
pub mod Views
pub mod Params
pub mod Connections
pub mod Topics
pub mod Dismissals
use trig_emit_kafka.Base.{
  Bool-cases, inl, inr, ℕ, ◌≡◌, refl, Bool, false, not, ◌&&◌, Option, none, some, List, [], arith,
  inl, inr, is_some,
}
use trig_emit_kafka.Base.Bytes.{Str}
use trig_emit_kafka.Base.Int.{ℤ}
use trig_emit_kafka.Env.{Env, Laws}
use trig_emit_kafka.Machine.{World}
use trig_emit_kafka.Machine.Returns
use trig_emit_kafka.Machine.Returns.{Returns, returns, Safe, done}
use trig_emit_kafka.Table.Registry.{table_exists}
use trig_emit_kafka.Contract.{Call, Same, perform, poll_round, is_natural}
use trig_emit_kafka.Safety.Lookup.{lookup_name}
use trig_emit_kafka.Safety.Invariant.{held, held-some, Inv}
use trig_emit_kafka.Safety.Feeding.{Fed, Fed-refl, none_more, producer_round-Fed}
use trig_emit_kafka.Safety.Creation.{table_create-Ready}
use trig_emit_kafka.Safety.Calls.{
  Sends, Sent, table_send-Fed, table_get_stats-Fed, table_exists-lookup,
}
use trig_emit_kafka.Safety.Teardown.{table_dismiss_all-Emptied}
use trig_emit_kafka.Safety.Parameters.{set_param-ParamSet}
use trig_emit_kafka.Safety.Unsetting.{unset_param-ParamUnset}
use trig_emit_kafka.Safety.Unloading.{module_unload-ShutDown}
use trig_emit_kafka.Safety.Promises.Views.{Sane, view, Keeps, Still-Same, Still-refl, Fed-Same}
use trig_emit_kafka.Safety.Promises.Params.{set-Keeps, unset-Keeps}
use trig_emit_kafka.Safety.Promises.Connections.{connect-Keeps, disconnect-Keeps, unload-Keeps}
use trig_emit_kafka.Safety.Promises.Topics.{has-lookup, create-Keeps}
use trig_emit_kafka.Safety.Promises.Dismissals.{dismiss-Keeps}

module _ ⦃E : Env⦄ where
  pub Sent-registered :
      (found : Bool) (payload : List ℕ) (r : ℤ)
      → Sent found payload r
      → (is_natural r && not found) ≡ false
  Sent-registered found payload r (inl e) = rw e refl
  Sent-registered found payload r (inr (e, known)) = rw known (none_left (is_natural r))
    where
      none_left : (b : Bool) → (b && false) ≡ false
      none_left b = ground arith

  pub send-Keeps :
      (w v : World) (fuel : ℕ) (name : Option Str) (payload : List ℕ) (r : ℤ)
      → Sane w
      → Sends w name payload r v
      → Keeps (Call.send fuel name payload) w (is_natural r) v
  send-Keeps w v fuel name payload r s x =
      let (sane, same) = Fed-Same w v s x.fed in
      (sane, (rw (← has-lookup w name) (Sent-registered _ payload r x.sent), same))

  pub exists-Keeps :
      (w : World) (name : Option Str)
      → Sane w
      → Returns (Keeps (Call.exists name) w) (table_exists name w)
  exists-Keeps w name s =
      rw (table_exists-lookup w name s.inv)
        (returns (s, (has-lookup w name, (refl, (λ n. refl), λ n. refl))))

  pub poll_round-Fed :
      (L : Laws) (w : World) (p : ℕ) → Inv w → Returns (λ _ v. Fed w none_more v) (poll_round p w)
  unfolding poll_round
  poll_round-Fed L w p i = elim (Bool-cases (held w.kt.producer p)) [
    | inr other ↦ rw (i.sole p other) (returns (Fed-refl w i))
    | inl here ↦
        let e = held-some w.kt.producer p here in
        let c = i.connected p e in rw (c.runs.at, c.thread) (producer_round-Fed L w p i e)
  ]

  -- Where the invariant holds, each call ends in a state where it holds too, and in which what a
  -- session can tell has changed as kafka-table.h promises, or it still waits.
  pub perform-Keeps :
      (L : Laws) (c : Call) (w : World) → Sane w → Safe (λ b v. Keeps c w b v) (perform c w)
  unfolding perform
  perform-Keeps L (Call.set name value n) w s =
      Returns.bind-Safe (set_param-ParamSet w name value n s.inv)
        λ st v x. done (set-Keeps w v name value n st s x)
  perform-Keeps L (Call.unset name) w s =
      Returns.Returns-Safe
        (Returns.mono (unset_param-ParamUnset w name s.inv) λ b v x. unset-Keeps w v name b s x)
  perform-Keeps L (Call.connect brokers n) w s =
      Returns.bind-Safe (connect-Keeps L w brokers n s) λ st v x. done x
  perform-Keeps L Call.disconnect w s =
      Returns.bind-Safe (table_dismiss_all-Emptied L w s.inv)
        λ _ v m. done (disconnect-Keeps w v s m)
  perform-Keeps L (Call.create name) w s =
      Returns.Returns-Safe
        (Returns.mono (table_create-Ready L w name s.inv) λ b v r. create-Keeps w v name b s r)
  perform-Keeps L (Call.exists name) w s = Returns.Returns-Safe (exists-Keeps w name s)
  perform-Keeps L (Call.send fuel name payload) w s =
      Returns.Safe-bind (table_send-Fed L fuel w name payload s.inv)
        λ r v x. done (send-Keeps w v fuel name payload r s x)
  perform-Keeps L (Call.dismiss name) w s = Returns.Returns-Safe (dismiss-Keeps L w name s)
  perform-Keeps L (Call.stats name) w s =
      Returns.bind-Safe (table_get_stats-Fed L w name s.inv) λ _ v (f, _). done (Fed-Same w v s f)
  perform-Keeps L (Call.round p) w s =
      Returns.bind-Safe (poll_round-Fed L w p s.inv) λ _ v f. done (Fed-Same w v s f)
  perform-Keeps L Call.unload w s =
      Returns.bind-Safe (module_unload-ShutDown L w s.inv) λ _ v x. done (unload-Keeps w v s x)
