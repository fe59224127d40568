-- ===== src/Safety/Sessions.antt =====
-- The calls that the sessions and the poll thread make, in any order: what holds at every state that
-- they can reach.
use trig_emit_kafka.Base.{◌≡◌, refl, Bool, arith}
use mathlib.Core.Path.{subst}
use trig_emit_kafka.Env.{Env, Laws}
use trig_emit_kafka.Machine.{World, Run, ok}
use trig_emit_kafka.Machine.Returns
use trig_emit_kafka.Machine.Returns.{Safe, done}
use trig_emit_kafka.Table.Params.Bindings.{entries}
use trig_emit_kafka.Contract.{Call, Contract, perform}
use trig_emit_kafka.Safety.Invariant.{initial_world, initial_world-Inv}
use trig_emit_kafka.Safety.Holders.{holders, Unique}
use trig_emit_kafka.Safety.Promises.Views.{Sane, view}
use trig_emit_kafka.Safety.Promises.{perform-Keeps}

module _ ⦃E : Env⦄ where
  -- The states that some sequence of calls leads to, from the module as the server loads it.
  pub data Reach : World → Type 0 where
    loaded : Reach initial_world
    called : {w v : World} → Reach w → (c : Call) → (b : Bool) → perform c w ≡ ok b v → Reach v

  pub reached :
      {A : Type 0} {P : A → World → Type 0} {r : Run A} {b : A} {v : World}
      → Safe P r
      → r ≡ ok b v
      → P b v
  reached {A} {P} {r} {b} {v} x e = outcome (subst (Safe P) e x)
    where
      outcome : Safe P (ok b v) → P b v
      outcome (done p) = p

  initial_world-Unique : Unique initial_world
  unfolding holders
  initial_world-Unique = record { once = λ n. omega arith; not_empty = refl }

  pub initial_world-Sane : Sane initial_world
  unfolding entries
  initial_world-Sane = record {
    inv = initial_world-Inv;
    distinct = λ name. omega arith;
    unique = initial_world-Unique;
  }

  pub Reach-Sane : (L : Laws) (w : World) → Reach w → Sane w
  Reach-Sane L w loaded = initial_world-Sane
  Reach-Sane L w (called r c b e) = (reached (perform-Keeps L c _ (Reach-Sane L _ r)) e).0

  -- In each state that some sequence of calls and rounds of the poll thread leads to, the invariant
  -- holds, no parameter is held twice, and no topic is registered twice or without a name. Each further
  -- call is free of undefined behaviour there: it still waits, or it returned, to a state of which the
  -- same holds.
  pub Reach-Safe :
      (L : Laws) (w : World) (c : Call) → Reach w → Sane w × Safe (λ _ v. Sane v) (perform c w)
  Reach-Safe L w c r =
      let s = Reach-Sane L w r in (s, Returns.Safe-mono (perform-Keeps L c w s) λ _ _ k. k.0)

  -- In each state that some sequence of calls and rounds of the poll thread leads to, each further call
  -- that returns does what the contract of kafka-table.h says, on what a session can tell of the state:
  -- it reports the contract's result, and changes the connection, the parameters by name and the
  -- registered topics by name as the contract says, and nothing else of them. It has no undefined
  -- behaviour.
  pub Reach-Contract :
      (L : Laws) (w : World) (c : Call)
      → Reach w
      → Safe (λ b v. Contract c (view w) b (view v)) (perform c w)
  Reach-Contract L w c r = Returns.Safe-mono (perform-Keeps L c w (Reach-Sane L w r)) λ _ _ k. k.1
