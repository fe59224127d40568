-- ===== src/Safety/Unloading.antt =====
-- kafka_table_shutdown() and the unloading of the module are safe.
use trig_emit_kafka.Base.{ℕ, ◌+◌, ◌<◌, ◌≡◌, ap, none, [], arith, count}
use trig_emit_kafka.Env.{Env, Laws}
use trig_emit_kafka.Machine.{initial_tables, World, Tables}
use trig_emit_kafka.Machine.Returns
use trig_emit_kafka.Machine.Returns.{Returns, returns}
use trig_emit_kafka.Table.Params.{clear_params}
use trig_emit_kafka.Table.Connection.{table_shutdown, module_unload}
use trig_emit_kafka.Safety.Invariant.{Inv}
use trig_emit_kafka.Safety.Teardown.{table_dismiss_all-Emptied}
use trig_emit_kafka.Safety.Parameters.{write}

module _ ⦃E : Env⦄ where
  -- What kafka_table_shutdown() leaves: the table as the server loaded it, and no producer.
  pub record ShutDown (w v : World) : Type 0 where
    pub inv : Inv v
    pub kt : v.kt ≡ initial_tables
    pub producers : (q : ℕ) → v.producers q ≡ none
    pub freed : (a : ℕ) → 0 < count a w.kt.topics + count a w.kt.retired → v.heap a ≡ none

  table_shutdown-ShutDown :
      (L : Laws) (w : World) → Inv w → Returns (λ _ v. ShutDown w v) (table_shutdown w)
  unfolding table_shutdown clear_params
  table_shutdown-ShutDown L w i = Returns.bind (table_dismiss_all-Emptied L w i) λ _ v m.
      returns (record {
        inv = (write v [] 0 v.calls m.inv (omega arith)).inv;
        kt = ap (λ (kt : Tables). record kt { params = []; param_capacity = 0 }) m.kt;
        producers = m.producers;
        freed = m.freed;
      })

  pub module_unload-ShutDown :
      (L : Laws) (w : World) → Inv w → Returns (λ _ v. ShutDown w v) (module_unload w)
  unfolding module_unload
  module_unload-ShutDown L w i =
      Returns.mono (table_shutdown-ShutDown L (record w { log = _ }) i)
        λ _ v s. record { inv = s.inv; kt = s.kt; producers = s.producers; freed = s.freed }
