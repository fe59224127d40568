-- ===== src/Safety/Functions/Served.antt =====
-- The SQL functions that return a number, in any order, with rounds of the poll thread and further calls
-- of the table between them.
use trig_emit_kafka.Base.{◌≡◌, Bool}
use trig_emit_kafka.Env.{Env, Laws}
use trig_emit_kafka.Machine.{World, ok}
use trig_emit_kafka.Machine.Args.{Answer}
use trig_emit_kafka.Machine.Returns
use trig_emit_kafka.Machine.Returns.{Safe}
use trig_emit_kafka.Contract.{Call, perform}
use trig_emit_kafka.Safety.Invariant.{initial_world}
use trig_emit_kafka.Safety.Promises.Views.{Sane}
use trig_emit_kafka.Safety.Promises.{perform-Keeps}
use trig_emit_kafka.Safety.Sessions.{reached, initial_world-Sane}
use trig_emit_kafka.Udf.Statement.{Statement, execute, Promise}
use trig_emit_kafka.Safety.Functions.Arguments.{Promised}
use trig_emit_kafka.Safety.Functions.Connecting.{
  kafka_connect-Promise, kafka_disconnect-Promise, disconnect_all-Promise,
}
use trig_emit_kafka.Safety.Functions.Params.{kafka_connection_param-Promise}
use trig_emit_kafka.Safety.Functions.Sending.{kafka_send-Promise}

module _ ⦃E : Env⦄ where
  pub execute-Promise :
      (L : Laws) (x : Statement) (w : World) → Sane w → Safe (Promised w (Promise x)) (execute x w)
  unfolding execute
  execute-Promise L (Statement.connect brokers) w s =
      Returns.Returns-Safe (kafka_connect-Promise L w brokers s)
  execute-Promise L Statement.disconnect_all w s =
      Returns.Returns-Safe (disconnect_all-Promise L w s)
  execute-Promise L (Statement.disconnect topic) w s =
      Returns.Returns-Safe (kafka_disconnect-Promise L w topic s)
  execute-Promise L (Statement.send fuel topic payload) w s =
      kafka_send-Promise L fuel w topic payload s
  execute-Promise L (Statement.param name value) w s =
      Returns.Returns-Safe (kafka_connection_param-Promise w name value s)

  -- The states that statements, rounds of the poll thread and calls of the table lead to, from the
  -- module as the server loads it.
  pub data Served : World → Type 0 where
    loaded : Served initial_world
    asked :
        {w v : World} → Served w → (x : Statement) → (a : Answer) → execute x w ≡ ok a v → Served v
    called : {w v : World} → Served w → (c : Call) → (b : Bool) → perform c w ≡ ok b v → Served v

  pub Served-Sane : (L : Laws) (w : World) → Served w → Sane w
  Served-Sane L w loaded = initial_world-Sane
  Served-Sane L w (asked r x a e) = (reached (execute-Promise L x _ (Served-Sane L _ r)) e).0
  Served-Sane L w (called r c b e) = (reached (perform-Keeps L c _ (Served-Sane L _ r)) e).0

  -- In each state that SQL statements, rounds of the poll thread and calls of the table lead to, each
  -- further statement that calls kafka_connect(), kafka_disconnect(), kafka_send() or
  -- kafka_connection_param() with arguments as the server hands them is free of undefined behaviour: it
  -- still waits, or it answered. Then it did what it promises: arguments that are NULL, empty or too
  -- long are answered by an error and change nothing that a session can tell; otherwise the connection,
  -- the parameters by name and the registered topics by name change as the contract of the table's calls
  -- says, and the answer tells whether they succeeded. No parameter is held twice then, and no topic is
  -- registered twice or without a name.
  pub Served-Promise :
      (L : Laws) (w : World) (x : Statement)
      → Served w
      → Safe (Promised w (Promise x)) (execute x w)
  Served-Promise L w x r = execute-Promise L x w (Served-Sane L w r)
