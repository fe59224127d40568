-- ===== src/Table/Slots.antt =====
-- kafka-table.c, lines 18 to 52: the arrays of the table, which grow by doubling.
use trig_emit_kafka.Base.{ℕ, ◌*◌, Option, none, some, if◌then◌else◌, ltb, ◌==◌}
use trig_emit_kafka.Env.{Env}
use trig_emit_kafka.Machine.{M, fault, pure, ◌>>=◌, malloc}

-- KAFKA_TABLE_INITIAL_SLOTS
abbrev pub initial_slots : ℕ
initial_slots = 8

unfoldable pub grown_capacity : ℕ → ℕ
grown_capacity capacity = if capacity == 0 then initial_slots else capacity * 2

module _ ⦃E : Env⦄ where
  -- kafka_table_grow(): the capacity after, or nothing where the allocation failed.
  unfoldable pub grow : ℕ → ℕ → M (Option ℕ)
  grow capacity count =
      if ltb count capacity
      then pure (some capacity)
      else do allocated ← malloc; pure (if allocated then some (grown_capacity capacity) else none)

  -- A write to the slot `i` of an array.
  unfoldable pub check_slot : ℕ → ℕ → M (Unit {0})
  check_slot i capacity = if ltb i capacity then pure tt else λ _. fault
