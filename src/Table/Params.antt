-- ===== src/Table/Params.antt =====
-- kafka-table.c, lines 160 to 251 and 558 to 589: the librdkafka properties that are held until
-- the producer is built.
pub mod Bindings
pub mod Lookup
use trig_emit_kafka.Base.{
  ℕ, zero, suc, inl, inr, Bool, true, false, not, ◌||◌, Option, none, some, List, [], ◌∷◌, ◌++◌,
  if◌then◌else◌, is_some, length, swap_remove,
}
use trig_emit_kafka.Base.Bytes.{Str, codes, zstr, str_eq, snprintf}
use trig_emit_kafka.Env.{Env}
use trig_emit_kafka.Machine.{Param, M, pure, ◌>>=◌, ◌>>◌, malloc, get_kt, put_kt}
use trig_emit_kafka.Engine.Producer.{Status, success, error}
use trig_emit_kafka.Table.Slots.{grow, check_slot}

-- The index at which the loop over the parameters finds the name.
unfoldable pub find_param : Str → List Param → Option ℕ
find_param name [] = none
find_param name (p ∷ ps) =
    let rest = find_param name ps in
    if str_eq p.name name then some 0 else elim rest [ none ↦ none | some i ↦ some (suc i) ]

-- `params[i].value = value`
unfoldable pub set_value : ℕ → Str → List Param → List Param
set_value i value [] = []
set_value zero value (p ∷ ps) = record p { value = value } ∷ ps
set_value (suc i) value (p ∷ ps) = p ∷ set_value i value ps

abbrev pub out_of_memory : ℕ → Status
out_of_memory errbuflen = error (some (snprintf errbuflen (codes "Out of memory")))

module _ ⦃E : Env⦄ where
  -- kafka_table_validate_param(): against a throwaway configuration.
  unfoldable pub validate_param : Option Str → Option Str → ℕ → M Status
  validate_param none value errbuflen =
      pure (error (some (snprintf errbuflen (codes "Parameter name must not be empty"))))
  validate_param (some name) none errbuflen =
      pure (error (some (snprintf errbuflen (codes "Parameter name must not be empty"))))
  validate_param (some name) (some value) errbuflen =
      if zstr (some name)
      then pure (error (some (snprintf errbuflen (codes "Parameter name must not be empty"))))
      else do
        allocated ← malloc
        if not allocated
            then pure (out_of_memory errbuflen)
            else elim (E.conf_set E.conf_new name value) [
              | inl message ↦ pure (error (some (snprintf errbuflen (snprintf 512 message))))
              | inr _ ↦ pure success
            ]

  unfoldable pub replace_param : ℕ → Str → ℕ → M Status
  replace_param i value errbuflen = do
    copied ← malloc
    kt ← get_kt
    if not copied
        then pure (out_of_memory errbuflen)
        else (put_kt (record kt { params = set_value i value kt.params }) >> pure success)

  unfoldable pub append_param : Str → Str → ℕ → M Status
  append_param name value errbuflen = do
    kt ← get_kt
    grown ← grow kt.param_capacity (length kt.params)
    elim grown [
      | none ↦ pure (out_of_memory errbuflen)
      | some capacity ↦
          put_kt (record kt { param_capacity = capacity })
          >> (malloc >>= λ dupname. malloc >>= λ dupvalue.
              if not dupname || not dupvalue then pure (out_of_memory errbuflen) else do
                check_slot (length kt.params) capacity
                put_kt (record kt {
                  param_capacity = capacity;
                  params = kt.params ++ record { name = name; value = value } ∷ [];
                })
                pure success)
    ]

  unfoldable pub store_param : Str → Str → ℕ → M Status
  store_param name value errbuflen = get_kt >>= λ kt.
      if is_some kt.producer
      then pure (
          error (
            some (
              snprintf errbuflen
                (codes "Already connected: disconnect before changing parameters"))))
      else elim (find_param name kt.params) [
        | some i ↦ replace_param i value errbuflen
        | none ↦ append_param name value errbuflen
      ]

  -- kafka_table_set_param()
  unfoldable pub set_param : Str → Str → ℕ → M Status
  set_param name value errbuflen = do
    valid ← validate_param (some name) (some value) errbuflen
    elim valid [ success ↦ store_param name value errbuflen | error message ↦ pure (error message) ]

  -- kafka_table_unset_param(): was the parameter there, and could it be taken out?
  unfoldable pub unset_param : Str → M Bool
  unset_param name =
      if zstr (some name)
      then pure false
      else (get_kt >>= λ kt.
          if is_some kt.producer then pure false else elim (find_param name kt.params) [
            | none ↦ pure false
            | some i ↦ put_kt (record kt { params = swap_remove i kt.params }) >> pure true
          ])

  -- kafka_table_clear_params_locked()
  unfoldable pub clear_params : M (Unit {0})
  clear_params = do kt ← get_kt; put_kt (record kt { params = []; param_capacity = 0 })
