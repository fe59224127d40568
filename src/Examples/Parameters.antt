-- ===== src/Examples/Parameters.antt =====
-- The theorems on the parameters, applied to concrete tables.
use trig_emit_kafka.Base.{
  ◌≡◌, refl, some, List, [], ◌∷◌, arith, inl, inr, Bool-cases, if◌then◌else◌, swap_remove,
}
use trig_emit_kafka.Base.Bytes.{Str, codes, str_eq, str_eq_iff}
use trig_emit_kafka.Base.Int.{ℤ}
use trig_emit_kafka.Machine.{Param, World, ok, initial_tables}
use trig_emit_kafka.Machine.Returns.{Returns}
use trig_emit_kafka.Table.Params.{set_param, unset_param, find_param}
use trig_emit_kafka.Table.Params.Bindings.{
  Distinct, entries, bindings, get_param, put_param, get_param-put_param, swap_remove-unbinds,
}
use trig_emit_kafka.Table.Describe.{describe_params}
use trig_emit_kafka.Table.Describe.Text.{describe_params-hides, Alike}
use trig_emit_kafka.Safety.Invariant.{Inv, initial_world, initial_world-Inv}
use trig_emit_kafka.Safety.Parameters.{ParamSet, set_param-ParamSet}
use trig_emit_kafka.Safety.Unsetting.{ParamUnset, unset_param-ParamUnset}
use trig_emit_kafka.Examples.{small}

abbrev pub acks : Str
acks = codes "acks"

abbrev pub password : Str
password = codes "ssl.key.password"

abbrev pub held : Str → List Param
held value =
    record { name = acks; value = codes "all" } ∷ record { name = password; value = value } ∷ []

abbrev pub holding : Str → World ⦃E = small⦄
holding value = record (initial_world ⦃E = small⦄) {
  kt = record initial_tables { params = held value; param_capacity = 4 };
}

pub holding-Inv : (value : Str) → Inv ⦃E = small⦄ (holding value)
holding-Inv value =
    let i = initial_world-Inv ⦃E = small⦄ in
    record {
      fresh = i.fresh;
      once = i.once;
      retired = i.retired;
      topics_fit = i.topics_fit;
      retired_fit = i.retired_fit;
      params_fit = omega arith;
      idle = i.idle;
      sole = i.sole;
      connected = i.connected;
    }

pub held-Alike : (value other : Str) → Alike (held value) (held other)
held-Alike value other = (refl, inl refl, (refl, inr (inl (codes "ssl.key.", [], refl)), tt))

describe_params-hides_example :
    (r : Str × ℤ) × (describe_params ⦃E = small⦄ 100 (holding (codes "pw"))
      ≡ ok r (holding (codes "pw")))
    × (describe_params ⦃E = small⦄ 100 (holding (codes "other")) ≡ ok r (holding (codes "other")))
describe_params-hides_example =
    describe_params-hides ⦃E = small⦄ (holding (codes "pw")) (holding (codes "other")) 100
      (omega arith) (held-Alike (codes "pw") (codes "other"))

set_param-ParamSet_example :
    Returns ⦃E = small⦄
      (ParamSet ⦃E = small⦄ (holding (codes "pw")) acks (codes "1"))
      (set_param ⦃E = small⦄ acks (codes "1") 512 (holding (codes "pw")))
set_param-ParamSet_example =
    set_param-ParamSet ⦃E = small⦄ (holding (codes "pw")) acks (codes "1") 512
      (holding-Inv (codes "pw"))

get_param-put_param_example :
    get_param password (put_param acks (codes "1") (held (codes "pw")))
    ≡ (if str_eq acks password then some (codes "1") else get_param password (held (codes "pw")))
get_param-put_param_example = get_param-put_param acks (codes "1") password (held (codes "pw"))

unset_param-ParamUnset_example :
    Returns ⦃E = small⦄
      (ParamUnset ⦃E = small⦄ (holding (codes "pw")) acks)
      (unset_param ⦃E = small⦄ acks (holding (codes "pw")))
unset_param-ParamUnset_example =
    unset_param-ParamUnset ⦃E = small⦄ (holding (codes "pw")) acks (holding-Inv (codes "pw"))

held-Distinct : (value : Str) → Distinct (held value)
unfolding entries
held-Distinct value name = elim (Bool-cases (str_eq acks name)) [
  | inl e ↦ let same : acks ≡ name = (str_eq_iff acks name).0 e in rw (← same) (omega arith)
  | inr ne ↦ ground arith
]

swap_remove-unbinds_example :
    ((other value : Str)
      → bindings other value (swap_remove 0 (held (codes "pw")))
        ≡ (if str_eq acks other then 0 else bindings other value (held (codes "pw"))))
    × Distinct (swap_remove 0 (held (codes "pw")))
unfolding find_param
swap_remove-unbinds_example =
    swap_remove-unbinds acks (held (codes "pw")) 0 (held-Distinct (codes "pw")) refl
