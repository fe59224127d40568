-- ===== src/Machine/Returns.antt =====
-- What a run guarantees. `Returns P r`: it ends with a result of which P holds. `Safe P r`: it
-- ends so, or it still waits; it is never undefined behaviour.
use trig_emit_kafka.Base.{◌≡◌, refl}
use trig_emit_kafka.Env.{Env}
use trig_emit_kafka.Machine.{World, Run, ok, blocked, M, and_then}

module _ ⦃E : Env⦄ where
  pub data Returns {A : Type 0} (P : A → World → Type 0) : Run A → Type 0 where
    returns : {a : A} {w : World} → P a w → Returns P (ok a w)

  pub data Safe {A : Type 0} (P : A → World → Type 0) : Run A → Type 0 where
    done : {a : A} {w : World} → P a w → Safe P (ok a w)
    waits : Safe P blocked

module _ ⦃E : Env⦄ {A : Type 0} {P : A → World → Type 0} where
  pub bind :
      {B : Type 0} {Q : B → World → Type 0} {r : Run A} {k : A → M B}
      → Returns P r
      → ((a : A) (w : World) → P a w → Returns Q (k a w))
      → Returns Q (and_then r k)
  bind (returns post) continue = continue _ _ post

  pub mono :
      {Q : A → World → Type 0} {r : Run A}
      → Returns P r
      → ((a : A) (w : World) → P a w → Q a w)
      → Returns Q r
  mono (returns post) imply = returns (imply _ _ post)

  pub bind-Safe :
      {B : Type 0} {Q : B → World → Type 0} {r : Run A} {k : A → M B}
      → Returns P r
      → ((a : A) (w : World) → P a w → Safe Q (k a w))
      → Safe Q (and_then r k)
  bind-Safe (returns post) continue = continue _ _ post

  pub Safe-bind :
      {B : Type 0} {Q : B → World → Type 0} {r : Run A} {k : A → M B}
      → Safe P r
      → ((a : A) (w : World) → P a w → Safe Q (k a w))
      → Safe Q (and_then r k)
  Safe-bind (done p) next = next _ _ p
  Safe-bind waits next = waits

  pub Returns-Safe : {r : Run A} → Returns P r → Safe P r
  Returns-Safe (returns p) = done p

  pub Safe-mono :
      {Q : A → World → Type 0} {r : Run A}
      → Safe P r
      → ((a : A) (w : World) → P a w → Q a w)
      → Safe Q r
  Safe-mono (done p) weaken = done (weaken _ _ p)
  Safe-mono waits weaken = waits

  -- A run that returns is one of a result and a state.
  pub Returns-ok : {r : Run A} → Returns P r → (a : A) × (w : World) × (r ≡ ok a w) × P a w
  Returns-ok (returns p) = (_, _, refl, p)
