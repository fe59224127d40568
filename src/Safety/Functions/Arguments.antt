-- ===== src/Safety/Functions/Arguments.antt =====
-- What the SQL functions do with their arguments: the check of a name and its terminated copy, and the
-- lines that they print.
use trig_emit_kafka.Base.{
  ℕ, ◌+◌, ◌<◌, ◌≡◌, refl, true, false, ◌||◌, some, List, ◌∷◌, arith, inl, inr, Bool-cases,
  if◌then◌else◌, ltb, leb, ◌==◌, length, take_of_le,
}
use mathlib.Core.Path.{subst}
use trig_emit_kafka.Base.Bytes.{Str, c_str}
use trig_emit_kafka.Env.{Env}
use trig_emit_kafka.Machine.{World, Run, ok, M, pure, ◌>>=◌, ◌>>◌, print}
use trig_emit_kafka.Machine.Log.{LogLine}
use trig_emit_kafka.Machine.Args.{Answer, failed, copy_arg}
use trig_emit_kafka.Safety.Holders.{registered}
use trig_emit_kafka.Safety.Promises.Views.{Sane, view, logged}
use trig_emit_kafka.Udf.Statement.{Effect, Declined, for_name, named}

module _ ⦃E : Env⦄ where
  -- The answer and the state that a function ends with, from the state `w`.
  abbrev pub Promised : World → Effect → Answer → World → Type 0
  Promised w effect a v = Sane v × effect (view w) a (view v)

  print-view : (w : World) (log : List LogLine) → view w ≡ view (record w { log = log })
  unfolding registered
  print-view w log = refl

  -- A line in the log is nothing that a session can tell.
  pub told :
      (effect : Effect) (a : Answer) (w v : World) (log : List LogLine)
      → Promised w effect a v
      → Promised w effect a (record v { log = log })
  told effect a w v log (s, x) =
      (logged v v.calls log s, subst (effect (view w) a) (print-view v log) x)

  pub declined :
      (w : World) (l : LogLine) → Sane w → Promised w Declined failed (record w { log = l ∷ w.log })
  declined w l s = told Declined failed w w (l ∷ w.log) (s, (refl, (refl, (λ n. refl), λ n. refl)))

  pub copy_arg-c_str :
      (capacity : ℕ) (bytes : List ℕ) (w : World)
      → length bytes < capacity
      → copy_arg capacity bytes (length bytes) w ≡ ok (c_str bytes) w
  unfolding copy_arg
  copy_arg-c_str capacity bytes w h =
      let fits : ltb (length bytes) (length bytes) || leb capacity (length bytes) ≡ false =
        ground arith in
      rw (fits, take_of_le (length bytes) bytes (omega arith)) refl

  -- The check of the length of a name, before the function goes on with its copy. `R` is one of
  -- `Returns` and `Safe`.
  pub length_checked :
      (R : (Answer → World → Type 0) → Run Answer → Type 0)
      → ((P : Answer → World → Type 0) (a : Answer) (v : World) → P a v → R P (ok a v))
      → (limit : ℕ) (bytes : List ℕ) (l : LogLine) (next : Str → M Answer)
        (P : Answer → World → Type 0) (w : World)
      → let bad = (length bytes == 0) || ltb limit (length bytes) in
        (bad ≡ true → P failed (record w { log = l ∷ w.log }))
        → (bad ≡ false → R P (next (c_str bytes) w))
        → R P (
            (if bad
                then (print l >> pure failed)
                else (copy_arg (limit + 1) bytes (length bytes) >>= next))
              w)
  length_checked R done limit bytes l next P w declines goes_on =
      elim (Bool-cases ((length bytes == 0) || ltb limit (length bytes))) [
        | inl bad ↦ rw bad (done _ _ _ (declines bad))
        | inr good ↦
            let fits : length bytes < limit + 1 = ground (arith, good) in
            rw (good, copy_arg-c_str (limit + 1) bytes w fits) (goes_on good)
      ]

  -- With the effect that the function has on a name.
  pub name_checked :
      (R : (Answer → World → Type 0) → Run Answer → Type 0)
      → ((P : Answer → World → Type 0) (a : Answer) (v : World) → P a v → R P (ok a v))
      → (limit : ℕ) (bytes : List ℕ) (l : LogLine) (next : Str → M Answer) (effect : Str → Effect)
        (w : World)
      → Sane w
      → R (Promised w (effect (c_str bytes))) (next (c_str bytes) w)
      → R (Promised w (for_name (named limit (some bytes)) effect)) (
          (if (length bytes == 0) || ltb limit (length bytes)
              then (print l >> pure failed)
              else (copy_arg (limit + 1) bytes (length bytes) >>= next))
            w)
  name_checked R done limit bytes l next effect w s goes_on =
      length_checked R done limit bytes l next
        (Promised w (for_name (named limit (some bytes)) effect)) w (λ bad. rw bad (declined w l s))
        (λ good. rw good goes_on)
