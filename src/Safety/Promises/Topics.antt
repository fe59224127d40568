-- ===== src/Safety/Promises/Topics.antt =====
-- Creating a topic keeps what kafka-table.h promises.
use trig_emit_kafka.Base.{
  sym, ℕ, ◌+◌, ◌≤◌, ◌≡◌, refl, ◌∙◌, ap, Bool, true, false, not, ◌&&◌, Option, none, some, List, [],
  ◌∷◌, arith, inl, inr, Option-cases, if◌then◌else◌, ltb, is_some, get_elem?,
}
use trig_emit_kafka.Base.Bytes.{Str, str_eq, str_eq_refl, str_eq_iff, zstr}
use trig_emit_kafka.Env.{Env}
use trig_emit_kafka.Machine.{World}
use trig_emit_kafka.Table.Params.Bindings.{get_param}
use trig_emit_kafka.Contract.{Call, is_name, has}
use trig_emit_kafka.Safety.Invariant.{Inv}
use trig_emit_kafka.Safety.Lookup.{lookup_name, lookup_in, index_in, index_in-named}
use trig_emit_kafka.Safety.Holders.{holders, is_some-index_in, registered}
use trig_emit_kafka.Safety.Creation.{Ready, found_before}
use trig_emit_kafka.Safety.Extending.{adds}
use trig_emit_kafka.Safety.Promises.Views.{Sane, view, Keeps, no_holders}

module _ ⦃E : Env⦄ where
  pub entry_found :
      (ts : List ℕ) (o : Option ℕ)
      → ((i : ℕ) → o ≡ some i → (a : ℕ) × (get_elem? ts i ≡ some a))
      → is_some (elim o as (λ _. Option ℕ) [ none ↦ none | some i ↦ get_elem? ts i ]) ≡ is_some o
  entry_found ts none inside = refl
  entry_found ts (some i) inside = let (a, at) = inside i refl in ap is_some at

  -- The search by name tells whether the name is registered.
  pub has-lookup :
      (w : World) (name : Option Str)
      → is_some (lookup_name w.heap name w.kt.topics) ≡ has (view w) name
  unfolding lookup_in registered
  has-lookup w none = refl
  has-lookup w (some name) =
      entry_found w.kt.topics (index_in w.heap name w.kt.topics)
        (λ i e. let (a, at, _) = index_in-named w.heap name w.kt.topics i e in (a, at))
      ∙ is_some-index_in w.heap name w.kt.topics

  -- One more record of a name, or none.
  pub count_case :
      (found b is : Bool) (h h' : ℕ)
      → (is ≡ true → found ≡ ltb 0 h)
      → h' ≡ h + (if b && not found then (if is then 1 else 0) else 0)
      → (found && not b) ≡ false
      → h ≤ 1
      → (ltb 0 h' ≡ (if is then b else ltb 0 h)) × (h' ≤ 1)
  count_case found b true h h' same e ready once = let f = same refl in ground arith
  count_case found b false h h' same e ready once = ground arith

  pub Ready-counts :
      (w v : World) (name : Option Str) (b : Bool)
      → Sane w
      → Ready w name b v
      → (other : Str)
      → (registered v other ≡ (if is_name name other then b else registered w other))
        × (holders v.heap other v.kt.topics ≤ 1)
  unfolding registered
  Ready-counts w v none b s r other =
      count_case false b false _ _ (λ e. absurd (cc)) (r.counts other) r.ready (s.unique.once other)
  Ready-counts w v (some name) b s r other =
      count_case (found_before w (some name)) b (str_eq name other) _ _
        (λ e.
          let same : name ≡ other = (str_eq_iff name other).0 e in
          has-lookup w (some name) ∙ ap (registered w) same)
        (r.counts other) r.ready (s.unique.once other)

  pub no_empty_name :
      (name : Option Str) (b found : Bool) (h h' : ℕ)
      → h ≡ 0
      → h' ≡ h + (if b && not found then adds name [] else 0)
      → ((b && not found) && zstr name) ≡ false
      → h' ≡ 0
  unfolding zstr
  no_empty_name none b found h h' e e' filled = ground arith
  no_empty_name (some []) b found h h' e e' filled = ground arith
  no_empty_name (some (c ∷ name)) b found h h' e e' filled = ground arith

  -- Nothing is registered without a connection.
  pub offline :
      (w : World) → Inv w → (n : Str) → registered w n ≡ true → is_some w.kt.producer ≡ true
  unfolding registered
  offline w i n h = elim (Option-cases w.kt.producer) [
    | inr (p, e) ↦ ap is_some e
    | inl e ↦ absurd (ground (arith, no_holders w n (i.idle e).0))
  ]

  pub needs_connection :
      (w v : World) (name : Option Str) (b : Bool)
      → Sane w
      → Ready w name b v
      → (b && not (is_some w.kt.producer)) ≡ false
  unfolding zstr
  needs_connection w v none b s r = ground (arith, r.filled)
  needs_connection w v (some name) false s r = refl
  needs_connection w v (some name) true s r =
      let here = (Ready-counts w v (some name) true s r name).0 in
      let up = offline v r.inv name (ground (arith, here, str_eq_refl name)) in
      ground (arith, up, ap is_some r.producer)

  pub create-Keeps :
      (w v : World) (name : Option Str) (b : Bool)
      → Sane w
      → Ready w name b v
      → Keeps (Call.create name) w b v
  create-Keeps w v name b s r = (
    record {
      inv = r.inv;
      distinct = λ n. rw r.params (s.distinct n);
      unique = record {
        once = λ other. (Ready-counts w v name b s r other).1;
        not_empty =
            no_empty_name name b (found_before w name) _ _ s.unique.not_empty (r.counts [])
              r.filled;
      };
    },
    (
      ap is_some r.producer,
      (λ n. ap (get_param n) r.params),
      (λ other. (Ready-counts w v name b s r other).0),
      needs_connection w v name b s r,
      ap (λ x. x && not b) (sym (has-lookup w name)) ∙ r.ready,
    ),
  )
