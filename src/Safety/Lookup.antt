-- ===== src/Safety/Lookup.antt =====
-- Looking a topic up by name, and growing an array.
use trig_emit_kafka.Base.{
  ℕ, suc, ◌≤◌, ◌<◌, ◌≡◌, refl, true, false, Bool, Option, none, some, List, [], ◌∷◌, arith, inl,
  inr, Bool-cases, count, if◌then◌else◌, ltb, ==_refl, Option-cases, get_elem?, count_of_get_elem?,
}
use trig_emit_kafka.Base.Bytes.{Str, str_eq}
use trig_emit_kafka.Env.{Env}
use trig_emit_kafka.Machine.{Topic, World, M, ok, Run, and_then}
use trig_emit_kafka.Table.Slots.{grow, grown_capacity, check_slot}
use trig_emit_kafka.Table.Registry.{find_index, find_locked}
use trig_emit_kafka.Safety.Frame.{Live}
use trig_emit_kafka.Safety.Closing.{HasHandle}
use trig_emit_kafka.Safety.Invariant.{Inv, topics-Live}

module _ ⦃E : Env⦄ where
  abbrev pub named : Str → Option Topic → Bool
  named name none = false
  named name (some topic) = str_eq topic.name name

  -- The first index whose record has the name, as a function of the heap.
  unfoldable pub index_in : (ℕ → Option Topic) → Str → List ℕ → Option ℕ
  index_in heap name [] = none
  index_in heap name (a ∷ ts) =
      let rest = index_in heap name ts in
      if named name (heap a) then some 0 else elim rest [ none ↦ none | some i ↦ some (suc i) ]

  -- The address of that record.
  unfoldable pub lookup_in : (ℕ → Option Topic) → Str → List ℕ → Option ℕ
  lookup_in heap name ts = elim (index_in heap name ts) [ none ↦ none | some i ↦ get_elem? ts i ]

  -- Over live records the loop finds that index, without a fault, and changes nothing.
  pub find_index-index_in :
      (name : Str) (ts : List ℕ) (w : World)
      → ((a : ℕ) → 0 < count a ts → Live w.heap a)
      → find_index name ts w ≡ ok (index_in w.heap name ts) w
  unfolding find_index index_in
  find_index-index_in name [] w live = refl
  find_index-index_in name (a ∷ ts) w live = elim (Option-cases (w.heap a)) [
    | inl e ↦ absurd (ground (arith, live a, ==_refl a))
    | inr (topic, e) ↦ rw e (elim (Bool-cases (str_eq topic.name name)) [
      | inl hit ↦ rw hit
      | inr miss ↦ rw (miss, find_index-index_in name ts w (λ b h. live b (omega arith)))
    ])
  ]

  -- What is found is registered and has the name.
  pub index_in-named :
      (heap : ℕ → Option Topic) (name : Str) (ts : List ℕ) (i : ℕ)
      → index_in heap name ts ≡ some i
      → (a : ℕ) × (get_elem? ts i ≡ some a) × (named name (heap a) ≡ true)
  unfolding index_in
  index_in-named heap name [] i e = absurd (cc)
  index_in-named heap name (a ∷ ts) i e = elim (Bool-cases (named name (heap a))) [
    | inl hit ↦ (a, ground arith, hit)
    | inr miss ↦ elim (Option-cases (index_in heap name ts)) [
      | inl no_rest ↦ absurd (ground arith)
      | inr (j, found) ↦
          let (b, at, hit) = index_in-named heap name ts j found in
          let same : i ≡ suc j = ground arith in rw same (b, at, hit)
    ]
  ]

  pub all-Live : (w : World) → Inv w → (a : ℕ) → 0 < count a w.kt.topics → Live w.heap a
  all-Live w i a h = elim (Option-cases w.kt.producer) [
    | inl e ↦ absurd (ground (arith, i.idle e))
    | inr (p, e) ↦ topics-Live w p i e a h
  ]

  pub find_locked-lookup_in :
      (name : Str) (w : World)
      → Inv w
      → find_locked (some name) w ≡ ok (lookup_in w.heap name w.kt.topics) w
  unfolding find_locked lookup_in
  find_locked-lookup_in name w i = rw (find_index-index_in name w.kt.topics w (all-Live w i))

  abbrev pub lookup_name : (ℕ → Option Topic) → Option Str → List ℕ → Option ℕ
  lookup_name heap none ts = none
  lookup_name heap (some name) ts = lookup_in heap name ts

  pub find_locked-lookup_name :
      (name : Option Str) (w : World)
      → Inv w
      → find_locked name w ≡ ok (lookup_name w.heap name w.kt.topics) w
  unfolding find_locked
  find_locked-lookup_name none w i = refl
  find_locked-lookup_name (some name) w i = find_locked-lookup_in name w i

  pub lookup_name-registered :
      (heap : ℕ → Option Topic) (name : Option Str) (ts : List ℕ) (a : ℕ)
      → lookup_name heap name ts ≡ some a
      → 0 < count a ts
  unfolding lookup_in
  lookup_name-registered heap none ts a e = absurd (cc)
  lookup_name-registered heap (some name) ts a e = elim (Option-cases (index_in heap name ts)) [
    | inl none_found ↦ absurd (ground arith)
    | inr (i, found) ↦ count_of_get_elem? a i ts (ground arith)
  ]

  pub lookup_name-HasHandle :
      (w : World) (i : Inv w) (name : Option Str) (a : ℕ)
      → lookup_name w.heap name w.kt.topics ≡ some a
      → (p : ℕ) × (w.kt.producer ≡ some p) × HasHandle w.heap p a
  lookup_name-HasHandle w i name a e =
      let h = lookup_name-registered w.heap name w.kt.topics a e in
      elim (Option-cases w.kt.producer) [
        | inl idle ↦ absurd (ground (arith, i.idle idle))
        | inr (p, at) ↦ (p, at, (i.connected p at).handles a h)
      ]

  -- Growing: what follows runs with nothing, or with a capacity that has room for one more entry.
  pub grow_cases :
      {B : Type 0} (Q : Run B → Type 0) (k : Option ℕ → M B) (capacity count : ℕ) (w : World)
      → count ≤ capacity
      → ((n : ℕ) → Q (k none (record w { calls = n })))
      → ((n c : ℕ) → count < c → Q (k (some c) (record w { calls = n })))
      → Q (and_then (grow capacity count w) k)
  unfolding grow grown_capacity
  grow_cases Q k capacity count w fits failed grown = elim (Bool-cases (ltb count capacity)) [
    | inl room ↦ rw room (grown w.calls capacity (ground arith))
    | inr full ↦ rw full (elim (Bool-cases (E.malloc w.calls)) [
      | inl yes' ↦ rw yes' (grown _ _ (ground arith))
      | inr no' ↦ rw no' (failed _)
    ])
  ]

  pub check_slot-ok :
      (i capacity : ℕ) (w : World) → i < capacity → check_slot i capacity w ≡ ok tt w
  unfolding check_slot
  check_slot-ok i capacity w h = ground arith
