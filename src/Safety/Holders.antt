-- ===== src/Safety/Holders.antt =====
-- How many registered records have a name.
use trig_emit_kafka.Base.{
  ℕ, ◌+◌, ◌≤◌, ◌<◌, ◌≡◌, refl, ap, true, Bool, Option, none, some, List, [], ◌∷◌, ◌++◌, arith, inl,
  inr, Bool-cases, Option-cases, count, if◌then◌else◌, ltb, ==_refl, is_some, get_elem?,
  swap_remove, total, total-append, total-swap_remove,
}
use trig_emit_kafka.Base.Bytes.{Str, str_eq, str_eq_iff}
use trig_emit_kafka.Env.{Env}
use trig_emit_kafka.Machine.{Topic, World}
use trig_emit_kafka.Safety.Frame.{shape}
use trig_emit_kafka.Safety.Lookup.{named, index_in}

module _ ⦃E : Env⦄ where
  abbrev holds : (ℕ → Option Topic) → Str → ℕ → ℕ
  holds heap name a = if named name (heap a) then 1 else 0

  unfoldable pub holders : (ℕ → Option Topic) → Str → List ℕ → ℕ
  holders heap name ts = total (holds heap name) ts

  -- No record is renamed, created or freed among the listed ones.
  abbrev pub SameShapes : (heap heap' : ℕ → Option Topic) → List ℕ → Type 0
  SameShapes heap heap' ts = (a : ℕ) → 0 < count a ts → shape (heap' a) ≡ shape (heap a)

  pub named-shape :
      (name : Str) (s t : Option Topic) → shape t ≡ shape s → named name t ≡ named name s
  named-shape name none none e = refl
  named-shape name none (some t) e = absurd (cc)
  named-shape name (some s) none e = absurd (cc)
  named-shape name (some s) (some t) e =
      let same : t.name ≡ s.name = cc in ap (λ n. str_eq n name) same

  pub holders-SameShapes :
      (heap heap' : ℕ → Option Topic) (name : Str) (ts : List ℕ)
      → SameShapes heap heap' ts
      → holders heap' name ts ≡ holders heap name ts
  unfolding holders
  holders-SameShapes heap heap' name [] same = refl
  holders-SameShapes heap heap' name (a ∷ ts) same =
      let here = named-shape name (heap a) (heap' a) (same a (ground (arith, ==_refl a))) in
      let rest = holders-SameShapes heap heap' name ts (λ b h. same b (omega arith)) in
      ground (arith, here, rest)

  pub holders-append :
      (heap : ℕ → Option Topic) (name : Str) (ts : List ℕ) (a : ℕ)
      → holders heap name (ts ++ a ∷ [])
        ≡ holders heap name ts + (if named name (heap a) then 1 else 0)
  unfolding holders
  holders-append heap name ts a = omega (arith, total-append (holds heap name) ts (a ∷ []))

  pub holders-swap_remove :
      (heap : ℕ → Option Topic) (name : Str) (i a : ℕ) (ts : List ℕ)
      → get_elem? ts i ≡ some a
      → (if named name (heap a) then 1 else 0) + holders heap name (swap_remove i ts)
        ≡ holders heap name ts
  unfolding holders
  holders-swap_remove heap name i a ts at = total-swap_remove (holds heap name) i a ts at

  -- The loop finds a name exactly when some record holds it.
  pub is_some-index_in :
      (heap : ℕ → Option Topic) (name : Str) (ts : List ℕ)
      → is_some (index_in heap name ts) ≡ ltb 0 (holders heap name ts)
  unfolding index_in holders
  is_some-index_in heap name [] = refl
  is_some-index_in heap name (a ∷ ts) =
      let rest = is_some-index_in heap name ts in
      elim (Bool-cases (named name (heap a))) [
        | inl hit ↦ ground arith
        | inr miss ↦ elim (Option-cases (index_in heap name ts)) [
          | inl e ↦ ground (arith, rest)
          | inr (i, e) ↦ ground (arith, rest)
        ]
      ]

  -- A record that has two names has them both.
  pub named-named :
      (heap : ℕ → Option Topic) (a : ℕ) (name other : Str)
      → named name (heap a) ≡ true
      → named other (heap a) ≡ str_eq name other
  named-named heap a name other h = same (heap a) h
    where
      same : (o : Option Topic) → named name o ≡ true → named other o ≡ str_eq name other
      same none e = absurd (cc)
      same (some t) e =
          let is : t.name ≡ name = (str_eq_iff t.name name).0 e in ap (λ n. str_eq n other) is

  -- The names in the table: none is there twice, and none is empty.
  pub record Unique (w : World) : Type 0 where
    pub once : (name : Str) → holders w.heap name w.kt.topics ≤ 1
    pub not_empty : holders w.heap [] w.kt.topics ≡ 0

  -- Is the name registered?
  unfoldable pub registered : World → Str → Bool
  registered w name = ltb 0 (holders w.heap name w.kt.topics)
