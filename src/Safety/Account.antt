-- ===== src/Safety/Account.antt =====
-- The messages of a topic record: those in librdkafka's queue, and those that its counters have seen.
use trig_emit_kafka.Base.{
  ℕ, ◌+◌, ◌%◌, ◌^◌, ◌≤◌, ◌<◌, ◌≡◌, refl, ◌∙◌, ap, true, false, Option, none, some, List, [], ◌∷◌,
  ◌++◌, arith, inl, inr, Bool-cases, if◌then◌else◌, ◌==◌, ==_refl, ==_iff, count, get_elem?,
  swap_remove, total, total-append, total-swap_remove,
}
use trig_emit_kafka.Base.Bytes.{Str}
use trig_emit_kafka.Env.{Env}
use trig_emit_kafka.Machine.{Topic, Producer, World}
use trig_emit_kafka.Safety.Frame.{tally}
use trig_emit_kafka.Safety.Polling.{with_rk}
use trig_emit_kafka.Safety.Lookup.{named}
use trig_emit_kafka.Safety.Holders.{SameShapes, named-shape, holders}

module _ ⦃E : Env⦄ where
  -- How many messages of the record at `a` the out queue of a producer holds.
  abbrev waiting : Option Producer → ℕ → ℕ
  waiting none a = 0
  waiting (some pr) a = elim pr.rk [ none ↦ 0 | some rk ↦ count a (E.in_flight rk) ]

  abbrev waiting_at : (ℕ → Option Producer) → Option ℕ → ℕ → ℕ
  waiting_at producers none a = 0
  waiting_at producers (some p) a = waiting (producers p) a

  -- How many messages of the record at `a` are in the out queue of the table's producer.
  unfoldable pub queued_for : (ℕ → Option Producer) → Option ℕ → ℕ → ℕ
  queued_for producers o a = waiting_at producers o a

  -- The messages of the record at `a`: those in the out queue of the table's producer, and those that
  -- its counters have seen a report of.
  abbrev pub account : World → ℕ → ℕ
  account w a = tally (w.heap a) + queued_for w.producers w.kt.producer a

  pub queued_for-rk :
      (producers : ℕ → Option Producer) (o : Option ℕ) (p a : ℕ) (pr : Producer) (rk : E.Rk)
      → o ≡ some p
      → producers p ≡ some (with_rk pr rk)
      → queued_for producers o a ≡ count a (E.in_flight rk)
  unfolding queued_for
  queued_for-rk producers o p a pr rk e at = rw (e, at) refl

  -- From `w` to `v` the record at `a` got `more a` messages; the counters are of 32 bits.
  abbrev pub Accounts : World → (ℕ → ℕ) → World → Type 0
  Accounts w more v = (a : ℕ) → account v a % 2 ^ 32 ≡ (account w a + more a) % 2 ^ 32

  -- The listed records have as many messages as before.
  abbrev pub SameAccounts : World → World → List ℕ → Type 0
  SameAccounts w v ts = (a : ℕ) → 0 < count a ts → account v a % 2 ^ 32 ≡ account w a % 2 ^ 32

  -- The same queue, seen through two tables.
  pub queued_for-same :
      (producers producers' : ℕ → Option Producer) (o : Option ℕ) (p a : ℕ) (pr pr' : Producer)
      (rk rk' : E.Rk)
      → o ≡ some p
      → producers p ≡ some (with_rk pr rk)
      → producers' p ≡ some (with_rk pr' rk')
      → E.in_flight rk' ≡ E.in_flight rk
      → queued_for producers' o a ≡ queued_for producers o a
  queued_for-same producers producers' o p a pr pr' rk rk' e at at' queue =
      let before = queued_for-rk producers o p a pr rk e at in
      let after = queued_for-rk producers' o p a pr' rk' e at' in
      omega (arith, before, after, ap (count a) queue)

  -- What the listed records of a name weigh together.
  abbrev weighs : (ℕ → Option Topic) → (ℕ → ℕ) → Str → ℕ → ℕ
  weighs heap weight name a = if named name (heap a) then weight a else 0

  unfoldable pub load : (ℕ → Option Topic) → (ℕ → ℕ) → Str → List ℕ → ℕ
  load heap weight name ts = total (weighs heap weight name) ts

  pub load-same :
      (heap heap' : ℕ → Option Topic) (weight more weight' : ℕ → ℕ) (name : Str) (ts : List ℕ)
      → SameShapes heap heap' ts
      → ((a : ℕ) → 0 < count a ts → weight' a % 2 ^ 32 ≡ (weight a + more a) % 2 ^ 32)
      → load heap' weight' name ts % 2 ^ 32
        ≡ (load heap weight name ts + load heap more name ts) % 2 ^ 32
  unfolding load
  load-same heap heap' weight more weight' name [] same accounts = refl
  load-same heap heap' weight more weight' name (a ∷ ts) same accounts =
      let here = named-shape name (heap a) (heap' a) (same a (ground (arith, ==_refl a))) in
      let it = accounts a (ground (arith, ==_refl a)) in
      let rest =
        load-same heap heap' weight more weight' name ts (λ b h. same b (omega arith))
          (λ b h. accounts b (omega arith)) in
      elim (Bool-cases (named name (heap a))) [
        | inl hit ↦ rw (here, hit) (omega (arith, it, rest))
        | inr miss ↦ rw (here, miss) (omega (arith, rest))
      ]

  -- The messages of the registered records of a name.
  abbrev pub load_of : World → Str → ℕ
  load_of w name = load w.heap (account w) name w.kt.topics

  pub load-zero :
      (heap : ℕ → Option Topic) (name : Str) (ts : List ℕ) → load heap (λ _. 0) name ts ≡ 0
  unfolding load
  load-zero heap name [] = refl
  load-zero heap name (a ∷ ts) = let rest = load-zero heap name ts in ground arith

  pub load-kept :
      (w v : World) (name : Str) (ts : List ℕ)
      → SameShapes w.heap v.heap ts
      → SameAccounts w v ts
      → load v.heap (account v) name ts % 2 ^ 32 ≡ load w.heap (account w) name ts % 2 ^ 32
  load-kept w v name ts same accounts =
      let step =
        load-same w.heap v.heap (account w) (λ _. 0) (account v) name ts same
          (λ a h. let x = accounts a h in omega arith) in
      let none_else = load-zero w.heap name ts in omega arith

  pub load_of-kept :
      (w v : World) (name : Str)
      → v.kt.topics ≡ w.kt.topics
      → SameShapes w.heap v.heap w.kt.topics
      → SameAccounts w v w.kt.topics
      → load_of v name % 2 ^ 32 ≡ load_of w name % 2 ^ 32
  load_of-kept w v name topics same accounts =
      ap (λ ts. load v.heap (account v) name ts % 2 ^ 32) topics
      ∙ load-kept w v name w.kt.topics same accounts

  pub load-append :
      (heap : ℕ → Option Topic) (weight : ℕ → ℕ) (name : Str) (ts : List ℕ) (a : ℕ)
      → weight a ≡ 0
      → load heap weight name (ts ++ a ∷ []) ≡ load heap weight name ts
  unfolding load
  load-append heap weight name ts a none_yet =
      let it = total-append (weighs heap weight name) ts (a ∷ []) in ground arith

  -- Taking out a record of another name.
  pub load-swap_remove :
      (heap : ℕ → Option Topic) (weight : ℕ → ℕ) (name : Str) (i a : ℕ) (ts : List ℕ)
      → get_elem? ts i ≡ some a
      → named name (heap a) ≡ false
      → load heap weight name (swap_remove i ts) ≡ load heap weight name ts
  unfolding load
  load-swap_remove heap weight name i a ts at other =
      let out = total-swap_remove (weighs heap weight name) i a ts at in ground arith

  pub load-none :
      (heap : ℕ → Option Topic) (weight : ℕ → ℕ) (name : Str) (ts : List ℕ)
      → holders heap name ts ≡ 0
      → load heap weight name ts ≡ 0
  unfolding load holders
  load-none heap weight name [] none_held = refl
  load-none heap weight name (a ∷ ts) none_held =
      let rest = load-none heap weight name ts (omega arith) in ground arith

  held :
      (heap : ℕ → Option Topic) (name : Str) (ts : List ℕ) (a : ℕ)
      → 0 < count a ts
      → named name (heap a) ≡ true
      → 0 < holders heap name ts
  unfolding holders
  held heap name [] a h hit = absurd (omega arith)
  held heap name (b ∷ ts) a h hit = elim (Bool-cases (a == b)) [
    | inl eq ↦ let same : a ≡ b = (==_iff a b).0 eq in rw (← same, hit) (omega arith)
    | inr ne ↦ let rest = held heap name ts a (ground arith) hit in omega (arith, rest)
  ]

  -- Where one record has the name, the load is what that record weighs.
  pub load-alone :
      (heap : ℕ → Option Topic) (weight : ℕ → ℕ) (name : Str) (ts : List ℕ) (a : ℕ)
      → holders heap name ts ≤ 1
      → 0 < count a ts
      → named name (heap a) ≡ true
      → load heap weight name ts ≡ weight a
  unfolding load holders
  load-alone heap weight name [] a once h hit = absurd (omega arith)
  load-alone heap weight name (b ∷ ts) a once h hit = elim (Bool-cases (a == b)) [
    | inl eq ↦
        let same : a ≡ b = (==_iff a b).0 eq in
        let hit_b : named name (heap b) ≡ true = rw (← same) hit in
        let rest = load-none heap weight name ts (ground arith) in
        rw hit_b (omega (arith, rest, ap weight same))
    | inr ne ↦
        let more = held heap name ts a (ground arith) hit in
        let miss : named name (heap b) ≡ false = ground arith in
        let rest = load-alone heap weight name ts a (omega arith) (ground arith) hit in
        rw miss (omega (arith, rest))
  ]
