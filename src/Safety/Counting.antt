-- ===== src/Safety/Counting.antt =====
-- The messages of the topics of a name, across each call of kafka-table.h.
use trig_emit_kafka.Base.{
  ℕ, ◌+◌, ◌%◌, ◌^◌, ◌<◌, ◌≡◌, refl, sym, ◌∙◌, ap, Bool, true, false, ◌&&◌, Option, none, some, List,
  [], ◌∷◌, arith, inl, inr, Bool-cases, Option-cases, if◌then◌else◌, ◌==◌, ==_refl, ==_iff, count,
  ltb, length, is_some, swap_remove,
}
use trig_emit_kafka.Base.Bytes.{Str, str_eq}
use trig_emit_kafka.Base.Int.{ℤ, to_int, to_int-pos, minus_one}
use trig_emit_kafka.Env.{Env}
use trig_emit_kafka.Machine.{Topic, Param, World, Tables}
use trig_emit_kafka.Contract.{Call, is_natural}
use trig_emit_kafka.Safety.Lookup.{
  named, lookup_name, lookup_in, lookup_name-registered, index_in, index_in-named,
}
use trig_emit_kafka.Safety.Holders.{named-named, registered}
use trig_emit_kafka.Safety.Account.{
  account, load, load_of, load-same, load_of-kept, load-kept, load-swap_remove, load-zero,
}
use mathlib.Core.Path.{subst}
use trig_emit_kafka.Safety.Parameters.{Written}
use trig_emit_kafka.Safety.Sending.{added}
use trig_emit_kafka.Safety.Feeding.{Fed, none_more}
use trig_emit_kafka.Safety.Calls.{Sends, sent_to}
use trig_emit_kafka.Safety.Dismissing.{Dismissed}
use trig_emit_kafka.Safety.Promises.{Sent-registered}
use trig_emit_kafka.Safety.Promises.Views.{Sane}

-- Is the call a kafka_table_send() to the topic?
abbrev pub sends_to : Call → Str → Bool
sends_to (Call.set _ _ _) topic = false
sends_to (Call.unset _) topic = false
sends_to (Call.connect _ _) topic = false
sends_to Call.disconnect topic = false
sends_to (Call.create _) topic = false
sends_to (Call.exists _) topic = false
sends_to (Call.send _ none _) topic = false
sends_to (Call.send _ (some name) _) topic = str_eq name topic
sends_to (Call.dismiss _) topic = false
sends_to (Call.stats _) topic = false
sends_to (Call.round _) topic = false
sends_to Call.unload topic = false

-- The length of the message that the call sends, if it sends one, is an int.
abbrev pub int_sized : Call → Bool
int_sized (Call.set _ _ _) = true
int_sized (Call.unset _) = true
int_sized (Call.connect _ _) = true
int_sized Call.disconnect = true
int_sized (Call.create _) = true
int_sized (Call.exists _) = true
int_sized (Call.send _ _ payload) = ltb (length payload) (2 ^ 31)
int_sized (Call.dismiss _) = true
int_sized (Call.stats _) = true
int_sized (Call.round _) = true
int_sized Call.unload = true

-- One more message for the topic, where the call sent one and reported success.
abbrev pub one_more : Call → Bool → Str → ℕ
one_more c b topic = if b && sends_to c topic then 1 else 0

module _ ⦃E : Env⦄ where
  -- Each registered topic got as many messages as `more` says.
  abbrev pub Counts : World → (Str → ℕ) → World → Type 0
  Counts w more v =
      (topic : Str)
      → registered v topic ≡ true
      → load_of v topic % 2 ^ 32 ≡ (load_of w topic + more topic) % 2 ^ 32

  -- Each registered topic has the messages that it had before.
  abbrev pub Kept : World → World → Type 0
  Kept w v =
      (topic : Str)
      → registered v topic ≡ true
      → load_of v topic % 2 ^ 32 ≡ load_of w topic % 2 ^ 32

  pub Kept-Counts :
      (w v : World) (more : Str → ℕ) → ((topic : Str) → more topic ≡ 0) → Kept w v → Counts w more v
  Kept-Counts w v more nothing kept topic h =
      let k = kept topic h in let n = nothing topic in omega arith

  -- Where no topic is left there is nothing to count.
  pub no_topics-Kept : (w v : World) → ((topic : Str) → registered v topic ≡ false) → Kept w v
  no_topics-Kept w v left topic h = absurd (ground (arith, left topic))

  -- The messages of each registered topic are those of before, and the one that was sent to it.
  abbrev pub Counted : Call → World → Bool → World → Type 0
  Counted c w b v = Counts w (one_more c b) v

  pub Fed-load :
      {w v : World} {more : ℕ → ℕ}
      → Fed w more v
      → (topic : Str)
      → load_of v topic % 2 ^ 32 ≡ (load_of w topic + load w.heap more topic w.kt.topics) % 2 ^ 32
  Fed-load {w} {v} {more} f topic =
      ap (λ (kt : Tables). load v.heap (account v) topic kt.topics % 2 ^ 32) f.kt
      ∙ load-same w.heap v.heap (account w) more (account v) topic w.kt.topics (λ a h. f.shapes a)
          (λ a h. f.accounts a)

  pub Fed-kept :
      {w v : World}
      → Fed w none_more v
      → (topic : Str) → load_of v topic % 2 ^ 32 ≡ load_of w topic % 2 ^ 32
  Fed-kept {w} {v} f topic = omega (arith, Fed-load f topic, load-zero w.heap topic w.kt.topics)

  pub Written-kept :
      (w v : World) (ps : List Param)
      → Written w ps v
      → (topic : Str) → load_of v topic ≡ load_of w topic
  Written-kept w v ps x topic = rw (x.heap, x.producers, x.producer, x.topics) refl

  -- One message for one record.
  load-added :
      (heap : ℕ → Option Topic) (b : Bool) (a : ℕ) (topic : Str) (ts : List ℕ)
      → load heap (added (some b) a) topic ts
        ≡ (if b && named topic (heap a) then count a ts else 0)
  unfolding load
  load-added heap b a topic [] = ground arith
  load-added heap b a topic (x ∷ ts) =
      let rest = load-added heap b a topic ts in
      elim (Bool-cases (x == a)) [
        | inl eq ↦ let same : x ≡ a = (==_iff x a).0 eq in rw same (ground (arith, rest, ==_refl a))
        | inr ne ↦
            let other : (a == x) ≡ false = ground arith in rw (ne, other) (ground (arith, rest))
      ]

  pub lookup_name-named :
      (heap : ℕ → Option Topic) (name : Str) (ts : List ℕ) (a : ℕ)
      → lookup_in heap name ts ≡ some a
      → named name (heap a) ≡ true
  unfolding lookup_in
  lookup_name-named heap name ts a e = elim (Option-cases (index_in heap name ts)) [
    | inl none_found ↦ absurd (ground arith)
    | inr (i, found) ↦
        let (b, at, hit) = index_in-named heap name ts i found in
        let same : b ≡ a = ground arith in ap (λ x. named name (heap x)) (sym same) ∙ hit
  ]

  -- The result of kafka_table_send() tells whether the message was taken.
  natural_sent :
      (took : Bool) (n : ℕ) (r : ℤ)
      → n < 2 ^ 31
      → r ≡ (if took then to_int n else minus_one)
      → is_natural r ≡ took
  natural_sent true n r small e = ap is_natural (e ∙ to_int-pos n small)
  natural_sent false n r small e = ap is_natural e

  pub send-Counted :
      (w v : World) (fuel : ℕ) (name : Option Str) (payload : List ℕ) (r : ℤ)
      → Sane w
      → length payload < 2 ^ 31
      → Sends w name payload r v
      → Counted (Call.send fuel name payload) w (is_natural r) v
  send-Counted w v fuel none payload r s small x topic h =
      let f : Fed w none_more v = record {
        inv = x.fed.inv;
        kt = x.fed.kt;
        shapes = x.fed.shapes;
        accounts = x.fed.accounts;
      } in
      let kept = Fed-kept f topic in ground arith
  send-Counted w v fuel (some name) payload r s small x topic h =
      elim (Option-cases (lookup_name w.heap (some name) w.kt.topics)) [
        | inl missing ↦
            let f : Fed w none_more v = subst (λ o. Fed w (sent_to o x.took) v) missing x.fed in
            let known = Sent-registered _ payload r x.sent in
            let failed : is_natural r ≡ false = ground (arith, known, ap is_some missing) in
            rw failed (omega (arith, Fed-kept f topic))
        | inr (a, found) ↦
            let f : Fed w (added (some x.took) a) v =
              subst (λ o. Fed w (sent_to o x.took) v) found x.fed in
            let once = s.inv.once a in
            let listed = lookup_name-registered w.heap (some name) w.kt.topics a found in
            let title =
              named-named w.heap a name topic (lookup_name-named w.heap name w.kt.topics a found) in
            let more = load-added w.heap x.took a topic w.kt.topics in
            let result = natural_sent x.took (length payload) r small x.answer in
            let it = Fed-load f topic in ground arith
      ]

  -- Dismissing a topic takes its messages out of the table, and no others.
  pub dismiss-Counted :
      (w v : World) (name : Str) (o : Option ℕ)
      → index_in w.heap name w.kt.topics ≡ o
      → Dismissed w o v
      → (topic : Str) → str_eq name topic ≡ false
      → load_of v topic % 2 ^ 32 ≡ load_of w topic % 2 ^ 32
  dismiss-Counted w v name none e d topic other =
      load_of-kept w v topic d.topics d.shapes d.accounts
  dismiss-Counted w v name (some i) e d topic other =
      let (a, at, hit) = index_in-named w.heap name w.kt.topics i e in
      let title : named topic (w.heap a) ≡ false = named-named w.heap a name topic hit ∙ other in
      let kept = load-kept w v topic (swap_remove i w.kt.topics) d.shapes d.accounts in
      let out = load-swap_remove w.heap (account w) topic i a w.kt.topics at title in
      ap (λ ts. load v.heap (account v) topic ts % 2 ^ 32) d.topics
      ∙ kept
      ∙ ap (λ n. n % 2 ^ 32) out
