-- ===== src/Safety/Promises/Dismissals.antt =====
-- Dismissing a topic keeps what kafka-table.h promises.
use trig_emit_kafka.Base.{
  ℕ, ◌≤◌, ◌≡◌, refl, sym, ◌∙◌, ap, true, false, Option, none, some, [], ◌∷◌, arith, inl, inr,
  Bool-cases, if◌then◌else◌, ltb, is_some, swap_remove,
}
use trig_emit_kafka.Base.Bytes.{Str, str_eq, str_eq_refl, str_eq_iff, zstr}
use trig_emit_kafka.Env.{Env, Laws}
use trig_emit_kafka.Machine.{World, ok}
use trig_emit_kafka.Machine.Log.{empty_topic_name}
use trig_emit_kafka.Machine.Returns
use trig_emit_kafka.Machine.Returns.{Returns, returns, Safe, done, waits}
use trig_emit_kafka.Table.Params.Bindings.{get_param}
use trig_emit_kafka.Table.Registry.{table_dismiss}
use trig_emit_kafka.Contract.{Call}
use trig_emit_kafka.Safety.Lookup.{index_in, index_in-named}
use trig_emit_kafka.Safety.Holders.{
  holders, holders-SameShapes, holders-swap_remove, is_some-index_in, named-named, registered,
}
use trig_emit_kafka.Safety.Dismissing.{Dismissed, table_dismiss-Dismissed}
use trig_emit_kafka.Safety.Promises.Views.{Sane, Keeps, logged}

module _ ⦃E : Env⦄ where
  -- Taking the found record out of the list takes its name out of the table.
  pub names-Dismissed :
      (w v : World) (name : Str) (o : Option ℕ)
      → Sane w
      → index_in w.heap name w.kt.topics ≡ o
      → Dismissed w o v
      → (other : Str)
      → (registered v other ≡ (if str_eq name other then false else registered w other))
        × (holders v.heap other v.kt.topics ≤ holders w.heap other w.kt.topics)
  unfolding registered
  names-Dismissed w v name none s e d other =
      let same : holders v.heap other v.kt.topics ≡ holders w.heap other w.kt.topics =
        ap (holders v.heap other) d.topics
        ∙ holders-SameShapes w.heap v.heap other w.kt.topics d.shapes in
      let unknown = ap is_some (sym e) ∙ is_some-index_in w.heap name w.kt.topics in
      elim (Bool-cases (str_eq name other)) [
        | inr differs ↦ rw (differs, same) (refl, omega arith)
        | inl is ↦
            let eq : name ≡ other = (str_eq_iff name other).0 is in
            rw (is, same)
              (sym (unknown ∙ ap (λ n. ltb 0 (holders w.heap n w.kt.topics)) eq), omega arith)
      ]
  names-Dismissed w v name (some i) s e d other =
      let same : holders v.heap other v.kt.topics
          ≡ holders w.heap other (swap_remove i w.kt.topics) =
        ap (holders v.heap other) d.topics
        ∙ holders-SameShapes w.heap v.heap other (swap_remove i w.kt.topics) d.shapes in
      let (a, at, hit) = index_in-named w.heap name w.kt.topics i e in
      let out = holders-swap_remove w.heap other i a w.kt.topics at in
      let title = named-named w.heap a name other hit in
      let once = s.unique.once other in
      (ground (arith, same, out, title, once), omega (arith, same, out))

  pub empty_name : (name : Str) → zstr (some name) ≡ true → name ≡ []
  unfolding zstr
  empty_name [] e = refl
  empty_name (c ∷ name) e = absurd (cc)

  pub table_dismiss-empty :
      (w : World) (name : Str)
      → zstr (some name) ≡ true
      → table_dismiss name w ≡ ok false (record w { log = empty_topic_name ∷ w.log })
  unfolding table_dismiss
  table_dismiss-empty w name empty = rw empty refl

  pub is_registered :
      (w : World) (name : Str) → is_some (index_in w.heap name w.kt.topics) ≡ registered w name
  unfolding registered
  is_registered w name = is_some-index_in w.heap name w.kt.topics

  -- No topic has the empty name.
  pub unregistered_empty :
      (w : World) (name other : Str)
      → Sane w
      → name ≡ []
      → str_eq name other ≡ true
      → registered w other ≡ false
  unfolding registered
  unregistered_empty w name other s e same =
      let eq : other ≡ [] = sym ((str_eq_iff name other).0 same) ∙ e in
      ap (λ n. ltb 0 (holders w.heap n w.kt.topics)) eq ∙ ap (ltb 0) s.unique.not_empty

  pub dismiss_nothing :
      (w : World) (name other : Str)
      → Sane w
      → name ≡ []
      → registered w other ≡ (if str_eq name other then false else registered w other)
  dismiss_nothing w name other s e = elim (Bool-cases (str_eq name other)) [
    | inl same ↦ rw same (unregistered_empty w name other s e same)
    | inr differs ↦ rw differs refl
  ]

  pub dismiss-Keeps :
      (L : Laws) (w : World) (name : Str)
      → Sane w
      → Returns (Keeps (Call.dismiss name) w) (table_dismiss name w)
  unfolding registered
  dismiss-Keeps L w name s = elim (Bool-cases (zstr (some name))) [
    | inl empty ↦ rw (table_dismiss-empty w name empty) (
        returns {a = false} (
          let e = empty_name name empty in
          (
            logged w w.calls (empty_topic_name ∷ w.log) s,
            (
              sym (unregistered_empty w name name s e (str_eq_refl name)),
              refl,
              (λ n. refl),
              λ other. dismiss_nothing w name other s e,
            ),
          )))
    | inr filled ↦ Returns.mono (table_dismiss-Dismissed L w name s.inv filled) λ b v (same, d).
        let names = names-Dismissed w v name (index_in w.heap name w.kt.topics) s refl d in
        (
          record {
            inv = d.inv;
            distinct = λ n. rw d.params (s.distinct n);
            unique = record {
              once =
                  λ other. let le = (names other).1 in let h = s.unique.once other in omega arith;
              not_empty = let le = (names []).1 in let h = s.unique.not_empty in omega arith;
            };
          },
          (
            same ∙ is_registered w name,
            ap is_some d.producer,
            (λ n. ap (get_param n) d.params),
            λ other. (names other).0,
          ),
        )
  ]
