-- ===== src/Safety/Sharing.antt =====
-- The calls that share ktlock, in any interleaving.
use trig_emit_kafka.Base.{ℕ, zero, suc, ◌+◌, ◌≡◌, sym, ap, Option, none, some, List, [], ◌∷◌, arith}
use mathlib.Core.Path.{subst}
use trig_emit_kafka.Env.{Env, Laws}
use trig_emit_kafka.Machine.{World, Tables}
use trig_emit_kafka.Machine.Returns
use trig_emit_kafka.Machine.Returns.{Returns, returns}
use trig_emit_kafka.Table.Sharing.{table_round, Reader, advance_at, turn, share}
use trig_emit_kafka.Safety.Invariant.{Inv}
use trig_emit_kafka.Safety.Feeding.{Fed, Fed-refl, none_more, Fed-trans}
use trig_emit_kafka.Safety.Promises.{poll_round-Fed}
use trig_emit_kafka.Safety.Readers.{AllUse, sent_by_all}
use trig_emit_kafka.Safety.Advancing.{advance-Advances}

module _ ⦃E : Env⦄ where
  -- The threads went on, and so did the messages that they have sent.
  pub record Shares (w : World) (readers readers' : List Reader) (v : World) : Type 0 where
    pub more : ℕ → ℕ
    pub fed : Fed w more v
    pub counts : (x : ℕ) → sent_by_all readers x + more x ≡ sent_by_all readers' x
    pub uses : AllUse w.kt.topics readers'

  module _ (L : Laws) (w : World) (i : Inv w) where
    Shares-refl : (readers : List Reader) → AllUse w.kt.topics readers → Shares w readers readers w
    Shares-refl readers u = record {
      more = none_more;
      fed = Fed-refl w i;
      counts = λ x. omega arith;
      uses = u;
    }

    advance_at-Shares :
        (n : ℕ) (readers : List Reader)
        → AllUse w.kt.topics readers
        → Returns (Shares w readers) (advance_at n readers w)
    unfolding advance_at
    advance_at-Shares n [] u = returns {a = []} (Shares-refl [] tt)
    advance_at-Shares zero (r ∷ readers) (u, us) =
        Returns.bind (advance-Advances L w i r u) λ r' v s. returns {a = r' ∷ readers} (record {
          more = s.more;
          fed = s.fed;
          counts = λ x. omega (arith, s.counts x);
          uses = (s.uses, us);
        })
    advance_at-Shares (suc n) (r ∷ readers) (u, us) =
        Returns.bind (advance_at-Shares n readers us) λ readers' v s.
          returns {a = r ∷ readers'} (record {
            more = s.more;
            fed = s.fed;
            counts = λ x. omega (arith, s.counts x);
            uses = (u, s.uses);
          })

    table_round-Fed : (o : Option ℕ) → Returns (λ _ v. Fed w none_more v) (table_round o w)
    unfolding table_round
    table_round-Fed none = returns (Fed-refl w i)
    table_round-Fed (some p) = poll_round-Fed L w p i

    turn-Shares :
        (t : Option ℕ) (readers : List Reader)
        → AllUse w.kt.topics readers
        → Returns (Shares w readers) (turn t readers w)
    unfolding turn
    turn-Shares (some n) readers u = advance_at-Shares n readers u
    turn-Shares none readers u = Returns.bind (table_round-Fed w.kt.producer) λ _ v f.
        returns {a = readers}
          (record { more = none_more; fed = f; counts = λ x. omega arith; uses = u })

  -- Threads that share ktlock do not get in each other's way. Where the invariant holds and the threads
  -- use registered records, any number of them, in kafka_table_send() and kafka_topic_get_stats(), can
  -- make their steps in any order, with rounds of the poll thread between them: each step returns, so
  -- that there is no undefined behaviour and no thread waits for another. The invariant holds then, the
  -- table is the same, no record was created, freed or renamed, and the records that the threads use are
  -- registered. Modulo 2^32, what is in the out queue for a record and what its counters have seen is
  -- together what it was before, and one more for each thread that in the meantime ended a
  -- kafka_table_send() to the record with success.
  pub share-Shares :
      (L : Laws) (turns : List (Option ℕ)) (readers : List Reader) (w : World)
      → Inv w
      → AllUse w.kt.topics readers
      → Returns (Shares w readers) (share turns readers w)
  unfolding share
  share-Shares L [] readers w i u = returns {a = readers} (Shares-refl L w i readers u)
  share-Shares L (t ∷ turns) readers w i u =
      Returns.bind (turn-Shares L w i t readers u) λ readers' v s.
        let same = ap (λ (kt : Tables). kt.topics) s.fed.kt in
        Returns.mono
          (share-Shares L turns readers' v s.fed.inv
            (subst (λ ts. AllUse ts readers') (sym same) s.uses))
          λ readers'' x z. record {
            more = λ a. s.more a + z.more a;
            fed = Fed-trans s.fed z.fed;
            counts = λ a. omega (arith, s.counts a, z.counts a);
            uses = subst (λ ts. AllUse ts readers'') same z.uses;
          }
