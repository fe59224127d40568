-- ===== src/Safety/Readers.antt =====
-- The threads that share ktlock: the records that they use, and the messages that they have sent.
use trig_emit_kafka.Base.{
  ℕ, ◌+◌, ◌<◌, ◌≡◌, refl, true, ◌&&◌, none, some, List, [], ◌∷◌, arith, count, if◌then◌else◌, ◌==◌,
}
use trig_emit_kafka.Table.Sharing.{all_of, is_called, Reader}

-- The record that a thread uses is registered.
abbrev pub Uses : List ℕ → Reader → Type 0
Uses topics (Reader.send_called _ _) = Unit
Uses topics (Reader.feeding a _) = 0 < count a topics
Uses topics (Reader.send_ended _ _) = Unit
Uses topics (Reader.stats_called _) = Unit
Uses topics (Reader.flushed a) = 0 < count a topics
Uses topics (Reader.half_read a _) = 0 < count a topics
Uses topics (Reader.stats_ended _ _) = Unit

abbrev pub AllUse : List ℕ → List Reader → Type 0
AllUse topics [] = Unit
AllUse topics (r ∷ readers) = Uses topics r × AllUse topics readers

-- How many messages for the record at `x` the thread has sent.
abbrev pub sent_by : Reader → ℕ → ℕ
sent_by (Reader.send_called _ _) x = 0
sent_by (Reader.feeding _ _) x = 0
sent_by (Reader.send_ended none b) x = 0
sent_by (Reader.send_ended (some a) b) x = if b && (x == a) then 1 else 0
sent_by (Reader.stats_called _) x = 0
sent_by (Reader.flushed _) x = 0
sent_by (Reader.half_read _ _) x = 0
sent_by (Reader.stats_ended _ _) x = 0

abbrev pub sent_by_all : List Reader → ℕ → ℕ
sent_by_all [] x = 0
sent_by_all (r ∷ readers) x = sent_by r x + sent_by_all readers x

-- A thread that did nothing yet uses no record, and has sent nothing.
pub called-AllUse :
    (topics : List ℕ) (readers : List Reader)
    → all_of is_called readers ≡ true
    → AllUse topics readers
called-AllUse topics [] h = tt
called-AllUse topics (r ∷ readers) h =
    (called-Uses r (ground arith), called-AllUse topics readers (ground arith))
  where
    called-Uses : (r : Reader) → is_called r ≡ true → Uses topics r
    called-Uses (Reader.send_called _ _) e = tt
    called-Uses (Reader.feeding _ _) e = absurd (cc)
    called-Uses (Reader.send_ended _ _) e = absurd (cc)
    called-Uses (Reader.stats_called _) e = tt
    called-Uses (Reader.flushed _) e = absurd (cc)
    called-Uses (Reader.half_read _ _) e = absurd (cc)
    called-Uses (Reader.stats_ended _ _) e = absurd (cc)

pub called-sent :
    (readers : List Reader) (x : ℕ) → all_of is_called readers ≡ true → sent_by_all readers x ≡ 0
called-sent [] x h = refl
called-sent (r ∷ readers) x h =
    let here = called-sent_by r (ground arith) in
    let rest = called-sent readers x (ground arith) in omega arith
  where
    called-sent_by : (r : Reader) → is_called r ≡ true → sent_by r x ≡ 0
    called-sent_by (Reader.send_called _ _) e = refl
    called-sent_by (Reader.feeding _ _) e = refl
    called-sent_by (Reader.send_ended _ _) e = absurd (cc)
    called-sent_by (Reader.stats_called _) e = refl
    called-sent_by (Reader.flushed _) e = refl
    called-sent_by (Reader.half_read _ _) e = refl
    called-sent_by (Reader.stats_ended _ _) e = refl
