-- ===== src/Safety/Connecting.antt =====
-- kafka_table_connect(): from the allocation of the producer to its poll thread.
use trig_emit_kafka.Base.{
  ℕ, ◌≡◌, refl, ap, false, Option, none, some, List, arith, inl, inr, Bool-cases, count, is_some,
  ◌++◌, ◌∙◌, sym,
}
use trig_emit_kafka.Base.Bytes.{Str, zstr, codes, snprintf}
use trig_emit_kafka.Env.{Env, Laws}
use trig_emit_kafka.Machine.{Param, Producer, World, Tables, M, pure, ◌>>◌, put_kt}
use trig_emit_kafka.Machine.Returns
use trig_emit_kafka.Machine.Returns.{Returns, returns}
use trig_emit_kafka.Engine.Producer.{Status, success, error, producer_dispose, default_params}
use trig_emit_kafka.Table.Connection.{table_connect, build, apply_and_run}
use trig_emit_kafka.Contract.{succeeded}
use trig_emit_kafka.Safety.Invariant.{Inv}
use trig_emit_kafka.Safety.Disposing.{producer_dispose-Disposed}
use trig_emit_kafka.Safety.Configuring.{apply_params-Only, Taken-true}
use trig_emit_kafka.Safety.Setting.{
  Status-cases, Only, Only-trans, configured, configure, configure-append,
}
use trig_emit_kafka.Safety.Starting.{
  started_producer, MadeOf, RunPost, dispose_idle-Disposed, producer_run-RunPost,
}
use trig_emit_kafka.Safety.Creating.{
  enlarged, Created, Only-Tried, Disposed-GivenUp, producer_create-Created,
}
use trig_emit_kafka.Safety.Attaching.{BuiltFrom, Connects, GivenUp-Connects, attach}

module _ ⦃E : Env⦄ where
  RunPost-before :
      (u v x : World) (p : ℕ) (brokers : Str) (pr : Producer) (P Q : E.Rk → Type 0)
      → ((rk : E.Rk) → P rk → Q rk)
      → Only u v p pr
      → (s : Status) → RunPost v p brokers P s x
      → RunPost u p brokers Q s x
  RunPost-before u v x p brokers pr P Q imply o success (rk, empty, o', known) =
      (rk, empty, Only-trans o o', imply rk known)
  RunPost-before u v x p brokers pr P Q imply o (error _) (inl (conf, o')) =
      inl (conf, Only-trans o o')
  RunPost-before u v x p brokers pr P Q imply o (error _) (inr (rk, empty, o')) =
      inr (rk, empty, Only-trans o o')

  apply_and_run-RunPost :
      (L : Laws) (w : World) (p : ℕ) (params : List Param) (errbuflen : ℕ) (brokers : Str)
      (conf : E.Conf)
      → w.producers p ≡ some (configured brokers conf)
      → Returns (RunPost w p brokers (BuiltFrom conf params)) (apply_and_run p params errbuflen w)
  unfolding apply_and_run
  apply_and_run-RunPost L w p params errbuflen brokers conf at =
      Returns.bind (apply_params-Only params w p errbuflen brokers conf at) λ s v (conf', o, taken).
        elim (Status-cases s) [
          | inl good ↦
              let all = Taken-true (succeeded s) params conf conf' (ap succeeded good) taken in
              rw good (
                Returns.mono (producer_run-RunPost L v p brokers conf' (some errbuflen) o.at)
                  λ s' x r.
                    RunPost-before w v x p brokers _ (MadeOf conf') (BuiltFrom conf params)
                      (λ rk made. (conf', all, made)) o s' r)
          | inr (message, bad) ↦ rw bad (returns (inl (some conf', o)))
        ]

  -- What is left to do once the producer was started, or not.
  finish :
      (L : Laws) (w v : World) (brokers : Str) (n : ℕ) (pr0 : Producer) (kt : Tables) (s : Status)
      → Inv w
      → w.kt.producer ≡ none
      → kt ≡ w.kt
      → RunPost
          (enlarged w n pr0)
          w.next
          brokers
          (BuiltFrom E.conf_new (default_params brokers ++ w.kt.params))
          s
          v
      → Returns (Connects w brokers) (
          (elim s as (λ _. M Status) [
            | success ↦ put_kt (record kt { producer = some w.next }) >> pure success
            | error message ↦ producer_dispose (some w.next) >> pure (error message)
          ])
            v)
  finish L w v brokers n pr0 kt success i e same (rk, empty, o, known) =
      returns {a = success} (record {
        inv = rw same (attach w v brokers rk i e (Only-Tried w v n pr0 _ o) empty o.at);
        kt = rw same refl;
        built = (rk, o.at, known);
      })
  finish L w v brokers n pr0 kt (error m) i e same (inl (conf, o)) =
      Returns.bind (dispose_idle-Disposed v w.next (some brokers) conf o.at) λ _ u d.
        returns {a = error m}
          (GivenUp-Connects w u brokers m i e (Disposed-GivenUp w v u (Only-Tried w v n pr0 _ o) d))
  finish L w v brokers n pr0 kt (error m) i e same (inr (rk, empty, o)) =
      Returns.bind
        (producer_dispose-Disposed L v w.next (started_producer brokers rk false) rk
          (record { at = o.at; flying = λ a h. absurd (omega (arith, ap (count a) empty)) }))
        λ _ u (d, _).
          returns {a = error m} (
            GivenUp-Connects w u brokers m i e
              (Disposed-GivenUp w v u (Only-Tried w v n pr0 _ o) d))

  build-Connects :
      (L : Laws) (w u : World) (brokers : Str) (conf : E.Conf) (n errbuflen : ℕ) (pr0 : Producer)
      → Inv w
      → w.kt.producer ≡ none
      → Only (enlarged w n pr0) u w.next (configured brokers conf)
      → configure E.conf_new (default_params brokers) ≡ inr conf
      → Returns (Connects w brokers) (build w.next errbuflen u)
  unfolding build
  build-Connects L w u brokers conf n errbuflen pr0 i e o defaults =
      Returns.bind (apply_and_run-RunPost L u w.next u.kt.params errbuflen brokers conf o.at)
        λ s v r. finish L w v brokers n pr0 u.kt s i e o.kt (
          RunPost-before (enlarged w n pr0) u v w.next brokers _ (BuiltFrom conf u.kt.params)
            (BuiltFrom E.conf_new (default_params brokers ++ w.kt.params))
            (λ rk (conf', taken, made). (conf', whole conf' taken, made)) o s r)
    where
      whole :
          (conf' : E.Conf)
          → configure conf u.kt.params ≡ inr conf'
          → configure E.conf_new (default_params brokers ++ w.kt.params) ≡ inr conf'
      whole conf' taken =
          configure-append (default_params brokers) w.kt.params E.conf_new conf defaults
          ∙ ap (λ (kt : Tables). configure conf kt.params) (sym o.kt)
          ∙ taken

  -- What is left to do once the producer was created, or not.
  created :
      (L : Laws) (w u : World) (brokers : Str) (errbuflen : ℕ) (o : Option ℕ)
      → Inv w
      → w.kt.producer ≡ none
      → Created w brokers o u
      → Returns (Connects w brokers) (
          (elim o as (λ _. M Status) [
            | none ↦ pure (
                error
                  (some (snprintf errbuflen (codes "Cannot create the producer configuration"))))
            | some p ↦ build p errbuflen
          ])
            u)
  created L w u brokers errbuflen none i e g =
      let message = some (snprintf errbuflen (codes "Cannot create the producer configuration")) in
      returns {a = error message} (GivenUp-Connects w u brokers message i e g)
  created L w u brokers errbuflen (some p) i e (same, (n, pr0, conf, o, defaults)) =
      rw same (build-Connects L w u brokers conf n errbuflen pr0 i e o defaults)

  -- Where the invariant holds and there is no connection, kafka_table_connect() always returns. When it
  -- reports success, the invariant holds and the table has changed in that it has the new producer, whose
  -- poll thread runs; librdkafka made its handle of a new configuration in which the defaults were set
  -- first, so that the parameters of the table, which were set after them and in their order, override
  -- them. When it reports an error, the invariant holds, the table is as before, and no producer is left
  -- over: every producer is as before, save that the next free address may have been emptied.
  pub table_connect-Connects :
      (L : Laws) (w : World) (brokers : Str) (errbuflen : ℕ)
      → Inv w
      → w.kt.producer ≡ none
      → Returns (Connects w brokers) (table_connect brokers errbuflen w)
  unfolding table_connect
  table_connect-Connects L w brokers errbuflen i e = elim (Bool-cases (zstr (some brokers))) [
    | inl empty ↦ rw empty (returns (i, refl, (λ q ne. refl), inr refl))
    | inr filled ↦ rw filled (elim (Bool-cases (is_some w.kt.producer)) [
      | inl busy ↦ absurd (ground arith)
      | inr idle ↦ rw idle (
          Returns.bind (producer_create-Created w brokers)
            λ o u c. created L w u brokers errbuflen o i e c)
    ])
  ]
