-- ===== src/Relay/Traffic.antt =====
-- src/ioproxy/Engine.cpp and Handler.cpp: what an engine does with what happens at its IOs.
use mathlib.Core.Path.{subst}
use ioproxy.Base.{
  ap, ◌∙◌, ◌+◌, ◌⊎◌, length, Option, none, ℕ, suc, All, ◌≡◌, refl, sym, inl, inr, some, List, [],
  ◌∷◌, ◌++◌, get_elem?, Option-cases,
}
use ioproxy.Io.{Signal, Io}
use ioproxy.Handler.{State, Handler}
use ioproxy.Engine.Positions.{at-same}
use ioproxy.Engine.Signals.{Link, at, receive_all, emit}
use ioproxy.Relay.Flow.{more, IsSink, Tally, Flow}
use ioproxy.Relay.Events.{
  passed_on, read_at, tally_lem, Log, Event, logged, occur, occur_all, tally, tally-append, IsMild,
  IsSource,
}
use ioproxy.Relay.Flows.{
  some-at, Keeps, Keeps-trans, Flows, at-Flows-same, act-Flow, receive-Flows, error-Flows,
}

module _ {S : Type 0} (Ready : S → Type 0) (taken : S → List ℕ) where
  module _ {io : Io S} (sink : IsSink io Ready taken) (links : List Link) where
    receive_all-Flows :
        (fuel i : ℕ) (signals : List Signal) (ts : ℕ → Tally) (hs : List (Handler S))
        (h : Handler S)
        → IsMild signals
        → get_elem? hs i ≡ some h
        → Flows Ready taken ts hs
        → (hs' : List (Handler S)) × (receive_all io (emit io (suc fuel) links) links i signals hs
            ≡ some hs')
          × Keeps hs hs'
          × Flows Ready taken (λ d. tally links d (logged i signals) (ts d)) hs'
    unfolding receive_all
    receive_all-Flows fuel i [] ts hs h mild e flows = (hs, refl, λ d k at_d. (k, at_d), flows)
    receive_all-Flows fuel i (Signal.new_data p ∷ signals) ts hs h mild e flows =
        let (hs1, e1, k1, f1) = receive-Flows Ready taken sink links fuel i p ts hs h e flows in
        let (h1, at1) = k1 i h e in
        let (hs2, e2, k2, f2) = receive_all-Flows fuel i signals _ hs1 h1 mild at1 f1 in
        (hs2, rw (e1, receive_all) e2, Keeps-trans hs hs1 hs2 k1 k2, f2)
    receive_all-Flows fuel i (Signal.error_occured m ∷ signals) ts hs h mild e flows =
        let (hs1, e1, k1, f1) =
          error-Flows Ready taken sink links (emit io (suc fuel) links) i m ts hs h e flows in
        let (h1, at1) = k1 i h e in
        let (hs2, e2, k2, f2) = receive_all-Flows fuel i signals ts hs1 h1 mild at1 f1 in
        (hs2, rw (e1, receive_all) e2, Keeps-trans hs hs1 hs2 k1 k2, f2)
    receive_all-Flows fuel i (Signal.started ∷ signals) ts hs h mild e flows = elim mild [ ]
    receive_all-Flows fuel i (Signal.startup_error_occured m ∷ signals) ts hs h mild e flows =
        elim mild [ ]

    -- One event.
    occur-Flows :
        (fuel : ℕ) (event : Event S) (ts : ℕ → Tally) (hs : List (Handler S))
        → IsSource Ready taken event.act
        → Flows Ready taken ts hs
        → (hs' : List (Handler S)) × (log : Log) × (occur io (suc (suc fuel)) links event hs
            ≡ some (hs', log))
          × Keeps hs hs'
          × Flows Ready taken (λ d. tally links d log (ts d)) hs'
    unfolding occur emit
    occur-Flows fuel event ts hs source flows = elim (Option-cases (get_elem? hs event.position)) [
      | inl e ↦ (hs, [], rw (e, occur) refl, λ d k at_d. (k, at_d), flows)
      | inr (h, e) ↦
          let i = event.position in
          let (s, signals) = event.act h.io in
          let acts = λ (g : Handler S). record g { io = (event.act g.io).0 } in
          let same = at-same i (λ g. record g { io = s }) acts hs h e refl in
          let (g, present) = some-at i i (λ g. record g { io = s }) hs h e in
          let (hs', done, kept, flows') =
            receive_all-Flows fuel i signals ts (at i (λ g. record g { io = s }) hs) g
              (source.mild h.io) present
              (subst (Flows Ready taken ts) (sym same) (
                at-Flows-same Ready taken i acts ts hs
                  (λ t k. act-Flow Ready taken event.act t k source) flows)) in
          (
            hs',
            logged i signals,
            rw (e, occur) (rw (done) refl),
            Keeps-trans hs _ hs' (λ d. some-at i d (λ g. record g { io = s }) hs) kept,
            flows',
          )
    ]

    -- An engine whose IOs take the data they are given.
    pub occur_all-Flows :
        (fuel : ℕ) (events : List (Event S)) (ts : ℕ → Tally) (hs : List (Handler S))
        → All (λ (e : Event S). IsSource Ready taken e.act) events
        → Flows Ready taken ts hs
        → (hs' : List (Handler S)) × (log : Log) × (occur_all io (suc (suc fuel)) links events hs
            ≡ some (hs', log))
          × Keeps hs hs'
          × Flows Ready taken (λ d. tally links d log (ts d)) hs'
    unfolding occur_all
    occur_all-Flows fuel [] ts hs sources flows = (hs, [], refl, λ d k at_d. (k, at_d), flows)
    occur_all-Flows fuel (event ∷ events) ts hs (source, sources) flows =
        let (hs1, log1, e1, k1, f1) = occur-Flows fuel event ts hs source flows in
        let (hs2, log2, e2, k2, f2) = occur_all-Flows fuel events _ hs1 sources f1 in
        (
          hs2,
          log1 ++ log2,
          rw (e1, occur_all) (rw e2 refl),
          Keeps-trans hs hs1 hs2 k1 k2,
          λ d h' at_d.
              subst (λ t. Flow Ready taken t h') (tally-append links d log1 log2 (ts d))
                (f2 d h' at_d),
        )

module _ {S : Type 0} (Ready : S → Type 0) where
  -- A handler as the start of the engine leaves it, of an IO that takes data.
  pub record IsRunning (h : Handler S) : Type 0 where
    pub runs : h.state ≡ State.started
    pub hears : (k : ℕ) × (h.status_slots ≡ suc k)
    pub passes : h.data_slots ≡ 1
    pub ready : Ready h.io

module _ {S : Type 0} (Ready : S → Type 0) (taken : S → List ℕ) where
  -- Between two states of a handler its IO emitted `n` bytes, and took the bytes `l`, all of which it counted;
  -- or it failed.
  pub record IsRelayed (l : List ℕ) (n : ℕ) (h h' : Handler S) : Type 0 where
    pub reads : h'.bytes_read ≡ h.bytes_read + n
    pub writes :
        ((h'.state ≡ State.started)
          × (taken h'.io ≡ taken h.io ++ l)
          × (h'.bytes_written ≡ h.bytes_written + length l))
        ⊎ (h'.state ≡ State.failed)

  abbrev tally_of : Option (Handler S) → Tally
  tally_of none = record { bytes = []; written = 0; read = 0 }
  tally_of (some h) = record { bytes = taken h.io; written = h.bytes_written; read = h.bytes_read }

  IsRunning-Flow : (h : Handler S) → IsRunning Ready h → Flow Ready taken (tally_of (some h)) h
  IsRunning-Flow h r = (
    record { hears = r.hears; passes = r.passes; reads = refl },
    inl (r.runs, r.ready, refl, refl),
  )

  Flow-IsRelayed :
      (l : List ℕ) (n : ℕ) (h h' : Handler S)
      → Flow Ready taken (more l (record (tally_of (some h)) { read = h.bytes_read + n })) h'
      → IsRelayed l n h h'
  Flow-IsRelayed l n h h' (w, takes) = record {
    reads = w.reads;
    writes = elim takes [
      | inl (runs, ready, bytes, written) ↦ inl (runs, bytes, written)
      | inr failed ↦ inr failed
    ];
  }

  -- The handlers of an engine are started, and their IOs take data: a write of an IO that is ready takes all the
  -- bytes, or emits errors. Then any sequence of events at the IOs, which are reads and errors, is handled to
  -- its end with a call depth of two. Afterwards each handler that was there counted the bytes that its IO
  -- emitted, and its IO took, after what it had taken, the bytes of all data of the IOs that are connected to
  -- it, in the order in which they emitted it and once for each connection, all of them counted; or the handler
  -- has failed.
  pub occur_all-IsRelayed :
      {io : Io S} (links : List Link) (fuel : ℕ) (events : List (Event S)) (hs : List (Handler S))
      → IsSink io Ready taken
      → All (λ (e : Event S). IsSource Ready taken e.act) events
      → ((d : ℕ) (h : Handler S) → get_elem? hs d ≡ some h → IsRunning Ready h)
      → (hs' : List (Handler S)) × (log : Log) × (occur_all io (suc (suc fuel)) links events hs
          ≡ some (hs', log))
        × ((d : ℕ) (h : Handler S)
            → get_elem? hs d ≡ some h
            → (h' : Handler S) × (get_elem? hs' d ≡ some h')
              × IsRelayed (passed_on links d log) (read_at d log) h h')
  occur_all-IsRelayed {io} links fuel events hs sink sources running =
      let ts = λ (d : ℕ). tally_of (get_elem? hs d) in
      let (hs', log, done, kept, flows) =
        occur_all-Flows Ready taken sink links fuel events ts hs sources (λ d h e.
          subst (λ o. Flow Ready taken (tally_of o) h) (sym e)
            (IsRunning-Flow h (running d h e))) in
      (
        hs',
        log,
        done,
        λ d h e.
            let (h', e') = kept d h e in
            (
              h',
              e',
              Flow-IsRelayed (passed_on links d log) (read_at d log) h h' (
                  subst (λ t. Flow Ready taken t h')
                    (ap (λ o. tally links d log (tally_of o)) e
                      ∙ tally_lem links d log (tally_of (some h)))
                    (flows d h' e')),
            ),
      )
