-- ===== src/Relay/Told.antt =====
-- src/ioproxy/Engine.cpp and Handler.cpp: what is known of each IO of an engine, through what happens at the IOs.
use mathlib.Core.Path.{subst}
use mathlib.Core.Option.{some-injective}
use ioproxy.Base.{
  ℕ, zero, suc, ◌≡◌, refl, sym, ap, ◌∙◌, inl, inr, false, none, some, List, get_elem?, ◌==◌, ==_iff,
  Bool-cases, Option-cases, if_true, if_false,
}
use ioproxy.Io.{DataPack, Io}
use ioproxy.Handler.{Handler, count_read, count_written, times}
use ioproxy.Handler.Status.{on_status, on_status-io}
use ioproxy.Engine.Positions.{get_elem?-at}
use ioproxy.Engine.Signals.{Link, at, emit}
use ioproxy.Engine.Rule.{IsKept, IsKeptOf, emit-Gives, emit-GivesOf}
use ioproxy.Relay.Events.{Log, Event, logged, occur}
use ioproxy.Relay.Flows.{map-some, some-at}

module _ {S : Type 0} where
  -- Something is known of the IO at each position.
  abbrev pub Known : (ℕ → S → Type 0) → List (Handler S) → Type 0
  Known Q hs = (d : ℕ) (h : Handler S) → get_elem? hs d ≡ some h → Q d h.io

  -- The IO at one position changes, and with it what is known of all.
  at-Known :
      (Q R : ℕ → S → Type 0) (i : ℕ) (f : Handler S → Handler S) (hs : List (Handler S))
      (h : Handler S)
      → get_elem? hs i ≡ some h
      → R i (f h).io
      → ((d : ℕ) (s : S) → (i == d) ≡ false → Q d s → R d s)
      → Known Q hs
      → Known R (at i f hs)
  at-Known Q R i f hs h at_i now others known d g e = elim (Bool-cases (i == d)) [
    | inl same ↦
        let (k, e1, e2) =
          map-some f (get_elem? hs d) g (sym (get_elem?-at i d f hs ∙ if_true _ _ same) ∙ e) in
        let there : i ≡ d = (==_iff i d).0 same in
        let k_is : h ≡ k = some-injective h k (sym at_i ∙ (ap (λ n. get_elem? hs n) there ∙ e1)) in
        subst (λ n. R n g.io) there (subst (λ x. R i x.io) (ap f k_is ∙ e2) now)
    | inr other ↦
        others d g.io other (known d g (sym (get_elem?-at i d f hs ∙ if_false _ _ other) ∙ e))
  ]

  -- A change that leaves the IOs.
  at-Known_same :
      (Q : ℕ → S → Type 0) (i : ℕ) (f : Handler S → Handler S) (hs : List (Handler S))
      → ((h : Handler S) → (f h).io ≡ h.io)
      → Known Q hs
      → Known Q (at i f hs)
  at-Known_same Q i f hs same known d g e = elim (Bool-cases (i == d)) [
    | inl here ↦
        let (k, e1, e2) =
          map-some f (get_elem? hs d) g (sym (get_elem?-at i d f hs ∙ if_true _ _ here) ∙ e) in
        subst (Q d) (sym (same k) ∙ ap (λ x. x.io) e2) (known d k e1)
    | inr other ↦ known d g (sym (get_elem?-at i d f hs ∙ if_false _ _ other) ∙ e)
  ]

  times-io :
      (n : ℕ) (f : Handler S → Handler S) (h : Handler S)
      → ((g : Handler S) → (f g).io ≡ g.io)
      → (times n f h).io ≡ h.io
  unfolding times
  times-io zero f h same = refl
  times-io (suc n) f h same = times-io n f (f h) same ∙ same h

  -- What is known of the IOs is kept by their writes.
  Known-IsKeptOf :
      (io : Io S) (Q : ℕ → S → Type 0)
      → ((d : ℕ) (p : DataPack) (s : S) → Q d s → Q d (io.write_data p s).0)
      → IsKeptOf io (Known Q)
  unfolding count_read count_written
  Known-IsKeptOf io Q writes = record {
    by_write = λ d p hs h e known.
        at-Known Q Q d (λ g. record g { io = (io.write_data p h.io).0 }) hs h e
          (writes d p h.io (known d h e)) (λ d' s other q. q) known;
    written_too = λ d p hs known. at-Known_same Q d (count_written p) hs (λ h. refl) known;
    read_too = λ d p hs known. at-Known_same Q d (count_read p) hs (λ h. refl) known;
    status_too = λ d n x hs known.
        at-Known_same Q d (times n (on_status x)) hs
          (λ h. times-io n (on_status x) h (on_status-io x)) known;
  }

  -- An event that is handled: its signals were emitted, and its data is in the log.
  occur_lem :
      (io : Io S) (fuel : ℕ) (links : List Link) (event : Event S) (hs hs' : List (Handler S))
      (log : Log) (h : Handler S)
      → get_elem? hs event.position ≡ some h
      → occur io fuel links event hs ≡ some (hs', log)
      → let (s, signals) = event.act h.io in
        (emit io fuel links event.position signals
            (at event.position (λ (g : Handler S). record g { io = s }) hs)
          ≡ some hs')
        × (logged event.position signals ≡ log)
  unfolding occur
  occur_lem io fuel links event hs hs' log h present done =
      let i = event.position in
      let signals = (event.act h.io).1 in
      let hs1 = at i (λ (g : Handler S). record g { io = (event.act h.io).0 }) hs in
      elim (Option-cases (emit io fuel links i signals hs1)) [
        | inl e ↦
            let none_left : occur io fuel links event hs ≡ none = rw (present, occur) (rw e refl) in
            let bad = sym none_left ∙ done in cc
        | inr (hs2, e) ↦
            let over : occur io fuel links event hs ≡ some (hs2, logged i signals) =
              rw (present, occur) (rw e refl) in
            let same = some-injective (hs2, logged i signals) (hs', log) (sym over ∙ done) in
            (e ∙ ap (λ r. some r.0) same, ap (λ r. r.1) same)
      ]

  -- One event, after which something else is known: of the IO where it happens, and of the others.
  pub occur-Known :
      (io : Io S) (fuel : ℕ) (links : List Link) (event : Event S) (Q R : ℕ → S → Type 0)
      (hs hs' : List (Handler S)) (log : Log) (h : Handler S)
      → ((d : ℕ) (p : DataPack) (s : S) → R d s → R d (io.write_data p s).0)
      → get_elem? hs event.position ≡ some h
      → R event.position (event.act h.io).0
      → ((d : ℕ) (s : S) → (event.position == d) ≡ false → Q d s → R d s)
      → Known Q hs
      → occur io fuel links event hs ≡ some (hs', log)
      → Known R hs'
  occur-Known io fuel links event Q R hs hs' log h writes present now others known done =
      let i = event.position in
      let f = λ (g : Handler S). record g { io = (event.act h.io).0 } in
      emit-GivesOf io (Known R) (Known-IsKeptOf io R writes) fuel links i (event.act h.io).1
        (at i f hs) hs' (at-Known Q R i f hs h present now others known)
        (occur_lem io fuel links event hs hs' log h present done).0

  pub occur-logged :
      (io : Io S) (fuel : ℕ) (links : List Link) (event : Event S) (hs hs' : List (Handler S))
      (log : Log) (h : Handler S)
      → get_elem? hs event.position ≡ some h
      → occur io fuel links event hs ≡ some (hs', log)
      → log ≡ logged event.position (event.act h.io).1
  occur-logged io fuel links event hs hs' log h present done =
      sym (occur_lem io fuel links event hs hs' log h present done).1

  -- There is a handler at a position.
  abbrev pub IsThere : ℕ → List (Handler S) → Type 0
  IsThere j hs = (h : Handler S) × (get_elem? hs j ≡ some h)

  IsThere-IsKept : (j : ℕ) → IsKept (IsThere j)
  IsThere-IsKept j = record {
    by_io = λ d s hs (h, e). some-at d j _ hs h e;
    by_written = λ d p hs (h, e). some-at d j _ hs h e;
    by_read = λ d p hs (h, e). some-at d j _ hs h e;
    by_status = λ d n x hs (h, e). some-at d j _ hs h e;
  }

  -- No event takes a handler away.
  pub occur-IsThere :
      (io : Io S) (fuel : ℕ) (links : List Link) (event : Event S) (j : ℕ)
      (hs hs' : List (Handler S)) (log : Log)
      → IsThere event.position hs
      → IsThere j hs
      → occur io fuel links event hs ≡ some (hs', log)
      → IsThere j hs'
  occur-IsThere io fuel links event j hs hs' log (h, present) (k, there) done =
      let f = λ (g : Handler S). record g { io = (event.act h.io).0 } in
      emit-Gives io (IsThere j) (IsThere-IsKept j) fuel links event.position (event.act h.io).1
        (at event.position f hs) hs' (some-at event.position j f hs k there)
        (occur_lem io fuel links event hs hs' log h present done).0
