-- ===== src/Relay/Pair.antt =====
-- src/ioproxy/Engine.cpp and Handler.cpp: an engine that connects two IOs in both directions.
use mathlib.Core.Path.{subst}
use mathlib.Core.List.{append-nil}
use mathlib.Core.Option.{some-injective}
use ioproxy.Base.{
  ℕ, zero, suc, ◌+◌, ◌≡◌, ◌⊎◌, refl, ap, ◌∙◌, inl, inr, some, List, [], ◌∷◌, ◌++◌, map, length,
  length-append, All, get_elem?, arith, ◌==◌, if◌then◌else◌,
}
use ioproxy.Io.{Signal, Io}
use ioproxy.Handler.{Handler, State}
use ioproxy.Engine.Signals.{Link}
use ioproxy.Engine.Delivery.{links_to}
use ioproxy.Station.{Station, first, second, station_io}
use ioproxy.Relay.Flow.{IsSink}
use ioproxy.Relay.Events.{Log, Event, occur_all, passed_on, read_at, IsSource}
use ioproxy.Relay.Traffic.{IsRunning, IsRelayed, occur_all-IsRelayed}
use ioproxy.Relay.Stations.{
  at_first, at_second, EitherReady, either_taken, taken_of_first, taken_of_second,
  station_io-IsSink, at_first-IsSource, at_second-IsSource,
}

-- The connections of the first IO to the second, and back.
abbrev pub both_ways : List Link
both_ways = (0, 1) ∷ (1, 0) ∷ []

-- The bytes that the IO at a position emitted, in order.
unfoldable pub data_of : ℕ → Log → List ℕ
data_of i [] = []
data_of i ((j, p) ∷ log) = let rest = data_of i log in if j == i then p.bytes ++ rest else rest

passed_on-data_of :
    (log : Log)
    → (passed_on both_ways 1 log ≡ data_of 0 log) × (passed_on both_ways 0 log ≡ data_of 1 log)
unfolding passed_on data_of links_to
passed_on-data_of [] = (refl, refl)
passed_on-data_of ((zero, p) ∷ log) =
    let (a, b) = passed_on-data_of log in
    (ap (λ l. l ++ passed_on both_ways 1 log) (append-nil p.bytes) ∙ ap (λ l. p.bytes ++ l) a, b)
passed_on-data_of ((suc zero, p) ∷ log) =
    let (a, b) = passed_on-data_of log in
    (a, ap (λ l. l ++ passed_on both_ways 0 log) (append-nil p.bytes) ∙ ap (λ l. p.bytes ++ l) b)
passed_on-data_of ((suc (suc i), p) ∷ log) =
    let (a, b) = passed_on-data_of log in (ground (arith, a), ground (arith, b))

read_at-data_of : (i : ℕ) (log : Log) → read_at i log ≡ length (data_of i log)
unfolding read_at data_of
read_at-data_of i [] = refl
read_at-data_of i ((j, p) ∷ log) =
    ground (arith, read_at-data_of i log, length-append p.bytes (data_of i log))

-- What happens at the first IO, or at the second.
pub data Happening (A B : Type 0) : Type 0 where
  of_first : (A → A × List Signal) → Happening A B
  of_second : (B → B × List Signal) → Happening A B

abbrev pub event_of : {A B : Type 0} → Happening A B → Event (Station A B)
event_of (of_first act) = record { position = 0; act = at_first act }
event_of (of_second act) = record { position = 1; act = at_second act }

module _ {A B : Type 0} (P : A → Type 0) (Q : B → Type 0) (t : A → List ℕ) (u : B → List ℕ) where
  -- What happens takes no data, and leaves the IO ready.
  abbrev pub IsHarmless : Happening A B → Type 0
  IsHarmless (of_first act) = IsSource P t act
  IsHarmless (of_second act) = IsSource Q u act

  abbrev EitherOpen : Station A B → Type 0
  EitherOpen = EitherReady P Q

  abbrev either_sent : Station A B → List ℕ
  either_sent = either_taken t u

  -- What the engine did with the data of the log: the handlers `g` and `h`, which have the IOs `a` and `b`,
  -- became `g'` and `h'`.
  pub record IsPaired (a : A) (b : B) (log : Log) (g h g' h' : Handler (Station A B)) : Type 0 where
    -- The second IO took what the first emitted, or its handler failed.
    pub forth :
        ((b' : B) × (h'.io ≡ second b')
          × (u b' ≡ u b ++ data_of 0 log)
          × (h'.bytes_written ≡ h.bytes_written + length (data_of 0 log)))
        ⊎ (h'.state ≡ State.failed)
    -- The first IO took what the second emitted, or its handler failed.
    pub back :
        ((a' : A) × (g'.io ≡ first a')
          × (t a' ≡ t a ++ data_of 1 log)
          × (g'.bytes_written ≡ g.bytes_written + length (data_of 1 log)))
        ⊎ (g'.state ≡ State.failed)
    pub read_first : g'.bytes_read ≡ g.bytes_read + length (data_of 0 log)
    pub read_second : h'.bytes_read ≡ h.bytes_read + length (data_of 1 log)

  pub event_of-IsSource :
      (happenings : List (Happening A B))
      → All IsHarmless happenings
      → All
          (λ (e : Event (Station A B)). IsSource EitherOpen either_sent e.act)
          (map event_of happenings)
  event_of-IsSource [] harmless = tt
  event_of-IsSource (of_first act ∷ happenings) (source, harmless) =
      (at_first-IsSource source, event_of-IsSource happenings harmless)
  event_of-IsSource (of_second act ∷ happenings) (source, harmless) =
      (at_second-IsSource source, event_of-IsSource happenings harmless)

  both_run :
      (g h : Handler (Station A B))
      → IsRunning EitherOpen g
      → IsRunning EitherOpen h
      → (d : ℕ) (k : Handler (Station A B)) → get_elem? (g ∷ h ∷ []) d ≡ some k
      → IsRunning EitherOpen k
  both_run g h x y zero k e = subst (IsRunning EitherOpen) (some-injective g k e) x
  both_run g h x y (suc zero) k e = subst (IsRunning EitherOpen) (some-injective h k e) y
  both_run g h x y (suc (suc d)) k e = cc

  back_of :
      (a : A) (log : Log) (g g' : Handler (Station A B))
      → g.io ≡ first a
      → IsRelayed EitherOpen either_sent (passed_on both_ways 0 log) (read_at 0 log) g g'
      → ((a' : A) × (g'.io ≡ first a')
          × (t a' ≡ t a ++ data_of 1 log)
          × (g'.bytes_written ≡ g.bytes_written + length (data_of 1 log)))
        ⊎ (g'.state ≡ State.failed)
  back_of a log g g' is_first relayed =
      let e = (passed_on-data_of log).1 in
      elim relayed.writes [
        | inr failed ↦ inr failed
        | inl (runs, bytes, written) ↦
            let (a', f, sent) = taken_of_first t u g'.io (t a ++ data_of 1 log) (
              bytes
              ∙ (ap (λ x. either_sent x ++ passed_on both_ways 0 log) is_first
                  ∙ ap (λ l. 0 ∷ (t a ++ l)) e)) in
            inl (a', f, sent, written ∙ ap (λ l. g.bytes_written + length l) e)
      ]

  forth_of :
      (b : B) (log : Log) (h h' : Handler (Station A B))
      → h.io ≡ second b
      → IsRelayed EitherOpen either_sent (passed_on both_ways 1 log) (read_at 1 log) h h'
      → ((b' : B) × (h'.io ≡ second b')
          × (u b' ≡ u b ++ data_of 0 log)
          × (h'.bytes_written ≡ h.bytes_written + length (data_of 0 log)))
        ⊎ (h'.state ≡ State.failed)
  forth_of b log h h' is_second relayed =
      let e = (passed_on-data_of log).0 in
      elim relayed.writes [
        | inr failed ↦ inr failed
        | inl (runs, bytes, written) ↦
            let (b', f, sent) = taken_of_second t u h'.io (u b ++ data_of 0 log) (
              bytes
              ∙ (ap (λ x. either_sent x ++ passed_on both_ways 1 log) is_second
                  ∙ ap (λ l. 1 ∷ (u b ++ l)) e)) in
            inl (b', f, sent, written ∙ ap (λ l. h.bytes_written + length l) e)
      ]

  -- Any sequence of events, which take no data, is handled to its end with a call depth of two.
  pub pair-IsPaired :
      {f : Io A} {k : Io B} (fuel : ℕ) (happenings : List (Happening A B)) (a : A) (b : B)
      (g h : Handler (Station A B))
      → IsSink f P t
      → IsSink k Q u
      → All IsHarmless happenings
      → g.io ≡ first a
      → h.io ≡ second b
      → IsRunning EitherOpen g
      → IsRunning EitherOpen h
      → (hs : List (Handler (Station A B))) × (g' : Handler (Station A B)) × (h' : Handler
          (Station A B))
        × (log : Log) × (occur_all
              (station_io f k)
              (suc (suc fuel))
              both_ways
              (map event_of happenings)
              (g ∷ h ∷ [])
            ≡ some (hs, log))
        × (get_elem? hs 0 ≡ some g')
        × (get_elem? hs 1 ≡ some h')
        × IsPaired a b log g h g' h'
  pair-IsPaired fuel happenings a b g h one two harmless is_first is_second g_runs h_runs =
      let (hs, log, done, relays) =
        occur_all-IsRelayed EitherOpen either_sent both_ways fuel (map event_of happenings)
          (g ∷ h ∷ []) (station_io-IsSink one two) (event_of-IsSource happenings harmless)
          (both_run g h g_runs h_runs) in
      let (g', at_g, g_relayed) = relays 0 g refl in
      let (h', at_h, h_relayed) = relays 1 h refl in
      (
        hs,
        g',
        h',
        log,
        done,
        at_g,
        at_h,
        record {
          forth = forth_of b log h h' is_second h_relayed;
          back = back_of a log g g' is_first g_relayed;
          read_first = g_relayed.reads ∙ ap (λ n. g.bytes_read + n) (read_at-data_of 0 log);
          read_second = h_relayed.reads ∙ ap (λ n. h.bytes_read + n) (read_at-data_of 1 log);
        },
      )
