-- ===== src/Relay/Words.antt =====
-- src/ioproxy/Engine.cpp and Handler.cpp: two IOs that are connected in both directions emit what they read.
use mathlib.Core.Path.{subst}
use mathlib.Core.List.{append_assoc, append-nil}
use mathlib.Core.Option.{some-injective}
use ioproxy.Base.{
  ℕ, zero, suc, ◌≡◌, refl, sym, ap, ◌∙◌, inl, inr, false, some, none, List, [], ◌∷◌, ◌++◌, map, All,
  get_elem?, ◌==◌, Option-cases,
}
use ioproxy.Io.{DataPack, Io}
use ioproxy.Handler.{Handler}
use ioproxy.Engine.Signals.{Link}
use ioproxy.Station.{Station, first, second, station_io}
use ioproxy.Relay.Stations.{at_first, at_second}
use ioproxy.Relay.Events.{Log, Event, logged, occur, occur_all}
use ioproxy.Relay.Heard.{bytes_of}
use ioproxy.Relay.Said.{joined}
use ioproxy.Relay.Told.{Known, IsThere, occur-Known, occur-logged, occur-IsThere}
use ioproxy.Relay.Logs.{data_of-append, data_of-logged, data_of-elsewhere}
use ioproxy.Relay.Pair.{Happening, of_first, of_second, event_of, data_of}

module _ {A B : Type 0} (heard : A → List ℕ) where
  -- What happens at the first IO: what it newly heard it emits. What happens at the second: it emits the bytes.
  abbrev pub IsFrank : Happening A B → List ℕ → Type 0
  IsFrank (of_first act) l = (l ≡ []) × ((a : A) → heard (act a).0 ≡ heard a ++ bytes_of (act a).1)
  IsFrank (of_second act) l = (b : B) → bytes_of (act b).1 ≡ l

  -- The first IO heard what it emitted, after what it had heard; the second emitted the bytes.
  abbrev Tells : List ℕ → List ℕ → Log → ℕ → Station A B → Type 0
  Tells before said log zero s = (a : A) × (s ≡ first a) × (heard a ≡ before ++ data_of 0 log)
  Tells before said log (suc zero) s = (b : B) × (s ≡ second b) × (data_of 1 log ≡ said)
  Tells before said log (suc (suc d)) s = Unit

  module _ (f : Io A) (k : Io B)
      (deaf : (p : DataPack) (a : A) → heard (f.write_data p a).0 ≡ heard a) where
    write_data-Tells :
        (before said : List ℕ) (log : Log) (d : ℕ) (p : DataPack) (s : Station A B)
        → Tells before said log d s
        → Tells before said log d ((station_io f k).write_data p s).0
    write_data-Tells before said log zero p s (a, e, h) =
        ((f.write_data p a).0, ap (λ x. ((station_io f k).write_data p x).0) e, deaf p a ∙ h)
    write_data-Tells before said log (suc zero) p s (b, e, h) =
        ((k.write_data p b).0, ap (λ x. ((station_io f k).write_data p x).0) e, h)
    write_data-Tells before said log (suc (suc d)) p s h = tt

    -- One event.
    occur-Tells :
        (fuel : ℕ) (links : List Link) (happening : Happening A B) (l before said : List ℕ)
        (old log : Log) (hs hs' : List (Handler (Station A B)))
        → IsFrank happening l
        → IsThere 0 hs
        → IsThere 1 hs
        → Known (Tells before said old) hs
        → occur (station_io f k) fuel links (event_of happening) hs ≡ some (hs', log)
        → Known (Tells before (said ++ l) (old ++ log)) hs'
    occur-Tells fuel links (of_first act) l before said old log hs hs' (silent, frank) (g, at_g)
          there known done =
        let event : Event (Station A B) = event_of (of_first act) in
        let (a, is_first, h) = known 0 g at_g in
        let signals = (act a).1 in
        let acted = ap (at_first act) is_first in
        let log_is : log ≡ logged 0 signals =
          occur-logged (station_io f k) fuel links event hs hs' log g at_g done
          ∙ ap (λ r. logged 0 r.1) acted in
        let new : data_of 0 (old ++ log) ≡ data_of 0 old ++ bytes_of signals =
          data_of-append 0 old log
          ∙ ap (λ m. data_of 0 old ++ m) (ap (data_of 0) log_is ∙ data_of-logged 0 signals) in
        let unchanged : data_of 1 (old ++ log) ≡ data_of 1 old =
          data_of-append 1 old log
          ∙ (ap (λ m. data_of 1 old ++ m)
                (ap (data_of 1) log_is ∙ data_of-elsewhere 0 1 signals refl)
              ∙ append-nil (data_of 1 old)) in
        occur-Known (station_io f k) fuel links event (Tells before said old)
          (Tells before (said ++ l) (old ++ log)) hs hs' log g
          (write_data-Tells before (said ++ l) (old ++ log)) at_g
          (
            (act a).0,
            ap (λ r. r.0) acted,
            frank a
                ∙ (ap (λ m. m ++ bytes_of signals) h
                    ∙ (append_assoc before (data_of 0 old) (bytes_of signals)
                        ∙ ap (λ m. before ++ m) (sym new))),
          )
          (elsewhere unchanged) known done
      where
        elsewhere :
            data_of 1 (old ++ log) ≡ data_of 1 old
            → (d : ℕ) (s : Station A B) → (0 == d) ≡ false
            → Tells before said old d s
            → Tells before (said ++ l) (old ++ log) d s
        elsewhere unchanged zero s other (b, e, h) = absurd (let bad = other in cc)
        elsewhere unchanged (suc zero) s other (b, e, h) =
            (b, e, unchanged ∙ (h ∙ (sym (append-nil said) ∙ ap (λ m. said ++ m) (sym silent))))
        elsewhere unchanged (suc (suc d)) s other h = tt
    occur-Tells fuel links (of_second act) l before said old log hs hs' frank there (g, at_g) known
          done =
        let event : Event (Station A B) = event_of (of_second act) in
        let (b, is_second, h) = known 1 g at_g in
        let signals = (act b).1 in
        let acted = ap (at_second act) is_second in
        let log_is : log ≡ logged 1 signals =
          occur-logged (station_io f k) fuel links event hs hs' log g at_g done
          ∙ ap (λ r. logged 1 r.1) acted in
        let new : data_of 1 (old ++ log) ≡ said ++ l =
          data_of-append 1 old log
          ∙ (ap (λ m. data_of 1 old ++ m)
                (ap (data_of 1) log_is ∙ (data_of-logged 1 signals ∙ frank b))
              ∙ ap (λ m. m ++ l) h) in
        let unchanged : data_of 0 (old ++ log) ≡ data_of 0 old =
          data_of-append 0 old log
          ∙ (ap (λ m. data_of 0 old ++ m)
                (ap (data_of 0) log_is ∙ data_of-elsewhere 1 0 signals refl)
              ∙ append-nil (data_of 0 old)) in
        occur-Known (station_io f k) fuel links event (Tells before said old)
          (Tells before (said ++ l) (old ++ log)) hs hs' log g
          (write_data-Tells before (said ++ l) (old ++ log)) at_g
          ((act b).0, ap (λ r. r.0) acted, new) (elsewhere unchanged) known done
      where
        elsewhere :
            data_of 0 (old ++ log) ≡ data_of 0 old
            → (d : ℕ) (s : Station A B) → (1 == d) ≡ false
            → Tells before said old d s
            → Tells before (said ++ l) (old ++ log) d s
        elsewhere unchanged zero s other (a, e, h) =
            (a, e, h ∙ ap (λ m. before ++ m) (sym unchanged))
        elsewhere unchanged (suc zero) s other (a, e, h) = absurd (let bad = other in cc)
        elsewhere unchanged (suc (suc d)) s other h = tt

    -- Any sequence of events.
    occur_all-Tells :
        {X : Type 0} (slot : X → Happening A B) (says : X → List ℕ) (fuel : ℕ) (links : List Link)
        (xs : List X) (before said : List ℕ) (old log : Log) (hs hs' : List (Handler (Station A B)))
        → All (λ x. IsFrank (slot x) (says x)) xs
        → IsThere 0 hs
        → IsThere 1 hs
        → Known (Tells before said old) hs
        → occur_all (station_io f k) fuel links (map event_of (map slot xs)) hs ≡ some (hs', log)
        → Known (Tells before (said ++ joined (map says xs)) (old ++ log)) hs'
    unfolding occur_all
    occur_all-Tells slot says fuel links [] before said old log hs hs' frank one two known done =
        let same = some-injective (hs, []) (hs', log) done in
        subst (λ r. Known (Tells before (said ++ []) (old ++ r.1)) r.0) same
          (subst (λ m. Known (Tells before m (old ++ [])) hs) (sym (append-nil said))
            (subst (λ m. Known (Tells before said m) hs) (sym (append-nil old)) known))
    occur_all-Tells slot says fuel links (x ∷ xs) before said old log hs hs' (frank, rest) one two
          known done =
        let io = station_io f k in
        let event : Event (Station A B) = event_of (slot x) in
        let events = map event_of (map slot xs) in
        elim (Option-cases (occur io fuel links event hs)) [
          | inl e ↦
              let none_left : occur_all io fuel links (event ∷ events) hs ≡ none =
                rw (e, occur_all) refl in
              let bad = sym none_left ∙ done in cc
          | inr ((hs1, log1), e) ↦ elim (Option-cases (occur_all io fuel links events hs1)) [
            | inl e' ↦
                let none_left : occur_all io fuel links (event ∷ events) hs ≡ none =
                  rw (e, occur_all) (rw e' refl) in
                let bad = sym none_left ∙ done in cc
            | inr ((hs2, log2), e') ↦
                let over : occur_all io fuel links (event ∷ events) hs ≡ some (hs2, log1 ++ log2) =
                  rw (e, occur_all) (rw e' refl) in
                let same = some-injective (hs2, log1 ++ log2) (hs', log) (sym over ∙ done) in
                let there = where_it_is (slot x) hs one two in
                let known1 =
                  occur-Tells fuel links (slot x) (says x) before said old log1 hs hs1 frank one two
                    known e in
                let known2 =
                  occur_all-Tells slot says fuel links xs before (said ++ says x) (old ++ log1) log2
                    hs1 hs2 rest (occur-IsThere io fuel links event 0 hs hs1 log1 there one e)
                    (occur-IsThere io fuel links event 1 hs hs1 log1 there two e) known1 e' in
                subst
                  (λ r. Known (Tells before (said ++ joined (map says (x ∷ xs))) (old ++ r.1)) r.0)
                  same
                  (subst (λ m. Known (Tells before m (old ++ (log1 ++ log2))) hs2)
                    (append_assoc said (says x) (joined (map says xs)))
                    (subst
                      (λ m. Known (Tells before ((said ++ says x) ++ joined (map says xs)) m) hs2)
                      (append_assoc old log1 log2) known2))
          ]
        ]
      where
        where_it_is :
            (happening : Happening A B) (gs : List (Handler (Station A B)))
            → IsThere 0 gs
            → IsThere 1 gs
            → IsThere (event_of happening).position gs
        where_it_is (of_first act) gs a b = a
        where_it_is (of_second act) gs a b = b

    -- Two handlers, of the first IO and of the second: after any events, the first IO has heard, after what it had
    -- heard, what it emitted, and the second emitted what is to be said of the events.
    pub pair-Tells :
        {X : Type 0} (slot : X → Happening A B) (says : X → List ℕ) (fuel : ℕ) (links : List Link)
        (xs : List X) (a : A) (b : B) (g h g' h' : Handler (Station A B)) (log : Log)
        (hs' : List (Handler (Station A B)))
        → All (λ x. IsFrank (slot x) (says x)) xs
        → g.io ≡ first a
        → h.io ≡ second b
        → occur_all (station_io f k) fuel links (map event_of (map slot xs)) (g ∷ h ∷ [])
          ≡ some (hs', log)
        → get_elem? hs' 0 ≡ some g'
        → get_elem? hs' 1 ≡ some h'
        → ((a' : A) × (g'.io ≡ first a') × (heard a' ≡ heard a ++ data_of 0 log))
          × (data_of 1 log ≡ joined (map says xs))
    unfolding data_of
    pair-Tells slot says fuel links xs a b g h g' h' log hs' frank is_first is_second done at_g
          at_h =
        let known =
          occur_all-Tells slot says fuel links xs (heard a) [] [] log (g ∷ h ∷ []) hs' frank
            (g, refl) (h, refl) at_start done in
        let (b', e, said) = known 1 h' at_h in (known 0 g' at_g, said)
      where
        at_start : Known (Tells (heard a) [] []) (g ∷ h ∷ [])
        at_start zero x e =
            (a, ap (λ y. y.io) (sym (some-injective g x e)) ∙ is_first, sym (append-nil (heard a)))
        at_start (suc zero) x e = (b, ap (λ y. y.io) (sym (some-injective h x e)) ∙ is_second, refl)
        at_start (suc (suc d)) x e = tt
