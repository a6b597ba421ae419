-- ===== src/Engine/Rule.antt =====
-- src/ioproxy/Handler.cpp: what the slots keep, the emission of a signal keeps.
use ioproxy.Base.{
  ℕ, zero, suc, ◌≡◌, refl, inl, inr, Bool, true, false, Option, none, some, List, [], ◌∷◌,
  get_elem?, arith, ◌==◌, if◌then◌else◌, Bool-cases, Option-cases,
}
use ioproxy.Io.{DataPack, Signal, Io}
use ioproxy.Handler.{Handler, State, state_eq, count_read, count_written, times}
use ioproxy.Handler.Status.{on_status}
use ioproxy.Engine.Signals.{
  Link, Emit, at, write_data, forward, on_new_data, receive, receive_all, emit,
}

-- `P` is kept by each change that a signal makes to one handler.
pub record IsKept {S : Type 0} (P : List (Handler S) → Type 0) : Type 0 where
  pub by_io :
      (d : ℕ) (s : S) (hs : List (Handler S)) → P hs → P (at d (λ g. record g { io = s }) hs)
  pub by_written :
      (d : ℕ) (p : DataPack) (hs : List (Handler S)) → P hs → P (at d (count_written p) hs)
  pub by_read : (d : ℕ) (p : DataPack) (hs : List (Handler S)) → P hs → P (at d (count_read p) hs)
  pub by_status :
      (d n : ℕ) (x : Signal) (hs : List (Handler S)) → P hs → P (at d (times n (on_status x)) hs)

-- `P` is kept by each change to one handler, where an IO changes only by a write.
pub record IsKeptOf {S : Type 0} (io : Io S) (P : List (Handler S) → Type 0) : Type 0 where
  pub by_write :
      (d : ℕ) (p : DataPack) (hs : List (Handler S)) (h : Handler S)
      → get_elem? hs d ≡ some h
      → P hs
      → P (at d (λ g. record g { io = (io.write_data p h.io).0 }) hs)
  pub written_too :
      (d : ℕ) (p : DataPack) (hs : List (Handler S)) → P hs → P (at d (count_written p) hs)
  pub read_too : (d : ℕ) (p : DataPack) (hs : List (Handler S)) → P hs → P (at d (count_read p) hs)
  pub status_too :
      (d n : ℕ) (x : Signal) (hs : List (Handler S)) → P hs → P (at d (times n (on_status x)) hs)

module _ {S : Type 0} (P : List (Handler S) → Type 0) where
  -- The result, if there is one, has `P`.
  abbrev pub Gives : Option (List (Handler S)) → Type 0
  Gives o = (hs : List (Handler S)) → o ≡ some hs → P hs

  pub gives : (hs : List (Handler S)) → P hs → Gives (some hs)
  gives hs h gs e = let q : hs ≡ gs = ground arith in rw q at h

  pub chain :
      (o : Option (List (Handler S))) (f : List (Handler S) → Option (List (Handler S)))
      → Gives o
      → ((hs : List (Handler S)) → P hs → Gives (f hs))
      → Gives (elim o [ none ↦ none | some hs ↦ f hs ])
  chain none f q r gs e = cc
  chain (some hs) f q r gs e = r hs (q hs refl) gs e

module _ {S : Type 0} (io : Io S) (P : List (Handler S) → Type 0) (k : IsKeptOf io P) where
  module _ (deeper : Emit S)
      (keep : (d : ℕ) (xs : List Signal) (hs : List (Handler S))
        → P hs
        → Gives P (deeper d xs hs)) where
    write_data-Gives :
        (d : ℕ) (p : DataPack) (hs : List (Handler S))
        → P hs
        → Gives P (write_data io deeper d p hs)
    unfolding write_data
    write_data-Gives d p hs h = elim (Option-cases (get_elem? hs d)) [
      | inl e ↦ rw (e, write_data) (gives P hs h)
      | inr (g, e) ↦ elim (Bool-cases (state_eq g.state State.started)) [
        | inr idle ↦ rw (e, write_data) (rw idle (gives P hs h))
        | inl runs ↦
            rw (e, write_data)
              (rw runs (counted (deeper d _ _) (keep d _ _ (k.by_write d p hs g e h))))
      ]
    ]
      where
        counted :
            (o : Option (List (Handler S)))
            → Gives P o
            → Gives P (elim o [ none ↦ none | some gs ↦ some (at d (count_written p) gs) ])
        counted none q gs e = cc
        counted (some fs) q gs e = gives P _ (k.written_too d p fs (q fs refl)) gs e

    forward-Gives :
        (links : List Link) (i : ℕ) (p : DataPack) (hs : List (Handler S))
        → P hs
        → Gives P (forward io deeper links i p hs)
    unfolding forward
    forward-Gives [] i p hs h = gives P hs h
    forward-Gives ((s, d) ∷ links) i p hs h =
        chain P (if s == i then write_data io deeper d p hs else some hs)
          (forward io deeper links i p) (choose (s == i)) (λ gs g. forward-Gives links i p gs g)
      where
        choose : (b : Bool) → Gives P (if b then write_data io deeper d p hs else some hs)
        choose true = write_data-Gives d p hs h
        choose false = gives P hs h

    on_new_data-Gives :
        (links : List Link) (n i : ℕ) (p : DataPack) (hs : List (Handler S))
        → P hs
        → Gives P (on_new_data io deeper links n i p hs)
    unfolding on_new_data
    on_new_data-Gives links zero i p hs h = gives P hs h
    on_new_data-Gives links (suc n) i p hs h =
        chain P (forward io deeper links i p (at i (count_read p) hs))
          (on_new_data io deeper links n i p) (forward-Gives links i p _ (k.read_too i p hs h))
          (λ gs g. on_new_data-Gives links n i p gs g)

    receive-Gives :
        (links : List Link) (i : ℕ) (x : Signal) (hs : List (Handler S))
        → P hs
        → Gives P (receive io deeper links i x hs)
    unfolding receive
    receive-Gives links i x hs h = elim (Option-cases (get_elem? hs i)) [
      | inl e ↦ rw (e, receive) (gives P hs h)
      | inr (g, e) ↦ rw (e, receive) (go x g)
    ]
      where
        go :
            (y : Signal) (g : Handler S)
            → Gives P (elim y [
              | Signal.new_data p ↦ on_new_data io deeper links g.data_slots i p hs
              | z ↦ some (at i (times g.status_slots (on_status z)) hs)
            ])
        go (Signal.new_data p) g = on_new_data-Gives links g.data_slots i p hs h
        go Signal.started g = gives P _ (k.status_too i g.status_slots Signal.started hs h)
        go (Signal.startup_error_occured m) g =
            gives P _ (k.status_too i g.status_slots (Signal.startup_error_occured m) hs h)
        go (Signal.error_occured m) g =
            gives P _ (k.status_too i g.status_slots (Signal.error_occured m) hs h)

    receive_all-Gives :
        (links : List Link) (i : ℕ) (xs : List Signal) (hs : List (Handler S))
        → P hs
        → Gives P (receive_all io deeper links i xs hs)
    unfolding receive_all
    receive_all-Gives links i [] hs h = gives P hs h
    receive_all-Gives links i (x ∷ xs) hs h =
        chain P (receive io deeper links i x hs) (receive_all io deeper links i xs)
          (receive-Gives links i x hs h) (λ gs g. receive_all-Gives links i xs gs g)

  pub emit-GivesOf :
      (fuel : ℕ) (links : List Link) (i : ℕ) (xs : List Signal) (hs hs' : List (Handler S))
      → P hs
      → emit io fuel links i xs hs ≡ some hs'
      → P hs'
  unfolding emit
  emit-GivesOf zero links i [] hs hs' h e = gives P hs h hs' e
  emit-GivesOf zero links i (x ∷ xs) hs hs' h e = cc
  emit-GivesOf (suc fuel) links i xs hs hs' h e =
      receive_all-Gives (emit io fuel links)
        (λ d ys gs g fs q. emit-GivesOf fuel links d ys gs fs g q) links i xs hs h hs' e

module _ {S : Type 0} (io : Io S) (P : List (Handler S) → Type 0) (k : IsKept P) where
  pub emit-Gives :
      (fuel : ℕ) (links : List Link) (i : ℕ) (xs : List Signal) (hs hs' : List (Handler S))
      → P hs
      → emit io fuel links i xs hs ≡ some hs'
      → P hs'
  emit-Gives = emit-GivesOf io P (record {
    by_write = λ d p hs h e q. k.by_io d _ hs q;
    written_too = k.by_written;
    read_too = k.by_read;
    status_too = k.by_status;
  })
