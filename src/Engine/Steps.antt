-- ===== src/Engine/Steps.antt =====
-- src/ioproxy/Engine.cpp: an engine in use. A step is a call of the application, or something that
-- the environment makes an IO do; the fuel of each is any that suffices.
use ioproxy.Base.{
  ℕ, ◌+◌, ◌<◌, ◌≡◌, refl, ◌∙◌, inl, inr, String, Bool, true, false, Option, none, some, List, [],
  ◌∷◌, ◌++◌, length, length-append, All, All-append, arith, Bool-cases, ok, >>=-eq-ok,
}
use ioproxy.Io.{Signal, Io}
use ioproxy.Handler.{Handler, new_handler, connect_status, disconnect}
use ioproxy.Engine.{
  Engine, add_connection, handler_start, handler_stop, start, stop, add_io, empty_engine,
  with_handlers,
}
use ioproxy.Engine.Signals.{Link, at, emit}
use ioproxy.Engine.Lookup.{get_io_handler}
use ioproxy.Engine.Lookup.Spec.{get_io_handler-lt}
use ioproxy.Engine.Rule.{IsKept, Gives, emit-Gives}
use ioproxy.Engine.Kept.{
  All-at, IsCoherent, All-IsKept, IsCoherent-KeepsEach, count_kept, length-at,
}
use ioproxy.Engine.Lifecycle.{each-Gives, handler_start-Gives, handler_stop-Gives}

abbrev pub InRange : ℕ → List Link → Type 0
InRange n = All (λ l. (l.0 < n) × (l.1 < n))

InRange-append :
    (n : ℕ) (ls : List Link) (s d : ℕ)
    → InRange n ls
    → s < n
    → d < n
    → InRange n (ls ++ ((s, d) ∷ []))
InRange-append n [] s d h p q = ((p, q), tt)
InRange-append n (l ∷ ls) s d h p q = (h.0, InRange-append n ls s d h.1 p q)

InRange-mono : (n m : ℕ) (ls : List Link) → InRange n ls → InRange (n + m) ls
InRange-mono n m [] h = tt
InRange-mono n m (l ∷ ls) h = ((omega arith, omega arith), InRange-mono n m ls h.1)

module _ {S : Type 0} where
  -- What the handlers keep through a change of them: their coherence, and how many they are.
  abbrev Kept : ℕ → List (Handler S) → Type 0
  Kept n hs = All IsCoherent hs × (length hs ≡ n)

  Kept-IsKept : (n : ℕ) → IsKept (Kept n)
  Kept-IsKept n =
      let a = All-IsKept IsCoherent IsCoherent-KeepsEach in
      let c = count_kept n in
      record {
        by_io = λ d s hs q. (a.by_io d s hs q.0, c.by_io d s hs q.1);
        by_written = λ d p hs q. (a.by_written d p hs q.0, c.by_written d p hs q.1);
        by_read = λ d p hs q. (a.by_read d p hs q.0, c.by_read d p hs q.1);
        by_status = λ d m x hs q. (a.by_status d m x hs q.0, c.by_status d m x hs q.1);
      }

  connected-Kept :
      (n i : ℕ) (s : S) (hs : List (Handler S))
      → Kept n hs
      → Kept n (at i (λ g. record (connect_status g) { io = s }) hs)
  unfolding connect_status
  connected-Kept n i s hs q = (
    All-at IsCoherent i _ hs
        (λ h c. record { when_started = c.when_started; when_stopped = c.when_stopped }) q.0,
    length-at i _ hs ∙ q.1,
  )

  disconnected-Kept : (n i : ℕ) (hs : List (Handler S)) → Kept n hs → Kept n (at i disconnect hs)
  unfolding disconnect
  disconnected-Kept n i hs q = (
    All-at IsCoherent i _ hs
        (λ h c. record { when_started = c.when_started; when_stopped = c.when_stopped }) q.0,
    length-at i _ hs ∙ q.1,
  )

  new_handler-IsCoherent : (name : String) (s : S) → IsCoherent (new_handler name s)
  unfolding new_handler
  new_handler-IsCoherent name s = ground arith

module _ {F S : Type 0} (io : Io S) (fold_case : String → String) where
  pub data Step (e e' : Engine F S) : Type 0 where
    adds_io : (fuel : ℕ) (name : String) (s : S) → add_io io fuel name s e ≡ some e' → Step e e'
    connects : (src dst : String) → add_connection fold_case e src dst ≡ ok e' → Step e e'
    starts : (fuel : ℕ) → start io fuel e ≡ some e' → Step e e'
    stops : (fuel : ℕ) → stop io fuel e ≡ some e' → Step e e'
    -- The IO at `i` goes to a state of its own and emits signals.
    happens :
        (fuel i : ℕ) (s : S) (xs : List Signal) (hs : List (Handler S))
        → emit io fuel e.links i xs (at i (λ g. record g { io = s }) e.handlers) ≡ some hs
        → e' ≡ record e { handlers = hs }
        → Step e e'

  pub data Reach (e : Engine F S) : Engine F S → Type 0 where
    here : Reach e e
    next : {e' e'' : Engine F S} → Reach e e' → Step e' e'' → Reach e e''

  -- No handler shows an error unless it has failed, and each connection joins two handlers of the
  -- engine.
  pub record IsSound (e : Engine F S) : Type 0 where
    pub coherent : All IsCoherent e.handlers
    pub in_range : InRange (length e.handlers) e.links

  abbrev IsSoundWith : Engine F S → List (Handler S) → Type 0
  IsSoundWith e hs = (st : Bool) → IsSound (record e { handlers = hs; started = st })

  sound_with :
      (e : Engine F S) (hs : List (Handler S))
      → IsSound e
      → Kept (length e.handlers) hs
      → IsSoundWith e hs
  sound_with e hs v q st = record { coherent = q.0; in_range = rw q.1 v.in_range }

  with_handlers-IsSound :
      (e e' : Engine F S) (b : Bool) (o : Option (List (Handler S)))
      → IsSound e
      → Gives (Kept (length e.handlers)) o
      → with_handlers e b o ≡ some e'
      → IsSound e'
  with_handlers-IsSound e e' b none v q r = cc
  with_handlers-IsSound e e' b (some hs) v q r =
      let x : record e { handlers = hs; started = b } ≡ e' = ground arith in
      rw x at (sound_with e hs v (q hs refl) b)

  add_io-IsSound :
      (fuel : ℕ) (name : String) (s : S) (e e' : Engine F S)
      → IsSound e
      → add_io io fuel name s e ≡ some e'
      → IsSound e'
  unfolding add_io
  add_io-IsSound fuel name s e e' v r = elim (Bool-cases e.started) [
    | inr off ↦
        let q : record e { handlers = e.handlers ++ (new_handler name s ∷ []) } ≡ e' =
          ground (arith, rw off at r) in
        rw q at (grown (new_handler name s ∷ []) (new_handler-IsCoherent name s, tt))
    | inl on ↦
        ended (handler_start io fuel [] 0 (new_handler name s ∷ []))
          (handler_start-Gives io (Kept 1) (Kept-IsKept 1) fuel [] (connected-Kept 1) 0
            (new_handler name s ∷ []) ((new_handler-IsCoherent name s, tt), refl))
          (rw on at r)
  ]
    where
      grown :
          (hs : List (Handler S))
          → All IsCoherent hs
          → IsSound (record e { handlers = e.handlers ++ hs })
      grown hs a = record {
        coherent = All-append IsCoherent e.handlers hs v.coherent a;
        in_range =
            rw (length-append e.handlers hs)
              (InRange-mono (length e.handlers) (length hs) e.links v.in_range);
      }

      ended :
          (o : Option (List (Handler S)))
          → Gives (Kept 1) o
          → (elim o [ none ↦ none | some hs ↦ some (record e { handlers = e.handlers ++ hs }) ])
            ≡ some e'
          → IsSound e'
      ended none g q = cc
      ended (some hs) g q =
          let x : record e { handlers = e.handlers ++ hs } ≡ e' = ground arith in
          rw x at (grown hs (g hs refl).0)

  add_connection-IsSound :
      (src dst : String) (e e' : Engine F S)
      → IsSound e
      → add_connection fold_case e src dst ≡ ok e'
      → IsSound e'
  unfolding add_connection
  add_connection-IsSound src dst e e' v r =
      let (s, es, r') = >>=-eq-ok (get_io_handler fold_case e.handlers src) _ r in
      let (d, ed, r'') = >>=-eq-ok (get_io_handler fold_case e.handlers dst) _ r' in
      let x : record e { links = e.links ++ ((s, d) ∷ []) } ≡ e' = ground arith in
      let y : IsSound (record e { links = e.links ++ ((s, d) ∷ []) }) = record {
        coherent = v.coherent;
        in_range =
            InRange-append (length e.handlers) e.links s d v.in_range
              (get_io_handler-lt fold_case src e.handlers s es)
              (get_io_handler-lt fold_case dst e.handlers d ed);
      } in
      rw x at y

  start-IsSound :
      (fuel : ℕ) (e e' : Engine F S) → IsSound e → start io fuel e ≡ some e' → IsSound e'
  unfolding start
  start-IsSound fuel e e' v r = elim (Bool-cases e.started) [
    | inl on ↦ let x : e ≡ e' = ground (arith, rw on at r) in rw x at v
    | inr off ↦
        let n = length e.handlers in
        with_handlers-IsSound e e' true _ v
          (each-Gives io (Kept n) (Kept-IsKept n) fuel e.links (handler_start io fuel e.links)
            (handler_start-Gives io (Kept n) (Kept-IsKept n) fuel e.links (connected-Kept n)) n 0
            e.handlers (v.coherent, refl))
          (rw off at r)
  ]

  stop-IsSound : (fuel : ℕ) (e e' : Engine F S) → IsSound e → stop io fuel e ≡ some e' → IsSound e'
  unfolding stop
  stop-IsSound fuel e e' v r =
      let n = length e.handlers in
      with_handlers-IsSound e e' false _ v
        (each-Gives io (Kept n) (Kept-IsKept n) fuel e.links (handler_stop io fuel e.links)
          (handler_stop-Gives io (Kept n) (Kept-IsKept n) fuel e.links (disconnected-Kept n)) n 0
          e.handlers (v.coherent, refl))
        r

  pub Step-IsSound : {e e' : Engine F S} → Step e e' → IsSound e → IsSound e'
  Step-IsSound {e} {e'} (adds_io fuel name s r) v = add_io-IsSound fuel name s e e' v r
  Step-IsSound {e} {e'} (connects src dst r) v = add_connection-IsSound src dst e e' v r
  Step-IsSound {e} {e'} (starts fuel r) v = start-IsSound fuel e e' v r
  Step-IsSound {e} {e'} (stops fuel r) v = stop-IsSound fuel e e' v r
  Step-IsSound {e} {e'} (happens fuel i s xs hs r q) v =
      let n = length e.handlers in
      let k = (Kept-IsKept n).by_io i s e.handlers (v.coherent, refl) in
      rw q (
        sound_with e hs v (emit-Gives io (Kept n) (Kept-IsKept n) fuel e.links i xs _ hs k r)
          e.started)

  -- Whatever the application calls and the IOs do, in any order: no handler shows an error message
  -- unless it has failed, and every connection joins two handlers of the engine.
  pub Reach-IsSound : {e : Engine F S} → Reach empty_engine e → IsSound e
  Reach-IsSound here = record { coherent = tt; in_range = tt }
  Reach-IsSound (next r st) = Step-IsSound st (Reach-IsSound r)
