-- ===== src/Engine/Restart.antt =====
-- src/ioproxy/Engine.cpp and Handler.cpp: what `stop` leaves behind, and what a later `start` finds.
use ioproxy.Base.{
  ℕ, zero, suc, ◌+◌, ◌<◌, ◌≡◌, refl, ap, sym, ◌∙◌, inl, inr, true, false, Option, none, some, List,
  [], ◌∷◌, length, get_elem?, All, arith, Bool-cases, Option-cases,
}
use ioproxy.Io.{DataPack, Signal, Io}
use ioproxy.Handler.{Handler, connect_status, disconnect}
use ioproxy.Engine.{Engine, handler_start, handler_stop, each, start, stop, with_handlers}
use ioproxy.Engine.Signals.{Link, at, emit, receive_all, receive, on_new_data}
use ioproxy.Engine.Rule.{Gives, gives, emit-Gives}
use ioproxy.Engine.Kept
use ioproxy.Engine.Kept.{slots, slots-IsKept, map-at, length-at}
use ioproxy.Engine.Lifecycle.{each-Gives, handler_start-Gives, handler_stop-Gives}

-- Numbers that are zero below a position.
abbrev ZeroBelow : ℕ → List ℕ → Type 0
ZeroBelow k c = (j : ℕ) → j < k → (n : ℕ) → get_elem? c j ≡ some n → n ≡ 0

module _ {S : Type 0} where
  slots-disconnect :
      (k : ℕ) (hs : List (Handler S)) → slots (at k disconnect hs) ≡ at k (λ _. 0) (slots hs)
  unfolding disconnect
  slots-disconnect k [] = refl
  slots-disconnect zero (h ∷ hs) = refl
  slots-disconnect (suc k) (h ∷ hs) = ap (◌∷◌ h.data_slots) (slots-disconnect k hs)

ZeroBelow-at : (k : ℕ) (c : List ℕ) → ZeroBelow k c → ZeroBelow (suc k) (at k (λ _. 0) c)
ZeroBelow-at k [] z j l n e = cc
ZeroBelow-at zero (x ∷ c) z zero l n e = ground arith
ZeroBelow-at zero (x ∷ c) z (suc j) l n e = absurd (omega arith)
ZeroBelow-at (suc k) (x ∷ c) z zero l n e = z 0 (omega arith) n e
ZeroBelow-at (suc k) (x ∷ c) z (suc j) l n e =
    ZeroBelow-at k c (λ i p. z (suc i) (omega arith)) j (omega arith) n e

All-zero : (c : List ℕ) → ZeroBelow (length c) c → All (λ n. n ≡ 0) c
All-zero [] z = tt
All-zero (x ∷ c) z = (z 0 (omega arith) x refl, All-zero c (λ j l. z (suc j) (omega arith)))

ZeroBelow-end : (k : ℕ) (c : List ℕ) → get_elem? c k ≡ none → ZeroBelow k c → ZeroBelow (suc k) c
ZeroBelow-end k [] g z j l n e = cc
ZeroBelow-end zero (x ∷ c) g z j l n e = cc
ZeroBelow-end (suc k) (x ∷ c) g z zero l n e = z 0 (omega arith) n e
ZeroBelow-end (suc k) (x ∷ c) g z (suc j) l n e =
    ZeroBelow-end k c g (λ i p. z (suc i) (omega arith)) j (omega arith) n e

module _ {S : Type 0} (io : Io S) (fuel : ℕ) (links : List Link) where
  get_elem?-slots :
      (k : ℕ) (hs : List (Handler S)) → get_elem? hs k ≡ none → get_elem? (slots hs) k ≡ none
  get_elem?-slots k [] e = refl
  get_elem?-slots zero (h ∷ hs) e = cc
  get_elem?-slots (suc k) (h ∷ hs) e = get_elem?-slots k hs e

  handler_stop-cuts :
      (k : ℕ) (hs : List (Handler S))
      → ZeroBelow k (slots hs)
      → Gives (λ gs. ZeroBelow (suc k) (slots gs)) (handler_stop io fuel links k hs)
  unfolding handler_stop
  handler_stop-cuts k hs z = elim (Option-cases (get_elem? hs k)) [
    | inl e ↦
        rw (e, handler_stop)
          (gives (λ gs. ZeroBelow (suc k) (slots gs)) hs
            (ZeroBelow-end k (slots hs) (get_elem?-slots k hs e) z))
    | inr (h, e) ↦
        rw (e, handler_stop)
          (ending (emit io fuel links k (io.stop h.io).1 _) (λ gs.
            emit-Gives io (λ fs. slots fs ≡ slots hs) (slots-IsKept (slots hs)) fuel links k
              (io.stop h.io).1 _ gs ((slots-IsKept (slots hs)).by_io k (io.stop h.io).0 hs refl)))
  ]
    where
      ending :
          (o : Option (List (Handler S)))
          → Gives (λ gs. slots gs ≡ slots hs) o
          → Gives
              (λ gs. ZeroBelow (suc k) (slots gs))
              (elim o [ none ↦ none | some gs ↦ some (at k disconnect gs) ])
      ending none q fs r = cc
      ending (some gs) q fs r =
          let x : at k disconnect gs ≡ fs = ground arith in
          rw x at (
            let y : slots (at k disconnect gs) ≡ at k (λ _. 0) (slots hs) =
              slots-disconnect k gs ∙ ap (at k (λ _. 0)) (q gs refl) in
            let w : ZeroBelow (suc k) (slots (at k disconnect gs)) =
              rw y (ZeroBelow-at k (slots hs) z) in
            w)

  each_stop-cuts :
      (n k m : ℕ) (hs : List (Handler S))
      → k + n ≡ m
      → ZeroBelow k (slots hs)
      → Gives (λ gs. ZeroBelow m (slots gs)) (each (handler_stop io fuel links) n k hs)
  unfolding each
  each_stop-cuts zero k m hs e z gs r =
      let q : k ≡ m = omega arith in gives (λ fs. ZeroBelow m (slots fs)) hs (rw q at z) gs r
  each_stop-cuts (suc n) k m hs e z gs r = elim (Option-cases (handler_stop io fuel links k hs)) [
    | inl q ↦ cc (rw (q, each) at r)
    | inr (fs, q) ↦
        each_stop-cuts n (k + 1) m fs (omega arith)
          (λ j l. handler_stop-cuts k hs z fs q j (omega arith)) gs (rw (q, each) at r)
  ]

module _ {S : Type 0} where
  -- No handler is connected to the data of its IO.
  abbrev pub IsCut : List (Handler S) → Type 0
  IsCut hs = All (λ h. h.data_slots ≡ 0) hs

  length-slots : (hs : List (Handler S)) → length (slots hs) ≡ length hs
  length-slots [] = refl
  length-slots (h ∷ hs) = ap suc (length-slots hs)

  IsCut-slots : (hs : List (Handler S)) → All (λ n. n ≡ 0) (slots hs) → IsCut hs
  IsCut-slots [] a = tt
  IsCut-slots (h ∷ hs) a = (a.0, IsCut-slots hs a.1)

  slots-IsCut : (hs gs : List (Handler S)) → slots gs ≡ slots hs → IsCut hs → IsCut gs
  slots-IsCut hs gs e a = IsCut-slots gs (rw e (zeros hs a))
    where
      zeros : (fs : List (Handler S)) → IsCut fs → All (λ n. n ≡ 0) (slots fs)
      zeros [] a = tt
      zeros (h ∷ fs) a = (a.0, zeros fs a.1)

module _ {S : Type 0} (io : Io S) where
  cut_drops :
      (fuel : ℕ) (links : List Link) (hs : List (Handler S)) (i : ℕ) (p : DataPack)
      → IsCut hs
      → emit io (suc fuel) links i (Signal.new_data p ∷ []) hs ≡ some hs
  unfolding emit receive_all receive on_new_data
  cut_drops fuel links hs i p c = elim (Option-cases (get_elem? hs i)) [
    | inl e ↦ rw (received-none e, receive_all)
    | inr (h, e) ↦ rw (received-some h e, receive_all)
  ]
    where
      received-none :
          get_elem? hs i ≡ none
          → receive io (emit io fuel links) links i (Signal.new_data p) hs ≡ some hs
      received-none e = rw (e, receive)

      slot_of :
          (gs : List (Handler S)) (j : ℕ) (h : Handler S)
          → IsCut gs
          → get_elem? gs j ≡ some h
          → h.data_slots ≡ 0
      slot_of [] j h a e = cc
      slot_of (g ∷ gs) zero h a e = ground arith
      slot_of (g ∷ gs) (suc j) h a e = slot_of gs j h a.1 e

      received-some :
          (h : Handler S)
          → get_elem? hs i ≡ some h
          → receive io (emit io fuel links) links i (Signal.new_data p) hs ≡ some hs
      received-some h e = rw (e, receive) (rw (slot_of hs i h c e, on_new_data))

module _ {F S : Type 0} (io : Io S) where
  pub stop-IsCut :
      (fuel : ℕ) (e e' : Engine F S)
      → stop io fuel e ≡ some e'
      → IsCut e'.handlers × (e'.started ≡ false) × (e'.links ≡ e.links)
  unfolding stop
  stop-IsCut fuel e e' r =
      ending (each (handler_stop io fuel e.links) (length e.handlers) 0 e.handlers)
        (each_stop-cuts io fuel e.links (length e.handlers) 0 (length e.handlers) e.handlers
          (omega arith) (λ j l. absurd (omega arith)))
        (each-Gives io (λ gs. length gs ≡ length e.handlers) (Kept.count_kept (length e.handlers))
          fuel e.links (handler_stop io fuel e.links)
          (handler_stop-Gives io (λ gs. length gs ≡ length e.handlers)
            (Kept.count_kept (length e.handlers)) fuel e.links
            (λ i hs q. length-at i disconnect hs ∙ q))
          (length e.handlers) 0 e.handlers refl)
        r
    where
      ending :
          (o : Option (List (Handler S)))
          → Gives (λ gs. ZeroBelow (length e.handlers) (slots gs)) o
          → Gives (λ gs. length gs ≡ length e.handlers) o
          → with_handlers e false o ≡ some e'
          → IsCut e'.handlers × (e'.started ≡ false) × (e'.links ≡ e.links)
      ending none z n q = cc
      ending (some gs) z n q =
          let x : record e { handlers = gs; started = false } ≡ e' = ground arith in
          let same : length e.handlers ≡ length (slots gs) = sym (length-slots gs ∙ n gs refl) in
          let cut : IsCut gs = IsCut-slots gs (All-zero (slots gs) (rw same at (z gs refl))) in
          (rw (← x) cut, ground arith, ground arith)

  start-IsCut :
      (fuel : ℕ) (e e' : Engine F S)
      → IsCut e.handlers
      → start io fuel e ≡ some e'
      → IsCut e'.handlers
  unfolding start connect_status
  start-IsCut fuel e e' c r = elim (Bool-cases e.started) [
    | inl on ↦ let x : e ≡ e' = ground (arith, rw on at r) in rw (← x) c
    | inr off ↦
        ending (each (handler_start io fuel e.links) (length e.handlers) 0 e.handlers)
          (each-Gives io (λ gs. slots gs ≡ slots e.handlers) (slots-IsKept (slots e.handlers)) fuel
            e.links (handler_start io fuel e.links)
            (handler_start-Gives io (λ gs. slots gs ≡ slots e.handlers)
              (slots-IsKept (slots e.handlers)) fuel e.links
              (λ i s hs q. map-at (λ h. h.data_slots) i _ hs (λ h. refl) ∙ q))
            (length e.handlers) 0 e.handlers refl)
          (rw off at r)
  ]
    where
      ending :
          (o : Option (List (Handler S)))
          → Gives (λ gs. slots gs ≡ slots e.handlers) o
          → with_handlers e true o ≡ some e'
          → IsCut e'.handlers
      ending none z q = cc
      ending (some gs) z q =
          let x : record e { handlers = gs; started = true } ≡ e' = ground arith in
          rw (← x) (slots-IsCut e.handlers gs (z gs refl) c)

  -- Once an engine was stopped, also after it was started again, the data that an IO emits goes
  -- nowhere: no handler counts it, and none forwards it.
  pub restart_drops :
      (fuel fuel' deep i : ℕ) (p : DataPack) (e stopped restarted : Engine F S)
      → stop io fuel e ≡ some stopped
      → start io fuel' stopped ≡ some restarted
      → emit io (suc deep) restarted.links i (Signal.new_data p ∷ []) restarted.handlers
        ≡ some restarted.handlers
  restart_drops fuel fuel' deep i p e stopped restarted a b =
      cut_drops io deep restarted.links restarted.handlers i p
        (start-IsCut fuel' stopped restarted (stop-IsCut fuel e stopped a).0 b)
