-- ===== src/Relay/Flows.antt =====
-- src/ioproxy/Handler.cpp and Engine.cpp: one signal of an IO, for handlers that take what they are given.
use mathlib.Core.Path.{subst}
use mathlib.Core.Option
use mathlib.Core.Option.{some-injective}
use ioproxy.Base.{
  if_same, ℕ, suc, String, ◌+◌, ◌≡◌, refl, sym, ap, ◌∙◌, inl, inr, Option, none, some, List, [],
  ◌∷◌, get_elem?, ◌==◌, Bool-cases, if◌then◌else◌, if_true, if_false,
}
use ioproxy.Io.{DataPack, count, Signal, Io}
use ioproxy.Handler.{Handler, count_read, times}
use ioproxy.Engine.Positions.{get_elem?-at}
use ioproxy.Engine.Signals.{Link, Emit, at, receive, emit}
use ioproxy.Engine.Delivery.{links_to, delivered, get_elem?-delivered, receive-delivered}
use ioproxy.Relay.Reports.{absorb, deliver, write_data-deliver, receive-absorb}
use ioproxy.Relay.Flow.{IsSink, Tally, Flow, count_read-Flow, absorb-Flow, times-deliver-Flow}
use ioproxy.Relay.Events.{pass, IsSource}

pub map-some :
    {A B : Type 0} (f : A → B) (o : Option A) (y : B)
    → Option.map f o ≡ some y
    → (x : A) × (o ≡ some x) × (f x ≡ y)
map-some f none y e = cc
map-some f (some x) y e = (x, refl, some-injective (f x) y e)

pub some-at :
    {A : Type 0} (i j : ℕ) (f : A → A) (xs : List A) (x : A)
    → get_elem? xs j ≡ some x
    → (y : A) × (get_elem? (at i f xs) j ≡ some y)
some-at i j f xs x e = elim (Bool-cases (i == j)) [
  | inl same ↦ (f x, get_elem?-at i j f xs ∙ rw (same, e) refl)
  | inr other ↦ (x, get_elem?-at i j f xs ∙ rw (other, e) refl)
]

-- No handler leaves the list.
abbrev pub Keeps : {A : Type 0} → List A → List A → Type 0
Keeps {A} xs ys = (d : ℕ) (x : A) → get_elem? xs d ≡ some x → (y : A) × (get_elem? ys d ≡ some y)

pub Keeps-trans : {A : Type 0} (xs ys zs : List A) → Keeps xs ys → Keeps ys zs → Keeps xs zs
Keeps-trans xs ys zs k l d x e = let (y, f) = k d x e in l d y f

module _ {S : Type 0} (Ready : S → Type 0) (taken : S → List ℕ) where
  -- Each handler has its tally.
  abbrev pub Flows : (ℕ → Tally) → List (Handler S) → Type 0
  Flows ts hs = (d : ℕ) (h : Handler S) → get_elem? hs d ≡ some h → Flow Ready taken (ts d) h

  -- A change of the handler at a position.
  at-Flows :
      (i : ℕ) (f : Handler S → Handler S) (change : Tally → Tally) (ts : ℕ → Tally)
      (hs : List (Handler S))
      → ((t : Tally) (h : Handler S) → Flow Ready taken t h → Flow Ready taken (change t) (f h))
      → Flows ts hs
      → Flows (λ d. if i == d then change (ts d) else ts d) (at i f hs)
  at-Flows i f change ts hs keeps flows d h' e = elim (Bool-cases (i == d)) [
    | inl same ↦
        let (h, e1, e2) =
          map-some f (get_elem? hs d) h' (sym (get_elem?-at i d f hs ∙ if_true _ _ same) ∙ e) in
        subst (λ t. Flow Ready taken t h') (sym (if_true _ _ same))
          (subst (Flow Ready taken (change (ts d))) e2 (keeps (ts d) h (flows d h e1)))
    | inr other ↦
        subst (λ t. Flow Ready taken t h') (sym (if_false _ _ other))
          (flows d h' (sym (get_elem?-at i d f hs ∙ if_false _ _ other) ∙ e))
  ]

  pub at-Flows-same :
      (i : ℕ) (f : Handler S → Handler S) (ts : ℕ → Tally) (hs : List (Handler S))
      → ((t : Tally) (h : Handler S) → Flow Ready taken t h → Flow Ready taken t (f h))
      → Flows ts hs
      → Flows ts (at i f hs)
  at-Flows-same i f ts hs keeps flows d h' e =
      subst (λ t. Flow Ready taken t h') (if_same (i == d) (ts d))
        (at-Flows i f (λ t. t) ts hs keeps flows d h' e)

  -- The IO of a handler changes.
  pub act-Flow :
      (act : S → S × List Signal) (t : Tally) (h : Handler S)
      → IsSource Ready taken act
      → Flow Ready taken t h
      → Flow Ready taken t (record h { io = (act h.io).0 })
  act-Flow act t h source (w, takes) = (
    record { hears = w.hears; passes = w.passes; reads = w.reads },
    elim takes [
      | inr failed ↦ inr failed
      | inl (runs, ready, bytes, written) ↦
          let (ready', same) = source.keeps h.io ready in inl (runs, ready', same ∙ bytes, written)
    ],
  )

  module _ {io : Io S} (sink : IsSink io Ready taken) (links : List Link) where
    -- A pack is delivered over all connections.
    pub receive-Flows :
        (fuel i : ℕ) (p : DataPack) (ts : ℕ → Tally) (hs : List (Handler S)) (h : Handler S)
        → get_elem? hs i ≡ some h
        → Flows ts hs
        → (hs' : List (Handler S)) × (receive io
              (emit io (suc fuel) links)
              links
              i
              (Signal.new_data p)
              hs
            ≡ some hs')
          × Keeps hs hs'
          × Flows (λ d. pass links d i p (ts d)) hs'
    receive-Flows fuel i p ts hs h e flows =
        let counted = at i (count_read p) hs in
        let counts =
          at-Flows i (count_read p) (λ t. record t { read = t.read + count p }) ts hs
            (count_read-Flow Ready taken p) flows in
        (
          delivered (deliver io) links i p counted,
          receive-delivered (deliver io) io (emit io (suc fuel) links)
              (write_data-deliver io sink.terse links fuel) links i p hs h e (flows i h e).0.passes,
          λ d k at_d.
              let (g, present) = some-at i d (count_read p) hs k at_d in
              (
                _,
                get_elem?-delivered (deliver io) links i d p counted
                    ∙ ap (Option.map (times (links_to links i d) (deliver io p))) present,
              ),
          λ d h' at_d.
              let (k, at_k, same) =
                map-some (times (links_to links i d) (deliver io p)) (get_elem? counted d) h'
                  (sym (get_elem?-delivered (deliver io) links i d p counted) ∙ at_d) in
              subst (Flow Ready taken (pass links d i p (ts d))) same
                (times-deliver-Flow Ready taken sink (links_to links i d) p _ k (counts d k at_k)),
        )

    -- An error changes no tally.
    pub error-Flows :
        (deeper : Emit S) (i : ℕ) (m : String) (ts : ℕ → Tally) (hs : List (Handler S))
        (h : Handler S)
        → get_elem? hs i ≡ some h
        → Flows ts hs
        → (hs' : List (Handler S)) × (receive io deeper links i (Signal.error_occured m) hs
            ≡ some hs')
          × Keeps hs hs'
          × Flows ts hs'
    unfolding absorb
    error-Flows deeper i m ts hs h e flows =
        let fails = absorb {S = S} (Signal.error_occured m ∷ []) in
        (
          at i fails hs,
          receive-absorb io deeper links i m hs,
          λ d. some-at i d fails hs,
          at-Flows-same i fails ts hs
              (λ t g (w, takes).
                absorb-Flow Ready taken (Signal.error_occured m ∷ []) t t g tt (λ q. cc) refl w)
              flows,
        )
