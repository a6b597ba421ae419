-- ===== src/Relay/Flow.antt =====
-- src/ioproxy/Handler.cpp, Engine.cpp and io/IOBase.hpp: the handler of an IO that takes the data it is given,
-- through deliveries and errors.
use mathlib.Core.Path.{subst}
use mathlib.Core.List.{append_assoc, append-nil}
use ioproxy.Base.{
  ℕ, zero, suc, ◌+◌, ◌≡◌, ◌≢◌, ◌⊎◌, refl, sym, ap, ◌∙◌, inl, inr, List, [], ◌++◌, length,
  length-append, arith, if_true, if_false,
}
use ioproxy.Io.{DataPack, count, Signal, Io}
use ioproxy.Handler.{Handler, State, state_eq, count_read, count_written, times}
use ioproxy.Relay.Reports.{OnlyErrors, IsTerse, absorb, absorb-Spares, absorb-failed, deliver}

-- What an engine relies on in an IO that takes data. `Ready` are the states in which it does, and `taken` is
-- what it has taken: a write adds its bytes and emits nothing, or emits errors.
pub record IsSink {S : Type 0} (io : Io S) (Ready : S → Type 0) (taken : S → List ℕ) : Type 0 where
  pub terse : IsTerse io
  pub takes :
      (p : DataPack) (s : S)
      → Ready s
      → let r = io.write_data p s in
        ((r.1 ≡ []) × Ready r.0 × (taken r.0 ≡ taken s ++ p.bytes)) ⊎ (r.1 ≢ [])

-- What there is to know of a handler: the bytes that its IO took, and the two counts.
pub record Tally : Type 0 where
  pub bytes : List ℕ
  pub written : ℕ
  pub read : ℕ

-- A list, again and again.
abbrev pub copies : ℕ → List ℕ → List ℕ
copies zero l = []
copies (suc n) l = l ++ copies n l

-- A tally after a number of deliveries.
abbrev pub more : List ℕ → Tally → Tally
more l t = record t { bytes = t.bytes ++ l; written = t.written + length l }

pub more-nil : (t : Tally) → more [] t ≡ t
more-nil t =
    ap (λ l. record t { bytes = l; written = t.written + 0 }) (append-nil t.bytes) ∙ ground arith

pub more-more : (l m : List ℕ) (t : Tally) → more m (more l t) ≡ more (l ++ m) t
more-more l m t =
    ap (λ k. record t { bytes = k; written = t.written + length l + length m })
      (append_assoc t.bytes l m)
    ∙ ap (λ n. record t { bytes = t.bytes ++ (l ++ m); written = n })
        (omega (arith, length-append l m))

module _ {S : Type 0} (Ready : S → Type 0) (taken : S → List ℕ) where
  -- The IO of a handler took the bytes, and the handler counted them; or it failed.
  abbrev pub Takes : Tally → Handler S → Type 0
  Takes t h =
      ((h.state ≡ State.started)
        × Ready h.io
        × (taken h.io ≡ t.bytes)
        × (h.bytes_written ≡ t.written))
      ⊎ (h.state ≡ State.failed)

  -- The handler is connected to its IO, once for data, and counted what it read.
  pub record Wired (t : Tally) (h : Handler S) : Type 0 where
    pub hears : (k : ℕ) × (h.status_slots ≡ suc k)
    pub passes : h.data_slots ≡ 1
    pub reads : h.bytes_read ≡ t.read

  -- The handler has its tally.
  abbrev pub Flow : Tally → Handler S → Type 0
  Flow t h = Wired t h × Takes t h

  pub count_read-Flow :
      (p : DataPack) (t : Tally) (h : Handler S)
      → Flow t h
      → Flow (record t { read = t.read + count p }) (count_read p h)
  unfolding count_read
  count_read-Flow p t h (w, takes) =
      (record { hears = w.hears; passes = w.passes; reads = ap (λ n. n + count p) w.reads }, takes)

  -- An error leaves the handler failed.
  pub absorb-Flow :
      (signals : List Signal) (t u : Tally) (h : Handler S)
      → OnlyErrors signals
      → signals ≢ []
      → t.read ≡ u.read
      → Wired t h
      → Flow u (absorb signals h)
  absorb-Flow signals t u h only some_error same w =
      let (k, e) = w.hears in
      let a = absorb-Spares signals h only in
      (
        record {
          hears = (k, a.status_slots ∙ e);
          passes = a.data_slots ∙ w.passes;
          reads = a.bytes_read ∙ (w.reads ∙ same);
        },
        inr (absorb-failed signals h k only some_error e),
      )

  Wired-like :
      (t u : Tally) (g h : Handler S)
      → t.read ≡ u.read
      → h.status_slots ≡ g.status_slots
      → h.data_slots ≡ g.data_slots
      → h.bytes_read ≡ g.bytes_read
      → Wired t g
      → Wired u h
  Wired-like t u g h e a b c w = record {
    hears = (w.hears.0, a ∙ w.hears.1);
    passes = b ∙ w.passes;
    reads = c ∙ (w.reads ∙ e);
  }

  module _ {io : Io S} (sink : IsSink io Ready taken) where
    -- The pack is taken, and the handler counts it; or the handler takes no more.
    pub deliver-Flow :
        (p : DataPack) (t : Tally) (h : Handler S)
        → Flow t h
        → Flow (more p.bytes t) (deliver io p h)
    unfolding deliver absorb count_written
    deliver-Flow p t h (w, takes) =
        let (s, signals) = io.write_data p h.io in
        let g = record h { io = s } in
        elim takes [
          | inr failed ↦
              subst (Flow (more p.bytes t))
                (sym (if_false _ _ (ap (λ x. state_eq x State.started) failed)))
                (Wired-like t (more p.bytes t) h h refl refl refl refl w, inr failed)
          | inl (runs, ready, bytes, written) ↦
              subst (Flow (more p.bytes t))
                (sym (if_true _ _ (ap (λ x. state_eq x State.started) runs)))
                (elim (sink.takes p h.io ready) [
                  | inl (quiet, ready', took) ↦
                      subst (λ l. Flow (more p.bytes t) (count_written p (absorb l g))) (sym quiet)
                        (
                          Wired-like t (more p.bytes t) h (count_written p g) refl refl refl refl w,
                          inl (
                            runs,
                            ready',
                            took ∙ ap (λ l. l ++ p.bytes) bytes,
                            ap (λ n. n + count p) written,
                          ),
                        )
                  | inr noisy ↦
                      let (v, b) =
                        absorb-Flow signals t (more p.bytes t) g (sink.terse p h.io) noisy refl
                          (Wired-like t t h g refl refl refl refl w) in
                      (
                        Wired-like (more p.bytes t) (more p.bytes t) (absorb signals g) _ refl refl
                            refl refl v,
                        inr (absorb-failed signals g w.hears.0 (sink.terse p h.io) noisy w.hears.1),
                      )
                ])
        ]

    pub times-deliver-Flow :
        (n : ℕ) (p : DataPack) (t : Tally) (h : Handler S)
        → Flow t h
        → Flow (more (copies n p.bytes) t) (times n (deliver io p) h)
    unfolding times
    times-deliver-Flow zero p t h f = subst (λ u. Flow u h) (sym (more-nil t)) f
    times-deliver-Flow (suc n) p t h f =
        subst (λ u. Flow u (times n (deliver io p) (deliver io p h)))
          (more-more p.bytes (copies n p.bytes) t)
          (times-deliver-Flow n p (more p.bytes t) (deliver io p h) (deliver-Flow p t h f))
