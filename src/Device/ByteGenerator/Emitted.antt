-- ===== src/Device/ByteGenerator/Emitted.antt =====
-- src/ioproxy/io/ByteGenerator/ByteGeneratorIO.cpp: what the calls of `next` emit.
use ioproxy.Base.{
  ℕ, zero, suc, ◌+◌, ◌*◌, ◌≡◌, refl, ap, ◌∙◌, Bool-cases, true, false, List, [], ◌∷◌, ◌++◌,
  replicate, arith, if◌then◌else◌, if_true, if_false, inl, inr,
}
use ioproxy.Base.Int.{pos_part}
use ioproxy.Io.{pack_of, Signal}
use ioproxy.Device.ByteGenerator
use ioproxy.Device.ByteGenerator.{
  ByteGenerator, emit_packets, next, start, stop, handle, Event, call_start, call_stop,
  call_write_data, timeout, run_all,
}

-- The packets of one call of `next`.
abbrev pub packets : ByteGenerator → ℕ
packets s = pos_part s.number_of_packets_per_next_call

-- `n` times the packet, before what there was.
abbrev pub with_packets : ℕ → List ℕ → List Signal → List Signal
with_packets n packet signals = replicate n (Signal.new_data (pack_of packet)) ++ signals

with_packets-cons :
    (n : ℕ) (packet : List ℕ) (signals : List Signal)
    → with_packets n packet (Signal.new_data (pack_of packet) ∷ signals)
      ≡ with_packets (suc n) packet signals
with_packets-cons zero packet signals = refl
with_packets-cons (suc n) packet signals =
    ap (λ l. Signal.new_data (pack_of packet) ∷ l) (with_packets-cons n packet signals)

with_packets-ap :
    {m n : ℕ} (packet : List ℕ) (signals : List Signal)
    → m ≡ n
    → with_packets m packet signals ≡ with_packets n packet signals
with_packets-ap packet signals e = ap (λ k. with_packets k packet signals) e

with_packets-add :
    (m n : ℕ) (packet : List ℕ) (signals : List Signal)
    → with_packets m packet (with_packets n packet signals) ≡ with_packets (m + n) packet signals
with_packets-add zero n packet signals =
    with_packets-ap {m = n} {n = zero + n} packet signals (omega arith)
with_packets-add (suc m) n packet signals =
    ap (λ l. Signal.new_data (pack_of packet) ∷ l) (with_packets-add m n packet signals)
    ∙ with_packets-ap {m = suc (m + n)} {n = suc m + n} packet signals (omega arith)

emit_packets_lem :
    (n : ℕ) (s : ByteGenerator)
    → emit_packets n s ≡ record s { emitted = with_packets n s.packet s.emitted }
unfolding emit_packets
emit_packets_lem zero s = refl
emit_packets_lem (suc n) s =
    emit_packets_lem n _
    ∙ ap (λ l. record s { emitted = l }) (with_packets-cons n s.packet s.emitted)

-- A call of `next` while the generator runs emits its packets and leaves one timer more.
pub next-running :
    (s : ByteGenerator)
    → s.run ≡ true
    → next s
      ≡ record s { timers = suc s.timers; emitted = with_packets (packets s) s.packet s.emitted }
unfolding next
next-running s e =
    ap (λ t. if s.run then record t { timers = suc t.timers } else s)
      (emit_packets_lem (packets s) s)
    ∙ if_true _ _ e

pub next-stopped : (s : ByteGenerator) → s.run ≡ false → next s ≡ s
unfolding next
next-stopped s e = if_false _ _ e

-- What stays, and what is emitted, in a run from one state to another.
pub record Emits (s t : ByteGenerator) : Type 0 where
  pub calls : ℕ
  pub packet : t.packet ≡ s.packet
  pub per_call : packets t ≡ packets s
  pub count : ℕ
  pub count_lem : count ≡ calls * packets s
  pub emitted : t.emitted ≡ with_packets count s.packet s.emitted

module _ (s : ByteGenerator) where
  Emits-refl :
      (t : ByteGenerator)
      → t.packet ≡ s.packet
      → packets t ≡ packets s
      → t.emitted ≡ s.emitted
      → Emits s t
  Emits-refl t a b c = record {
    calls = 0;
    packet = a;
    per_call = b;
    count = 0;
    count_lem = omega arith;
    emitted = c;
  }

  Emits-trans : (t u : ByteGenerator) → Emits s t → Emits t u → Emits s u
  Emits-trans t u a b = record {
    calls = b.calls + a.calls;
    packet = b.packet ∙ a.packet;
    per_call = b.per_call ∙ a.per_call;
    count = b.count + a.count;
    count_lem = grind (arith, a.count_lem, b.count_lem, a.per_call);
    emitted =
        b.emitted
        ∙ ap (λ p. with_packets b.count p t.emitted) a.packet
        ∙ ap (with_packets b.count s.packet) a.emitted
        ∙ with_packets-add b.count a.count s.packet s.emitted;
  }

next-Emits : (s : ByteGenerator) → Emits s (next s)
unfolding next
next-Emits s = elim (Bool-cases s.run) [
  | inl e ↦ rw (next-running s e) (record {
    calls = 1;
    packet = refl;
    per_call = refl;
    count = packets s;
    count_lem = omega arith;
    emitted = refl;
  })
  | inr e ↦ rw (next-stopped s e) (Emits-refl s s refl refl refl)
]

handle-Emits : (event : Event) (s : ByteGenerator) → Emits s (handle event s)
unfolding handle start stop ioproxy.Device.ByteGenerator.write_data
handle-Emits call_start s =
    Emits-trans s (record s { run = true }) _ (Emits-refl s _ refl refl refl) (next-Emits _)
handle-Emits call_stop s = Emits-refl s _ refl refl refl
handle-Emits (call_write_data p) s = Emits-refl s _ refl refl refl
handle-Emits timeout s = fired s.timers refl
  where
    fired : (n : ℕ) → s.timers ≡ n → Emits s (handle timeout s)
    fired zero e = rw (e, handle) (Emits-refl _ _ refl refl refl)
    fired (suc n) e =
        rw (e, handle)
          (Emits-trans _ (record s { timers = n }) _ (Emits-refl _ _ refl refl refl) (next-Emits _))

-- Whatever happens to a generator, it emits its packet only, and that some times the number of packets
-- of a call of `next`: it emits neither that it started nor an error.
pub run_all-Emits : (events : List Event) (s : ByteGenerator) → Emits s (run_all events s)
unfolding run_all
run_all-Emits [] s = Emits-refl s s refl refl refl
run_all-Emits (event ∷ events) s =
    Emits-trans s _ _ (handle-Emits event s) (run_all-Emits events (handle event s))
