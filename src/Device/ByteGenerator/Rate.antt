-- ===== src/Device/ByteGenerator/Rate.antt =====
-- src/ioproxy/io/ByteGenerator/ByteGeneratorIO.cpp: the rate of the data, and what a second start does
-- to it.
use ioproxy.Base.{
  ℕ, zero, suc, ◌+◌, ◌-◌, ◌*◌, ◌/◌, ◌^◌, ◌<◌, ◌≤◌, ◌≡◌, refl, ap, ◌∙◌, true, List, ◌∷◌, replicate,
  length, arith,
}
use native.Mathlib.Nat.{
  div-mul-le_self, lt-div-mul-add, div-le_self, mul-le-mul_left, mul-le-mul_right,
}
use ioproxy.Base.Int.{pos}
use ioproxy.Io.{Signal}
use ioproxy.Device.{received}
use ioproxy.Device.ByteGenerator.{
  Platform, ByteGenerator, new_byte_generator, next, start, stop, handle, Event, call_start,
  call_stop, timeout, run_all,
}
use ioproxy.Device.ByteGenerator.Emitted.{packets, with_packets, next-running}

received-with_packets :
    (n : ℕ) (packet : List ℕ) (signals : List Signal)
    → received (with_packets n packet signals) ≡ n * length packet + received signals
received-with_packets zero packet signals = omega arith
received-with_packets (suc n) packet signals = grind (arith, received-with_packets n packet signals)

-- The bytes of one call of `next`.
abbrev per_call : ByteGenerator → ℕ
per_call s = packets s * length s.packet

-- `n` timers are pending and `c` calls of `next` have emitted their `p` bytes.
record Runs (n c p : ℕ) (s : ByteGenerator) : Type 0 where
  running : s.run ≡ true
  timers : s.timers ≡ n
  per_call : per_call s ≡ p
  received : received s.emitted ≡ c * p

next-Runs : {n c p : ℕ} (s : ByteGenerator) → Runs n c p s → Runs (suc n) (suc c) p (next s)
next-Runs s h = rw (next-running s h.running) (record {
  running = h.running;
  timers = ap suc h.timers;
  per_call = h.per_call;
  received =
      grind (arith, received-with_packets (packets s) s.packet s.emitted, h.received, h.per_call);
})

-- Every start, of a generator that runs or not, adds a timer.
start-Runs :
    {n c p : ℕ} (s : ByteGenerator)
    → Runs n c p (record s { run = true })
    → Runs (suc n) (suc c) p (start s)
unfolding start
start-Runs s h = next-Runs (record s { run = true }) h

timeout-Runs :
    {n c p : ℕ} (s : ByteGenerator) → Runs (suc n) c p s → Runs (suc n) (suc c) p (handle timeout s)
unfolding handle
timeout-Runs {n} s h =
    rw (h.timers, handle)
      (next-Runs (record s { timers = n })
        (record {
          running = h.running;
          timers = refl;
          per_call = h.per_call;
          received = h.received;
        }))

Runs-same : {m n c d p : ℕ} {s : ByteGenerator} → m ≡ n → c ≡ d → Runs m c p s → Runs n d p s
Runs-same {p} e f h = record {
  running = h.running;
  timers = h.timers ∙ e;
  per_call = h.per_call;
  received = h.received ∙ ap (λ x. x * p) f;
}

-- `k` timeouts.
abbrev timeouts : ℕ → List Event
timeouts k = replicate k timeout

-- `r` times a stop and a start, before the rest.
abbrev restarts : ℕ → List Event → List Event
restarts zero rest = rest
restarts (suc r) rest = call_stop ∷ call_start ∷ restarts r rest

timeouts-Runs :
    (k : ℕ) {n c p : ℕ} (s : ByteGenerator)
    → Runs (suc n) c p s
    → Runs (suc n) (k + c) p (run_all (timeouts k) s)
unfolding run_all
timeouts-Runs zero s h = Runs-same refl (omega arith) h
timeouts-Runs (suc k) s h =
    Runs-same refl (omega arith) (timeouts-Runs k (handle timeout s) (timeout-Runs s h))

restarts-Runs :
    (r k : ℕ) {n c p : ℕ} (s : ByteGenerator)
    → Runs (suc n) c p s
    → Runs (r + suc n) (k + (r + c)) p (run_all (restarts r (timeouts k)) s)
unfolding run_all handle stop
restarts-Runs zero k s h = Runs-same (omega arith) (omega arith) (timeouts-Runs k s h)
restarts-Runs (suc r) k s h = Runs-same (omega arith) (omega arith) (
    restarts-Runs r k (start (stop s)) (
      start-Runs (stop s) (record {
        running = refl;
        timers = h.timers;
        per_call = h.per_call;
        received = h.received;
      })))

-- Ten times the data of a call, `n` being the packets per second: a tenth of them is rounded up.
ten_calls :
    (rate size n : ℕ)
    → rate ≤ n * size
    → n * size ≤ rate + size
    → (rate ≤ 10 * ((n + 9) / 10 * size)) × (10 * ((n + 9) / 10 * size) ≤ rate + 10 * size)
ten_calls rate size n a b =
    let low : n ≤ 10 * ((n + 9) / 10) = omega arith in
    let high : 10 * ((n + 9) / 10) ≤ n + 9 = omega arith in
    (grind (arith, a, mul-le-mul_right size low), grind (arith, b, mul-le-mul_right size high))

per_second :
    (rate size : ℕ)
    → 0 < size
    → let n = (rate + (size - 1)) / size in (rate ≤ n * size) × (n * size ≤ rate + size)
per_second rate size h = (
  omega (arith, lt-div-mul-add {a = rate + (size - 1)} h, h),
  omega (arith, div-mul-le_self (rate + (size - 1)) size),
)

module _ (platform : Platform) where
  -- The quotients are exact below 2^53, and the buffer has the size that was asked for.
  pub record IsExact : Type 0 where
    pub ceil :
        (a b : ℕ)
        → a < 2 ^ 53
        → 0 < b
        → b < 2 ^ 53
        → platform.ceil_quotient (pos a) (pos b) ≡ pos ((a + (b - 1)) / b)
    pub resized : (n : ℕ) → n < 2 ^ 31 → length (platform.resize (pos n)) ≡ n

  abbrev pub generator : ℕ → ℕ → ByteGenerator
  generator rate size =
      new_byte_generator platform (record { bytes_per_second = pos rate; packet_size = pos size })

  generator-Runs :
      (rate size r k : ℕ)
      → Runs
          (suc r)
          (suc k * suc r)
          (per_call (generator rate size))
          (run_all (call_start ∷ restarts r (timeouts (k * suc r))) (generator rate size))
  unfolding run_all handle new_byte_generator
  generator-Runs rate size r k =
      let g = generator rate size in
      Runs-same (omega arith) (omega arith) (
        restarts-Runs r (k * suc r) (start g) (
          start-Runs {n = 0} {c = 0} g
            (record { running = refl; timers = refl; per_call = refl; received = omega arith })))

  module _ (exact : IsExact) (rate size : ℕ) (a : rate + size < 2 ^ 53) (b : 0 < size)
      (c : size < 2 ^ 31) where
    generator-per_call :
        per_call (generator rate size) ≡ ((rate + (size - 1)) / size + 9) / 10 * size
    unfolding new_byte_generator
    generator-per_call =
        let e = exact.ceil rate size (omega (arith, a)) b (omega (arith, c)) in
        let n = div-le_self (rate + (size - 1)) size in
        let f =
          exact.ceil ((rate + (size - 1)) / size) 10 (omega (arith, n, a)) (omega arith)
            (omega arith) in
        rw (e, f, exact.resized size c)

    -- A generator that is started `r` times again within its first 100 ms has emitted, after `k` times
    -- 100 ms more, at least `r + 1` times the bytes that its rate gives for `k + 1` times 100 ms, and at
    -- most that many times one packet for every 100 ms above.
    pub run_all-rate :
        (r k : ℕ)
        → let g = run_all (call_start ∷ restarts r (timeouts (k * suc r))) (generator rate size) in
          let calls = suc k * suc r in
          (calls * rate ≤ 10 * received g.emitted)
          × (10 * received g.emitted ≤ calls * (rate + 10 * size))
    run_all-rate r k =
        let h = generator-Runs rate size r k in
        let n = per_second rate size b in
        let (low, high) = ten_calls rate size ((rate + (size - 1)) / size) n.0 n.1 in
        let e = h.received ∙ ap (λ x. suc k * suc r * x) generator-per_call in
        (
          grind (arith, e, mul-le-mul_left (suc k * suc r) low),
          grind (arith, e, mul-le-mul_left (suc k * suc r) high),
        )
