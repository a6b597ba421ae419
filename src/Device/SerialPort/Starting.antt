-- ===== src/Device/SerialPort/Starting.antt =====
-- Proofs on the start of SerialPortIO.hpp: it reports once, after all settings or at the first failure.
use mathlib.Core.Path.{subst}
use mathlib.Core.Option.{some-injective}
use ioproxy.Base.{
  ◌≡◌, refl, sym, ap, String, Bool, true, false, List, [], ◌∷◌, ◌++◌, none, some, ◌⊎◌, inl, inr,
  Bool-cases, Option-cases, All, ◌∙◌, str_eq,
}
use ioproxy.Io.{Signal}
use ioproxy.Factory.SerialPort.{Options}
use ioproxy.Device.{Startup, succeeded, refused}
use ioproxy.Device.SerialPort.{
  Port, SerialPort, find_port, settings, setting_error, set_up, open_error, start_port, start,
}

module _ {World : Type 0} where
  -- Some settings succeed one after the other, from one state of the port to another.
  pub data SetUp : List (World → Bool × World) → World → World → Type 0 where
    none_left : {w : World} → SetUp [] w w
    then_rest :
        {setting : World → Bool × World} {rest : List (World → Bool × World)} {w w1 w2 : World}
        → setting w ≡ (true, w1)
        → SetUp rest w1 w2
        → SetUp (setting ∷ rest) w w2

  -- Some succeed, and the next one fails; those behind it are not tried.
  pub FailsAt : List (World → Bool × World) → World → World → Type 0
  FailsAt all w w2 =
      (before after : List (World → Bool × World)) × (setting : World → Bool × World) × (w1 : World)
      × (all ≡ before ++ (setting ∷ after))
      × SetUp before w w1
      × (setting w1 ≡ (false, w2))

  -- What `set_up` and `SetUp` have in common.
  pub Outcome : List (World → Bool × World) → World → Startup × World → Type 0
  Outcome all w r =
      ((r.0 ≡ succeeded) × SetUp all w r.1) ⊎ ((m : String) × (r.0 ≡ refused m) × FailsAt all w r.1)

  pub Outcome_done :
      (setting : World → Bool × World) (rest : List (World → Bool × World)) (w : World)
      (r : Startup × World)
      → (setting w).0 ≡ true
      → Outcome rest (setting w).1 r
      → Outcome (setting ∷ rest) w r
  unfolding Outcome FailsAt
  Outcome_done setting rest w r e (inl (a, b)) =
      inl (a, then_rest (ap (λ d. (d, (setting w).1)) e) b)
  Outcome_done setting rest w r e (inr (m, a, (before, after, x, w1, b, c, d))) = inr (
    m,
    a,
    (
      setting ∷ before,
      after,
      x,
      w1,
      ap (λ l. setting ∷ l) b,
      then_rest (ap (λ d. (d, (setting w).1)) e) c,
      d,
    ),
  )

module _ {Info World : Type 0} (port : Port Info World) where
  pub set_up_lem :
      (all : List (World → Bool × World)) (w : World) → Outcome all w (set_up port all w)
  unfolding set_up Outcome FailsAt
  set_up_lem [] w = inl (refl, none_left)
  set_up_lem (setting ∷ rest) w = elim (Bool-cases (setting w).0) [
    | inl e ↦
        (let step : set_up port (setting ∷ rest) w ≡ set_up port rest (setting w).1 =
            rw (e, set_up) refl in
          subst (Outcome (setting ∷ rest) w) (sym step) (
            Outcome_done setting rest w (set_up port rest (setting w).1) e
              (set_up_lem rest (setting w).1)))
    | inr e ↦
        (let step : set_up port (setting ∷ rest) w
              ≡ (refused (setting_error port (setting w).1), (setting w).1) =
            rw (e, set_up) refl in
          subst (Outcome (setting ∷ rest) w) (sym step) (
            inr (
              setting_error port (setting w).1,
              refl,
              ([], rest, setting, w, refl, none_left, ap (λ d. (d, (setting w).1)) e),
            )))
  ]

  -- The calls that a start makes on the open port, in this order.
  abbrev pub in_order : Options → List (World → Bool × World)
  in_order opts =
      port.set_baud_rate opts.baudrate
      ∷ port.set_break_enabled opts.break_enabled
      ∷ port.set_data_bits opts.databits
      ∷ port.set_data_terminal_ready opts.dtr
      ∷ port.set_flow_control opts.flow_control
      ∷ port.set_parity opts.parity
      ∷ port.set_stop_bits opts.stopbits
      ∷ port.set_request_to_send opts.rts
      ∷ []

  -- No port of some has a name.
  abbrev pub Unnamed : String → List Info → Type 0
  Unnamed name = All (λ info. str_eq (port.info_name info) name ≡ false)

  -- A port is the first of some with a name.
  pub IsFirst : String → List Info → Info → Type 0
  IsFirst name infos info =
      (before after : List Info) × (infos ≡ before ++ (info ∷ after))
      × Unnamed name before
      × (str_eq (port.info_name info) name ≡ true)

  find_port-none :
      (name : String) (infos : List Info) → find_port port name infos ≡ none → Unnamed name infos
  unfolding find_port
  find_port-none name [] h = tt
  find_port-none name (x ∷ xs) h = elim (Bool-cases (str_eq (port.info_name x) name)) [
    | inl e ↦ absurd (let bad = rw (e, find_port) at h in cc)
    | inr e ↦ (e, find_port-none name xs (rw (e, find_port) at h))
  ]

  IsFirst-later :
      (name : String) (x : Info) (xs : List Info) (info : Info)
      → str_eq (port.info_name x) name ≡ false
      → IsFirst name xs info
      → IsFirst name (x ∷ xs) info
  unfolding IsFirst
  IsFirst-later name x xs info e (before, after, split, unnamed, named) =
      (x ∷ before, after, ap (λ l. x ∷ l) split, (e, unnamed), named)

  find_port-some :
      (name : String) (infos : List Info) (info : Info)
      → find_port port name infos ≡ some info
      → IsFirst name infos info
  unfolding find_port IsFirst
  find_port-some name [] info h = cc
  find_port-some name (x ∷ xs) info h = elim (Bool-cases (str_eq (port.info_name x) name)) [
    | inl e ↦
        let same : x ≡ info = some-injective x info (rw (e, find_port) at h) in
        ([], xs, ap (λ y. y ∷ xs) same, tt, ap (λ y. str_eq (port.info_name y) name) (sym same) ∙ e)
    | inr e ↦ IsFirst-later name x xs info e (find_port-some name xs info (rw (e, find_port) at h))
  ]

  -- The first port of the name is there, opens, and takes all settings, in their order.
  pub Started : Options → World → World → Type 0
  Started opts w w2 =
      (info : Info) × (w1 : World) × IsFirst opts.port_id (port.available_ports w) info
      × (port.is_null info ≡ false)
      × (port.open_read_write (port.set_port info w) ≡ (true, w1))
      × SetUp (in_order opts) w1 w2

  -- No port has the name, or the first is null, or it does not open, or a setting fails after those before it.
  pub Broken : Options → World → World → Type 0
  Broken opts w w2 =
      (Unnamed opts.port_id (port.available_ports w) × (w2 ≡ w))
      ⊎ ((info : Info) × IsFirst opts.port_id (port.available_ports w) info
          × (((port.is_null info ≡ true) × (w2 ≡ w))
              ⊎ ((port.open_read_write (port.set_port info w) ≡ (false, w2))
                  ⊎ ((w1 : World) × (port.open_read_write (port.set_port info w) ≡ (true, w1))
                      × FailsAt (in_order opts) w1 w2))))

  pub Result : Options → World → Startup × World → Type 0
  Result opts w r =
      ((r.0 ≡ succeeded) × Started opts w r.1)
      ⊎ ((m : String) × (r.0 ≡ refused m) × Broken opts w r.1)

  pub start_port_lem : (opts : Options) (w : World) → Result opts w (start_port port opts w)
  unfolding start_port Result Started Broken Outcome settings
  start_port_lem opts w =
      elim (Option-cases (find_port port opts.port_id (port.available_ports w))) [
        | inl e ↦ rw (e, start_port) (inr (_, refl, inl (find_port-none _ _ e, refl)))
        | inr (info, e) ↦
            (let w0 = port.set_port info w in
              let first = find_port-some _ _ info e in
              elim (Bool-cases (port.is_null info)) [
                | inl f ↦ rw (e, f, start_port) (inr (_, refl, inr (info, first, inl (f, refl))))
                | inr f ↦ elim (Bool-cases (port.open_read_write w0).0) [
                  | inl g ↦
                      (let opened : port.open_read_write w0 ≡ (true, (port.open_read_write w0).1) =
                          ap (λ b. (b, (port.open_read_write w0).1)) g in
                        let step : start_port port opts w
                            ≡ set_up port (settings port opts) (port.open_read_write w0).1 =
                          rw (e, f, g, start_port) refl in
                        elim (set_up_lem (settings port opts) (port.open_read_write w0).1) [
                          | inl (a, b) ↦
                              subst (Result opts w) (sym step)
                                (inl (a, (info, _, first, f, opened, b)))
                          | inr (m, a, b) ↦
                              subst (Result opts w) (sym step)
                                (inr (m, a, inr (info, first, inr (inr (_, opened, b)))))
                        ])
                  | inr g ↦
                      (let w1 = (port.open_read_write w0).1 in
                        let step : start_port port opts w
                            ≡ (refused (open_error port info w1), w1) =
                          rw (e, f, g, start_port) refl in
                        subst (Result opts w) (sym step)
                          (inr (_, refl, inr (info, first, inr (inl (ap (λ b. (b, w1)) g))))))
                ]
              ])
      ]

  -- A start emits one signal. It is `started` after the first available port of the name opened and took
  -- the eight settings of the options in the order of `in_order`; or it is a startup error, where no port has the
  -- name or the port is null, and then nothing was done, or where the port did not open, or where a
  -- setting failed after those before it succeeded, and then those behind it were not tried.
  pub start_lem :
      (opts : Options) (s : SerialPort World)
      → (((start port opts s).emitted ≡ Signal.started ∷ s.emitted)
          × Started opts s.world (start port opts s).world)
        ⊎ ((m : String) × ((start port opts s).emitted ≡ Signal.startup_error_occured m ∷ s.emitted)
            × Broken opts s.world (start port opts s).world)
  unfolding start Result
  start_lem opts s = elim (start_port_lem opts s.world) [
    | inl (a, b) ↦ inl (rw (a, start) refl, b)
    | inr (m, a, b) ↦ inr (m, rw (a, start) refl, b)
  ]
