-- ===== src/Relay/Serial.antt =====
-- src/ioproxy/io/SerialPortIO.hpp: the serial port as an IO that takes data, while it is open.
use mathlib.Core.Path.{subst}
use ioproxy.Base.{
  ℕ, ◌≡◌, ◌≢◌, ◌⊎◌, refl, sym, ap, ◌∙◌, inl, inr, true, not, Bool-cases, if_true, if_false, List,
  [], ◌∷◌, ◌++◌, length, arith,
}
use ioproxy.Base.Int.{pos, eq_ℤ, eq_of_eq_ℤ}
use ioproxy.Io.{DataPack, count}
use ioproxy.Factory.SerialPort.{Options}
use ioproxy.Device.{oldest_first}
use ioproxy.Device.SerialPort
use ioproxy.Device.SerialPort.{Port, SerialPort, slot, serial_port_io}
use ioproxy.Relay.Reports.{OnlyErrors}
use ioproxy.Relay.Flow.{IsSink}
use ioproxy.Relay.Events.{IsMild, IsSource}
use ioproxy.Relay.Stations.{oldest_first-IsMild}

-- A port that stays open: `sent` is what was written to it in full.
pub record IsPlugged {Info World : Type 0} (port : Port Info World) : Type 0 where
  pub sent : World → List ℕ
  pub write :
      (bytes : List ℕ) (w : World)
      → port.is_open w ≡ true
      → let r = port.write bytes w in
        r.0 ≡ pos (length bytes)
        → (port.is_open (port.wait_for_bytes_written r.1) ≡ true)
          × (sent (port.wait_for_bytes_written r.1) ≡ sent w ++ bytes)

module _ {Info World : Type 0} {port : Port Info World} (plugged : IsPlugged port)
    (opts : Options) where
  abbrev pub IsOpen : SerialPort World → Type 0
  IsOpen s = port.is_open s.world ≡ true

  abbrev pub sent_by : SerialPort World → List ℕ
  sent_by s = plugged.sent s.world

  -- A write took the pack, or it emitted something.
  abbrev Outcome : DataPack → SerialPort World → SerialPort World → Type 0
  Outcome p s t =
      ((oldest_first t.emitted ≡ []) × IsOpen t × (sent_by t ≡ sent_by s ++ p.bytes))
      ⊎ (oldest_first t.emitted ≢ [])

  write_data-terse :
      (p : DataPack) (s : SerialPort World)
      → OnlyErrors ((serial_port_io port opts).write_data p s).1
  unfolding serial_port_io SerialPort.write_data
  write_data-terse p s = ground arith

  write_data-takes :
      (p : DataPack) (s : SerialPort World)
      → IsOpen s
      → let r = (serial_port_io port opts).write_data p s in
        ((r.1 ≡ []) × IsOpen r.0 × (sent_by r.0 ≡ sent_by s ++ p.bytes)) ⊎ (r.1 ≢ [])
  unfolding serial_port_io SerialPort.write_data
  write_data-takes p s is_open =
      let t : SerialPort World = record s { emitted = [] } in
      let open_port = if_false t _ (ap (λ b. not b) is_open) in
      elim (Bool-cases (eq_ℤ (port.write p.bytes s.world).0 (pos (count p)))) [
        | inl full ↦
            let (up', sent') = plugged.write p.bytes s.world is_open (eq_of_eq_ℤ _ _ full) in
            subst (Outcome p s) (sym (open_port ∙ if_true _ _ full)) (inl (refl, up', sent'))
        | inr short ↦ subst (Outcome p s) (sym (open_port ∙ if_false _ _ short)) (inr (λ q. cc))
      ]

  on_ready_read-keeps :
      (chunks : List (List ℕ)) (s : SerialPort World)
      → (SerialPort.on_ready_read port chunks s).world ≡ s.world
  unfolding SerialPort.on_ready_read
  on_ready_read-keeps [] s = refl
  on_ready_read-keeps (bytes ∷ chunks) s = on_ready_read-keeps chunks _

  on_ready_read-IsMild :
      (chunks : List (List ℕ)) (s : SerialPort World)
      → IsMild s.emitted
      → IsMild (SerialPort.on_ready_read port chunks s).emitted
  unfolding SerialPort.on_ready_read
  on_ready_read-IsMild [] s mild = mild
  on_ready_read-IsMild (bytes ∷ chunks) s mild = on_ready_read-IsMild chunks _ mild

  -- An open port takes the data that it is given.
  pub serial_port_io-IsSink : IsSink (serial_port_io port opts) IsOpen sent_by
  serial_port_io-IsSink = record { terse = write_data-terse; takes = write_data-takes }

  pub on_ready_read-IsSource :
      (chunks : List (List ℕ))
      → IsSource IsOpen sent_by (slot port (SerialPort.on_ready_read port chunks))
  on_ready_read-IsSource chunks = record {
    mild = λ s.
        oldest_first-IsMild
          (SerialPort.on_ready_read port chunks (record s { emitted = [] })).emitted
          (on_ready_read-IsMild chunks (record s { emitted = [] }) tt);
    keeps = λ s is_open.
        let e = on_ready_read-keeps chunks (record s { emitted = [] }) in
        (ap port.is_open e ∙ is_open, ap plugged.sent e);
  }
