-- ===== src/Relay/Client.antt =====
-- src/ioproxy/io/TcpSocketIO.cpp: the client socket as an IO that takes data, while its connection stays up.
use mathlib.Core.Path.{subst}
use ioproxy.Base.{
  ℕ, ◌≡◌, ◌≢◌, ◌⊎◌, refl, sym, ap, ◌∙◌, inl, inr, true, not, ◌&&◌, Bool-cases, if_true, if_false,
  if◌then◌else◌, List, [], ◌∷◌, ◌++◌, length, arith,
}
use ioproxy.Base.Int.{pos, eq_ℤ, eq_of_eq_ℤ}
use ioproxy.Io.{DataPack, count}
use ioproxy.Factory.TcpSocket.{Options}
use ioproxy.Device.{oldest_first}
use ioproxy.Device.TcpSocket
use ioproxy.Device.TcpSocket.{Net, TcpSocket, Event, slot, tcp_socket_io}
use ioproxy.Relay.Reports.{OnlyErrors}
use ioproxy.Relay.Flow.{IsSink}
use ioproxy.Relay.Events.{IsMild, IsSource}
use ioproxy.Relay.Stations.{oldest_first-IsMild}

-- A connection that stays up: `sent` is what was written to it in full.
pub record IsUp {Address World : Type 0} (net : Net Address World) : Type 0 where
  pub sent : World → List ℕ
  pub write :
      (bytes : List ℕ) (w : World)
      → net.is_connected w ≡ true
      → let r = net.write bytes w in
        r.0 ≡ pos (length bytes)
        → (net.is_connected (net.wait_for_bytes_written r.1) ≡ true)
          × (sent (net.wait_for_bytes_written r.1) ≡ sent w ++ bytes)
  pub low_delay :
      (w : World)
      → (net.is_connected (net.set_low_delay w) ≡ net.is_connected w)
        × (sent (net.set_low_delay w) ≡ sent w)
  pub keep_alive :
      (w : World)
      → (net.is_connected (net.set_keep_alive w) ≡ net.is_connected w)
        × (sent (net.set_keep_alive w) ≡ sent w)

-- What happens to a socket that stays connected: no call, and no reconnect.
abbrev pub IsPassive : Event → Type 0
IsPassive Event.connected = Unit
IsPassive Event.disconnected = Unit
IsPassive Event.socket_error = Unit
IsPassive (Event.ready_read chunks) = Unit
IsPassive Event.call_start = ⊥
IsPassive Event.call_stop = ⊥
IsPassive Event.timer = ⊥
IsPassive (Event.call_write_data p) = ⊥

-- What can happen to a socket that nobody calls: also that a timer connects it again.
abbrev pub IsUncalled : Event → Type 0
IsUncalled Event.connected = Unit
IsUncalled Event.disconnected = Unit
IsUncalled Event.socket_error = Unit
IsUncalled (Event.ready_read chunks) = Unit
IsUncalled Event.timer = Unit
IsUncalled Event.call_start = ⊥
IsUncalled Event.call_stop = ⊥
IsUncalled (Event.call_write_data p) = ⊥

IsPassive-IsUncalled : (e : Event) → IsPassive e → IsUncalled e
IsPassive-IsUncalled Event.connected h = tt
IsPassive-IsUncalled Event.disconnected h = tt
IsPassive-IsUncalled Event.socket_error h = tt
IsPassive-IsUncalled (Event.ready_read chunks) h = tt
IsPassive-IsUncalled Event.timer h = elim h [ ]
IsPassive-IsUncalled Event.call_start h = elim h [ ]
IsPassive-IsUncalled Event.call_stop h = elim h [ ]
IsPassive-IsUncalled (Event.call_write_data p) h = elim h [ ]

module _ {Address World : Type 0} (net : Net Address World) (opts : Options Address) where
  pub write_data-terse :
      (p : DataPack) (s : TcpSocket World) → OnlyErrors ((tcp_socket_io net opts).write_data p s).1
  unfolding tcp_socket_io TcpSocket.write_data
  write_data-terse p s = ground arith

  on_socket_ready_read-IsMild :
      (chunks : List (List ℕ)) (s : TcpSocket World)
      → IsMild s.emitted
      → IsMild (TcpSocket.on_socket_ready_read net chunks s).emitted
  unfolding TcpSocket.on_socket_ready_read
  on_socket_ready_read-IsMild [] s mild = mild
  on_socket_ready_read-IsMild (bytes ∷ chunks) s mild = on_socket_ready_read-IsMild chunks _ mild

  timer-IsMild :
      (s : TcpSocket World) → IsMild s.emitted → IsMild (TcpSocket.on_timer net opts s).emitted
  unfolding TcpSocket.on_timer TcpSocket.connect_to_remote TcpSocket.stop
  timer-IsMild s mild = ground arith

  pub handle-IsMild :
      (event : Event) (s : TcpSocket World)
      → IsUncalled event
      → IsMild s.emitted
      → IsMild (TcpSocket.handle net opts event s).emitted
  unfolding TcpSocket.handle TcpSocket.on_socket_connected TcpSocket.on_socket_error_occured
      TcpSocket.reconnect
  handle-IsMild Event.connected s uncalled mild = mild
  handle-IsMild Event.disconnected s uncalled mild = mild
  handle-IsMild Event.socket_error s uncalled mild = ground arith
  handle-IsMild (Event.ready_read chunks) s uncalled mild =
      on_socket_ready_read-IsMild chunks s mild
  handle-IsMild Event.call_start s uncalled mild = elim uncalled [ ]
  handle-IsMild Event.call_stop s uncalled mild = elim uncalled [ ]
  handle-IsMild Event.timer s uncalled mild = timer-IsMild s mild
  handle-IsMild (Event.call_write_data p) s uncalled mild = elim uncalled [ ]

module _ {Address World : Type 0} {net : Net Address World} (up : IsUp net)
    (opts : Options Address) where
  -- The socket is there and connected.
  abbrev pub IsOpen : TcpSocket World → Type 0
  IsOpen s = (s.socket ≡ true) × (net.is_connected s.world ≡ true)

  abbrev pub sent_by : TcpSocket World → List ℕ
  sent_by s = up.sent s.world

  -- A write took the pack, or it emitted something.
  abbrev Outcome : DataPack → TcpSocket World → TcpSocket World → Type 0
  Outcome p s t =
      ((oldest_first t.emitted ≡ []) × IsOpen t × (sent_by t ≡ sent_by s ++ p.bytes))
      ⊎ (oldest_first t.emitted ≢ [])

  write_data-takes :
      (p : DataPack) (s : TcpSocket World)
      → IsOpen s
      → let r = (tcp_socket_io net opts).write_data p s in
        ((r.1 ≡ []) × IsOpen r.0 × (sent_by r.0 ≡ sent_by s ++ p.bytes)) ⊎ (r.1 ≢ [])
  unfolding tcp_socket_io TcpSocket.write_data
  write_data-takes p s (there, is_open) =
      let w = (net.write p.bytes s.world).1 in
      let t : TcpSocket World = record s { emitted = [] } in
      let open_socket =
        if_false t _
          (ap (λ b. not (b && net.is_connected s.world)) there ∙ ap (λ b. not b) is_open) in
      elim (Bool-cases (eq_ℤ (net.write p.bytes s.world).0 (pos (count p)))) [
        | inl full ↦
            let (up', sent') = up.write p.bytes s.world is_open (eq_of_eq_ℤ _ _ full) in
            subst (Outcome p s) (sym (open_socket ∙ if_true _ _ full))
              (inl (refl, (there, up'), sent'))
        | inr short ↦ subst (Outcome p s) (sym (open_socket ∙ if_false _ _ short)) (inr (λ q. cc))
      ]

  on_socket_ready_read-keeps :
      (chunks : List (List ℕ)) (s : TcpSocket World)
      → let t = TcpSocket.on_socket_ready_read net chunks s in
        (t.socket ≡ s.socket) × (t.world ≡ s.world)
  unfolding TcpSocket.on_socket_ready_read
  on_socket_ready_read-keeps [] s = (refl, refl)
  on_socket_ready_read-keeps (bytes ∷ chunks) s = on_socket_ready_read-keeps chunks _

  on_socket_connected-keeps :
      (s : TcpSocket World)
      → let t = TcpSocket.on_socket_connected net opts s in
        (t.socket ≡ s.socket)
        × (net.is_connected t.world ≡ net.is_connected s.world)
        × (sent_by t ≡ sent_by s)
  unfolding TcpSocket.on_socket_connected
  on_socket_connected-keeps s =
      let v = if opts.tcp_no_delay_option then net.set_low_delay s.world else s.world in
      let (a, b) = up.low_delay s.world in
      let (c, d) = up.keep_alive v in (refl, ground (arith, a, c), ground (arith, b, d))

  socket_error-keeps :
      (s : TcpSocket World)
      → IsOpen s
      → let t = TcpSocket.on_socket_error_occured net opts s in IsOpen t × (sent_by t ≡ sent_by s)
  unfolding TcpSocket.on_socket_error_occured TcpSocket.reconnect
  socket_error-keeps s is_open = ground arith

  -- What can happen to an open socket takes no data.
  handle-keeps :
      (event : Event) (s : TcpSocket World)
      → IsPassive event
      → IsOpen s
      → let t = TcpSocket.handle net opts event s in IsOpen t × (sent_by t ≡ sent_by s)
  unfolding TcpSocket.handle
  handle-keeps Event.connected s passive (there, is_open) =
      let (a, b, c) = on_socket_connected-keeps s in ((a ∙ there, b ∙ is_open), c)
  handle-keeps Event.disconnected s passive is_open = (is_open, refl)
  handle-keeps Event.socket_error s passive is_open = socket_error-keeps s is_open
  handle-keeps (Event.ready_read chunks) s passive (there, is_open) =
      let (a, b) = on_socket_ready_read-keeps chunks s in
      ((a ∙ there, ap net.is_connected b ∙ is_open), ap up.sent b)
  handle-keeps Event.call_start s passive is_open = elim passive [ ]
  handle-keeps Event.call_stop s passive is_open = elim passive [ ]
  handle-keeps Event.timer s passive is_open = elim passive [ ]
  handle-keeps (Event.call_write_data p) s passive is_open = elim passive [ ]

  -- A connected socket takes the data that it is given.
  pub tcp_socket_io-IsSink : IsSink (tcp_socket_io net opts) IsOpen sent_by
  tcp_socket_io-IsSink = record { terse = write_data-terse net opts; takes = write_data-takes }

  pub handle-IsSource :
      (event : Event)
      → IsPassive event
      → IsSource IsOpen sent_by (slot net opts (TcpSocket.handle net opts event))
  handle-IsSource event passive = record {
    mild = λ s.
        oldest_first-IsMild (TcpSocket.handle net opts event (record s { emitted = [] })).emitted (
          handle-IsMild net opts event (record s { emitted = [] })
            (IsPassive-IsUncalled event passive) tt);
    keeps = λ s is_open. handle-keeps event (record s { emitted = [] }) passive is_open;
  }
