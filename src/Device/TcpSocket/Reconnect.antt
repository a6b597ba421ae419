-- ===== src/Device/TcpSocket/Reconnect.antt =====
-- Proofs on TcpSocketIO.cpp: the timers of its reconnects, and what its counts of bytes count.
use ioproxy.Base.{
  ℕ, suc, ◌+◌, ◌≤◌, ◌≡◌, refl, ◌∙◌, Bool, true, false, not, ◌&&◌, List, [], ◌∷◌, length, arith,
  Bool-cases, ℕ-cases, String, inl, inr, if◌then◌else◌,
}
use ioproxy.Base.Int.{pos, eq_ℤ}
use ioproxy.Io.{DataPack, pack_of, count, Signal}
use ioproxy.Factory.TcpSocket.{Options}
use ioproxy.Device.{errors, received}
use ioproxy.Device.TcpSocket.{
  Net, TcpSocket, Event, emit, new_socket_io, short_write, stop, connect_to_remote, start,
  write_data, on_socket_connected, reconnect, on_socket_error_occured, on_socket_ready_read,
  on_timer, handle, run, call_start, call_stop, connected, disconnected, socket_error, timer,
  call_write_data, ready_read,
}

module _ {Address World : Type 0} (net : Net Address World) (opts : Options Address) where
  pub stop_lem :
      (s : TcpSocket World) → ((stop net s).socket ≡ false) × ((stop net s).timers ≡ s.timers)
  unfolding stop
  stop_lem s = elim (Bool-cases s.socket) [
    | inl e ↦ rw (e, stop) (refl, refl)
    | inr e ↦ rw (e, stop) (refl, refl)
  ]

  pub on_timer_lem :
      (n : ℕ) (s : TcpSocket World)
      → s.timers ≡ suc n
      → s.socket ≡ false
      → ((on_timer net opts s).socket ≡ true)
        × ((on_timer net opts s).world
            ≡ net.connect_to_host opts.remote_address opts.remote_port (net.new_socket s.world))
  unfolding on_timer connect_to_remote stop
  on_timer_lem n s h e = rw (h, on_timer) (rw (e, stop) (refl, refl))

  -- An error of the socket leaves a timer that a stop does not end: when it fires, the stopped IO
  -- connects to the remote again.
  stop_keeps_timer :
      (s : TcpSocket World)
      → opts.reconnect ≡ true
      → let t = stop net (on_socket_error_occured net opts s) in
        (t.socket ≡ false)
        × (t.timers ≡ suc s.timers)
        × ((on_timer net opts t).socket ≡ true)
        × ((on_timer net opts t).world
            ≡ net.connect_to_host opts.remote_address opts.remote_port (net.new_socket t.world))
  unfolding on_socket_error_occured reconnect
  stop_keeps_timer s h =
      let u = on_socket_error_occured net opts s in
      let (a, b) = stop_lem u in
      let c : u.timers ≡ suc s.timers = rw (h, on_socket_error_occured) refl in
      let (d, e) = on_timer_lem s.timers (stop net u) (b ∙ c) a in (a, b ∙ c, d, e)

module _ {Address World : Type 0} (opts : Options Address) where
  -- The bytes read are those of the emitted packs, and each pending timer has its error.
  unfoldable pub IsCounted : TcpSocket World → Type 0
  IsCounted s =
      (s.bytes_read ≡ received s.emitted)
      × (s.timers ≤ (if opts.reconnect then errors s.emitted else 0))

  pub if-IsCounted :
      (b : Bool) (s t : TcpSocket World)
      → IsCounted s
      → IsCounted t
      → IsCounted (if b then s else t)
  if-IsCounted true s t i j = i
  if-IsCounted false s t i j = j

  pub error-IsCounted :
      (m : String) (s : TcpSocket World) → IsCounted s → IsCounted (emit (Signal.error_occured m) s)
  unfolding IsCounted
  error-IsCounted m s (a, b) = elim (Bool-cases opts.reconnect) [
    | inl e ↦ (let b' = rw e at b in rw e (a, omega arith))
    | inr e ↦ (let b' = rw e at b in rw e (a, b'))
  ]

module _ {Address World : Type 0} (net : Net Address World) (opts : Options Address) where
  pub stop-IsCounted : (s : TcpSocket World) → IsCounted opts s → IsCounted opts (stop net s)
  unfolding stop IsCounted
  stop-IsCounted s i =
      if-IsCounted opts s.socket (record s { socket = false; world = net.close s.world }) s i i

  pub on_socket_ready_read-IsCounted :
      (chunks : List (List ℕ)) (s : TcpSocket World)
      → IsCounted opts s
      → IsCounted opts (on_socket_ready_read net chunks s)
  unfolding on_socket_ready_read IsCounted
  on_socket_ready_read-IsCounted [] s i = i
  on_socket_ready_read-IsCounted (bytes ∷ rest) s (a, b) =
      on_socket_ready_read-IsCounted rest
        (emit (Signal.new_data (pack_of bytes))
          (record s { bytes_read = s.bytes_read + length bytes }))
        (ground arith, b)

  pub on_socket_error_occured-IsCounted :
      (s : TcpSocket World) → IsCounted opts s → IsCounted opts (on_socket_error_occured net opts s)
  unfolding on_socket_error_occured reconnect IsCounted
  on_socket_error_occured-IsCounted s (a, b) = elim (Bool-cases opts.reconnect) [
    | inl e ↦ (let b' = rw e at b in rw e (a, omega arith))
    | inr e ↦ (let b' = rw e at b in rw e (a, b'))
  ]

  pub write_data-IsCounted :
      (p : DataPack) (s : TcpSocket World) → IsCounted opts s → IsCounted opts (write_data net p s)
  unfolding write_data IsCounted
  write_data-IsCounted p s i =
      let (written, w) = net.write p.bytes s.world in
      if-IsCounted opts (not (s.socket && net.is_connected s.world)) s _ i (
        if-IsCounted opts (eq_ℤ written (pos (count p))) _ _ i
          (error-IsCounted opts (short_write net written p w) (record s { world = w }) i))

  pub connect_to_remote-IsCounted :
      (s : TcpSocket World) → IsCounted opts s → IsCounted opts (connect_to_remote net opts s)
  unfolding connect_to_remote IsCounted
  connect_to_remote-IsCounted s i = stop-IsCounted s i

  pub on_timer-IsCounted :
      (s : TcpSocket World) → IsCounted opts s → IsCounted opts (on_timer net opts s)
  unfolding on_timer IsCounted
  on_timer-IsCounted s (a, b) = elim (ℕ-cases s.timers) [
    | inl e ↦ rw (e, on_timer) (a, b)
    | inr (k, e) ↦
        rw (e, on_timer)
          (connect_to_remote-IsCounted (record s { timers = k }) (a, omega (arith, e)))
  ]

  pub handle-IsCounted :
      (event : Event) (s : TcpSocket World)
      → IsCounted opts s
      → IsCounted opts (handle net opts event s)
  unfolding handle start on_socket_connected IsCounted
  handle-IsCounted call_start s i = connect_to_remote-IsCounted s i
  handle-IsCounted call_stop s i = stop-IsCounted s i
  handle-IsCounted connected s i = i
  handle-IsCounted disconnected s i = i
  handle-IsCounted socket_error s i = on_socket_error_occured-IsCounted s i
  handle-IsCounted timer s i = on_timer-IsCounted s i
  handle-IsCounted (call_write_data p) s i = write_data-IsCounted p s i
  handle-IsCounted (ready_read chunks) s i = on_socket_ready_read-IsCounted chunks s i

  pub run_from-IsCounted :
      (events : List Event) (s : TcpSocket World)
      → IsCounted opts s
      → IsCounted opts (run net opts events s)
  unfolding run
  run_from-IsCounted [] s i = i
  run_from-IsCounted (event ∷ events) s i =
      run_from-IsCounted events (handle net opts event s) (handle-IsCounted event s i)

  -- After any events, the bytes that a socket counts as read are those of the packs it emitted, and
  -- it has at most one pending timer for each error it reported, and none without `reconnect`.
  pub run-IsCounted :
      (events : List Event) (w : World) → IsCounted opts (run net opts events (new_socket_io w))
  unfolding IsCounted
  run-IsCounted events w = run_from-IsCounted events (new_socket_io w) (refl, omega arith)
