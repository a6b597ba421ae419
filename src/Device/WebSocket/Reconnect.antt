-- ===== src/Device/WebSocket/Reconnect.antt =====
-- Proofs on WebSocketIO.cpp: the timers of its reconnects, and its counts of bytes.
use ioproxy.Base.{
  ℕ, suc, ◌≤◌, ◌≡◌, refl, ◌∙◌, Bool, true, false, not, ◌&&◌, List, [], ◌∷◌, arith, Bool-cases,
  ℕ-cases, String, inl, inr, if◌then◌else◌,
}
use ioproxy.Base.Int.{pos, eq_ℤ}
use ioproxy.Io.{DataPack, count, Signal}
use ioproxy.Factory.WebSocket.{Options}
use ioproxy.Device.{errors}
use ioproxy.Device.WebSocket.{
  Net, WebSocket, Event, emit, new_web_socket, short_message, stop, connect_to_remote, start,
  write_data, reconnect, on_socket_error_occured, on_binary_message_received,
  on_text_message_received, on_timer, handle, run, call_start, call_stop, ignored, socket_error,
  timer, call_write_data, binary_message, text_message,
}

module _ {Address World : Type 0} (net : Net Address World) (opts : Options Address) where
  pub stop_lem :
      (s : WebSocket World) → ((stop net s).socket ≡ false) × ((stop net s).timers ≡ s.timers)
  unfolding stop
  stop_lem s = elim (Bool-cases s.socket) [
    | inl e ↦ rw (e, stop) (refl, refl)
    | inr e ↦ rw (e, stop) (refl, refl)
  ]

  pub on_timer_lem :
      (n : ℕ) (s : WebSocket World)
      → s.timers ≡ suc n
      → s.socket ≡ false
      → ((on_timer net opts s).socket ≡ true)
        × ((on_timer net opts s).world ≡ net.open_url opts.remote_url (net.new_socket s.world))
  unfolding on_timer connect_to_remote stop
  on_timer_lem n s h e = rw (h, on_timer) (rw (e, stop) (refl, refl))

  -- An error of the socket leaves a timer that a stop does not end: when it fires, the stopped IO
  -- connects to the remote again.
  pub stop_leaves_timer :
      (s : WebSocket World)
      → opts.reconnect ≡ true
      → let t = stop net (on_socket_error_occured net opts s) in
        (t.socket ≡ false)
        × (t.timers ≡ suc s.timers)
        × ((on_timer net opts t).socket ≡ true)
        × ((on_timer net opts t).world ≡ net.open_url opts.remote_url (net.new_socket t.world))
  unfolding on_socket_error_occured reconnect
  stop_leaves_timer s h =
      let u = on_socket_error_occured net opts s in
      let (a, b) = stop_lem u in
      let c : u.timers ≡ suc s.timers = rw (h, on_socket_error_occured) refl in
      let (d, e) = on_timer_lem s.timers (stop net u) (b ∙ c) a in (a, b ∙ c, d, e)

module _ {Address World : Type 0} (opts : Options Address) where
  -- No byte is counted as read, and each pending timer has its error.
  unfoldable pub IsUncounted : WebSocket World → Type 0
  IsUncounted s = (s.bytes_read ≡ 0) × (s.timers ≤ (if opts.reconnect then errors s.emitted else 0))

  pub if-IsUncounted :
      (b : Bool) (s t : WebSocket World)
      → IsUncounted s
      → IsUncounted t
      → IsUncounted (if b then s else t)
  if-IsUncounted true s t i j = i
  if-IsUncounted false s t i j = j

  pub error-IsUncounted :
      (m : String) (s : WebSocket World)
      → IsUncounted s
      → IsUncounted (emit (Signal.error_occured m) s)
  unfolding IsUncounted
  error-IsUncounted m s (a, b) = elim (Bool-cases opts.reconnect) [
    | inl e ↦ (let b' = rw e at b in rw e (a, omega arith))
    | inr e ↦ (let b' = rw e at b in rw e (a, b'))
  ]

module _ {Address World : Type 0} (net : Net Address World) (opts : Options Address) where
  pub stop-IsUncounted : (s : WebSocket World) → IsUncounted opts s → IsUncounted opts (stop net s)
  unfolding stop IsUncounted
  stop-IsUncounted s i =
      if-IsUncounted opts s.socket (record s { socket = false; world = net.close s.world }) s i i

  pub on_socket_error_occured-IsUncounted :
      (s : WebSocket World)
      → IsUncounted opts s
      → IsUncounted opts (on_socket_error_occured net opts s)
  unfolding on_socket_error_occured reconnect IsUncounted
  on_socket_error_occured-IsUncounted s (a, b) = elim (Bool-cases opts.reconnect) [
    | inl e ↦ (let b' = rw e at b in rw e (a, omega arith))
    | inr e ↦ (let b' = rw e at b in rw e (a, b'))
  ]

  pub write_data-IsUncounted :
      (p : DataPack) (s : WebSocket World)
      → IsUncounted opts s
      → IsUncounted opts (write_data net opts p s)
  unfolding write_data IsUncounted
  write_data-IsUncounted p s i =
      let (written, w) =
        if opts.binary
        then net.send_binary_message p.bytes s.world
        else net.send_text_message (net.from_utf8 p.bytes) s.world in
      if-IsUncounted opts (not (s.socket && (net.is_connected s.world && net.is_valid s.world))) s _
        i
        (if-IsUncounted opts (eq_ℤ written (pos (count p))) _ _ i
          (error-IsUncounted opts (short_message net written p w) (record s { world = w }) i))

  pub connect_to_remote-IsUncounted :
      (s : WebSocket World) → IsUncounted opts s → IsUncounted opts (connect_to_remote net opts s)
  unfolding connect_to_remote IsUncounted
  connect_to_remote-IsUncounted s i = stop-IsUncounted s i

  pub on_timer-IsUncounted :
      (s : WebSocket World) → IsUncounted opts s → IsUncounted opts (on_timer net opts s)
  unfolding on_timer IsUncounted
  on_timer-IsUncounted s (a, b) = elim (ℕ-cases s.timers) [
    | inl e ↦ rw (e, on_timer) (a, b)
    | inr (k, e) ↦
        rw (e, on_timer)
          (connect_to_remote-IsUncounted (record s { timers = k }) (a, omega (arith, e)))
  ]

  pub handle-IsUncounted :
      (event : Event) (s : WebSocket World)
      → IsUncounted opts s
      → IsUncounted opts (handle net opts event s)
  unfolding handle start on_binary_message_received on_text_message_received IsUncounted
  handle-IsUncounted call_start s i = connect_to_remote-IsUncounted s i
  handle-IsUncounted call_stop s i = stop-IsUncounted s i
  handle-IsUncounted ignored s i = i
  handle-IsUncounted socket_error s i = on_socket_error_occured-IsUncounted s i
  handle-IsUncounted timer s i = on_timer-IsUncounted s i
  handle-IsUncounted (call_write_data p) s i = write_data-IsUncounted p s i
  handle-IsUncounted (binary_message message) s i = i
  handle-IsUncounted (text_message message) s i = i

  pub run_on-IsUncounted :
      (events : List Event) (s : WebSocket World)
      → IsUncounted opts s
      → IsUncounted opts (run net opts events s)
  unfolding run
  run_on-IsUncounted [] s i = i
  run_on-IsUncounted (event ∷ events) s i =
      run_on-IsUncounted events (handle net opts event s) (handle-IsUncounted event s i)

  -- Whatever messages a web socket receives, it counts no byte as read; and it has at most one pending
  -- timer for each error it reported, and none without `reconnect`.
  pub run-IsUncounted :
      (events : List Event) (w : World) → IsUncounted opts (run net opts events (new_web_socket w))
  unfolding IsUncounted
  run-IsUncounted events w = run_on-IsUncounted events (new_web_socket w) (refl, omega arith)
