-- ===== src/Device/TcpServer/Counts.antt =====
-- Proofs on TcpServerIO.cpp: the limit on its sockets, and what its counts of bytes count.
use ioproxy.Base.{
  ℕ, suc, ap, ◌+◌, ◌*◌, ◌≤◌, ◌≡◌, refl, Bool, true, false, List, [], ◌∷◌, length, length-append,
  arith, if◌then◌else◌, ◌==◌, Bool-cases, Option-cases, inl, inr,
}
use ioproxy.Base.Int.{pos, pos_part, ltb_ℤ, eq_ℤ, eq_of_eq_ℤ}
use ioproxy.Io.{DataPack, pack_of, count, Signal}
use ioproxy.Factory.TcpServer.{Options}
use ioproxy.Device.{errors, received}
use ioproxy.Device.TcpServer.{
  Net, TcpServer, Event, emit, new_server, write_socket, write_each, write_data, write_others,
  on_server_new_connection, on_socket_ready_read, on_socket_disconnected, remove_one, handle, run,
  start, stop, on_server_accept_error, on_socket_error_occured, call_start, call_stop,
  new_connection, call_write_data, accept_error, ready_read, socket_error, disconnected,
}

module _ {Socket World : Type 0} where
  -- Between two states a pack was written to `n` sockets: each write is counted or reported.
  pub Counted : ℕ → DataPack → TcpServer Socket World → TcpServer Socket World → Type 0
  Counted n p s t =
      (t.bytes_written + count p * errors t.emitted
        ≡ s.bytes_written + count p * (errors s.emitted + n))
      × (t.sockets ≡ s.sockets)
      × (t.bytes_read ≡ s.bytes_read)
      × (received t.emitted ≡ received s.emitted)

  pub Counted-none : (p : DataPack) (s : TcpServer Socket World) → Counted 0 p s s
  unfolding Counted
  Counted-none p s = (ground arith, refl, refl, refl)

  pub Counted-suc :
      (n : ℕ) (p : DataPack) (s t u : TcpServer Socket World)
      → Counted 1 p s t
      → Counted n p t u
      → Counted (suc n) p s u
  unfolding Counted
  Counted-suc n p s t u (a, b, c, d) (a', b', c', d') = (grind arith, cc, cc, cc)

module _ {Address Socket World : Type 0} (net : Net Address Socket World) where
  -- One write counts its bytes or reports an error.
  pub write_socket-Counted :
      (x : Socket) (p : DataPack) (s : TcpServer Socket World)
      → Counted 1 p s (write_socket net x p s)
  unfolding write_socket Counted
  write_socket-Counted x p s =
      elim (Bool-cases (eq_ℤ (net.write x p.bytes s.world).0 (pos (count p)))) [
        | inl e ↦
            (let f = eq_of_eq_ℤ (net.write x p.bytes s.world).0 (pos (count p)) e in
              rw (e, f) (ground arith, refl, refl, refl))
        | inr e ↦ rw e (ground arith, refl, refl, refl)
      ]

  pub write_each-Counted :
      (xs : List Socket) (p : DataPack) (s : TcpServer Socket World)
      → Counted (length xs) p s (write_each net xs p s)
  unfolding write_each
  write_each-Counted [] p s = Counted-none p s
  write_each-Counted (x ∷ xs) p s =
      Counted-suc (length xs) p s (write_socket net x p s) _ (write_socket-Counted x p s)
        (write_each-Counted xs p (write_socket net x p s))

  -- The sockets that are not the sender.
  unfoldable pub others : Socket → List Socket → List Socket
  others sock [] = []
  others sock (x ∷ xs) = let rest = others sock xs in if net.same x sock then rest else x ∷ rest

  pub write_others-Counted :
      (sock : Socket) (xs : List Socket) (p : DataPack) (s : TcpServer Socket World)
      → Counted (length (others sock xs)) p s (write_others net sock xs p s)
  unfolding write_others others
  write_others-Counted sock [] p s = Counted-none p s
  write_others-Counted sock (x ∷ xs) p s = elim (Bool-cases (net.same x sock)) [
    | inl e ↦ rw (e, write_others) (write_others-Counted sock xs p s)
    | inr e ↦
        rw (e, write_others)
          (Counted-suc (length (others sock xs)) p s (write_socket net x p s) _
            (write_socket-Counted x p s) (write_others-Counted sock xs p (write_socket net x p s)))
  ]

  pub length-remove_one :
      (sock : Socket) (xs : List Socket) → length (remove_one net sock xs) ≤ length xs
  unfolding remove_one
  length-remove_one sock [] = omega arith
  length-remove_one sock (x ∷ xs) = ground (arith, length-remove_one sock xs)

module _ {Address Socket World : Type 0} (opts : Options Address) where
  -- The limit on the sockets, and the count of bytes read.
  unfoldable pub IsSound : TcpServer Socket World → Type 0
  IsSound s =
      (length s.sockets ≤ pos_part opts.max_connections) × (s.bytes_read ≡ received s.emitted)

  pub Counted-IsSound :
      (n : ℕ) (p : DataPack) (s t : TcpServer Socket World)
      → Counted n p s t
      → IsSound s
      → IsSound t
  unfolding Counted IsSound
  Counted-IsSound n p s t (a, b, c, d) (e, f) = (rw b e, cc)

  pub if-IsSound :
      (b : Bool) (s t : TcpServer Socket World)
      → IsSound s
      → IsSound t
      → IsSound (if b then s else t)
  if-IsSound true s t i j = i
  if-IsSound false s t i j = j

  -- A pack that is counted and emitted.
  pub read-IsSound :
      (p : DataPack) (s : TcpServer Socket World)
      → IsSound s
      → IsSound (emit (Signal.new_data p) (record s { bytes_read = s.bytes_read + count p }))
  unfolding IsSound
  read-IsSound p s (a, b) = (a, omega arith)

module _ {Address Socket World : Type 0} (net : Net Address Socket World)
    (opts : Options Address) where
  pub write_socket-IsSound :
      (x : Socket) (p : DataPack) (s : TcpServer Socket World)
      → IsSound opts s
      → IsSound opts (write_socket net x p s)
  write_socket-IsSound x p s = Counted-IsSound opts 1 p s _ (write_socket-Counted net x p s)

  -- A connection is taken only below the limit.
  pub on_server_new_connection-IsSound :
      (s : TcpServer Socket World)
      → IsSound opts s
      → IsSound opts (on_server_new_connection net opts s)
  unfolding on_server_new_connection IsSound
  on_server_new_connection-IsSound s (a, b) =
      elim (Option-cases (net.next_pending_connection s.world).0) [
        | inl e ↦ rw (e, on_server_new_connection) (a, b)
        | inr (sock, e) ↦
            rw (e, on_server_new_connection)
              (elim (Bool-cases (ltb_ℤ (pos (length s.sockets)) opts.max_connections)) [
                | inl f ↦ rw f (ground (arith, length-append s.sockets (sock ∷ [])), b)
                | inr f ↦ rw f (a, b)
              ])
      ]

  pub on_socket_ready_read-IsSound :
      (sock : Socket) (s : TcpServer Socket World)
      → IsSound opts s
      → IsSound opts (on_socket_ready_read net opts sock s)
  unfolding on_socket_ready_read IsSound
  on_socket_ready_read-IsSound sock s i =
      let (bytes, w) = net.read sock (net.bytes_available sock s.world) s.world in
      let t = record s { world = w } in
      let others_done = write_others net sock s.sockets (pack_of bytes) t in
      let u : TcpServer Socket World = if opts.broadcast then others_done else t in
      if-IsSound opts (net.bytes_available sock s.world == 0) s _ i (
        read-IsSound opts (pack_of bytes) u (
          if-IsSound opts opts.broadcast others_done t
            (Counted-IsSound opts (length (others net sock s.sockets)) (pack_of bytes) t others_done
              (write_others-Counted net sock s.sockets (pack_of bytes) t) i)
            i))

  pub start-IsSound :
      (s : TcpServer Socket World) → IsSound opts s → IsSound opts (start net opts s)
  unfolding start IsSound
  start-IsSound s i =
      if-IsSound opts
        (net.listen (if net.is_null opts.bind_address then net.any else opts.bind_address)
          opts.bind_port s.world).0
        _ _ i i

  pub handle-IsSound :
      (event : Event Socket) (s : TcpServer Socket World)
      → IsSound opts s
      → IsSound opts (handle net opts event s)
  unfolding handle IsSound stop on_server_accept_error on_socket_error_occured
      on_socket_disconnected write_data
  handle-IsSound call_start s i = start-IsSound s i
  handle-IsSound new_connection s i = on_server_new_connection-IsSound s i
  handle-IsSound (ready_read sock) s i = on_socket_ready_read-IsSound sock s i
  handle-IsSound (call_write_data p) s i =
      Counted-IsSound opts (length s.sockets) p s _ (write_each-Counted net s.sockets p s) i
  handle-IsSound call_stop s (a, b) = (omega arith, b)
  handle-IsSound (accept_error error) s i = i
  handle-IsSound (socket_error sock) s i = i
  handle-IsSound (disconnected sock) s (a, b) =
      (omega (arith, length-remove_one net sock s.sockets), b)

  pub run_from-IsSound :
      (events : List (Event Socket)) (s : TcpServer Socket World)
      → IsSound opts s
      → IsSound opts (run net opts events s)
  unfolding run
  run_from-IsSound [] s i = i
  run_from-IsSound (event ∷ events) s i =
      run_from-IsSound events (handle net opts event s) (handle-IsSound event s i)

  -- After any events, a server has at most `maxConnections` sockets, and the bytes it counts as read
  -- are those of the packs that it emitted.
  pub run-IsSound :
      (events : List (Event Socket)) (w : World) → IsSound opts (run net opts events (new_server w))
  unfolding IsSound
  run-IsSound events w = run_from-IsSound events (new_server w) (omega arith, refl)

  -- The counts after a read of a server with `broadcast`: each write to another socket is counted in full or
  -- reported as an error.
  pub broadcast_counts :
      (sock : Socket) (s : TcpServer Socket World)
      → (net.bytes_available sock s.world == 0) ≡ false
      → opts.broadcast ≡ true
      → let size = length (net.read sock (net.bytes_available sock s.world) s.world).0 in
        let t = on_socket_ready_read net opts sock s in
        (t.bytes_written + size * errors t.emitted
          ≡ s.bytes_written + size * (errors s.emitted + length (others net sock s.sockets)))
        × (t.bytes_read ≡ s.bytes_read + size)
        × (received t.emitted ≡ received s.emitted + size)
        × (t.sockets ≡ s.sockets)
  unfolding on_socket_ready_read Counted
  broadcast_counts sock s available broadcast =
      let (bytes, w) = net.read sock (net.bytes_available sock s.world) s.world in
      let t = record s { world = w } in
      let (a, b, c, d) = write_others-Counted net sock s.sockets (pack_of bytes) t in
      rw (available, broadcast) (a, ap (λ n. n + length bytes) c, ap (λ n. n + length bytes) d, b)

  -- `writeData` writes a pack once to every socket, where each write is counted in full or reported
  -- as an error, and changes nothing else that the server keeps.
  pub write_data-Counted :
      (p : DataPack) (s : TcpServer Socket World)
      → Counted (length s.sockets) p s (write_data net p s)
  unfolding write_data
  write_data-Counted p s = write_each-Counted net s.sockets p s
