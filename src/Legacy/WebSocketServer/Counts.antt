-- ===== src/Legacy/WebSocketServer/Counts.antt =====
-- Proofs on legacy/WebSocketServerIO.hpp: the limit on its sockets, and what it counts and emits.
use mathlib.Core.List.{append_assoc, append-nil}
use ioproxy.Base.{
  ℕ, ◌+◌, ◌≤◌, ◌≡◌, refl, sym, ap, ◌∙◌, List, [], ◌∷◌, ◌++◌, length, length-append, arith,
  if◌then◌else◌, Bool-cases, Option-cases, inl, inr,
}
use ioproxy.Base.Int.{pos, pos_part, ltb_ℤ, eq_ℤ}
use ioproxy.Io.{DataPack, Signal, count}
use ioproxy.Legacy.WebSocketServer.{
  Net, Options, WebSocketServer, Event, new_server, start, stop, send, write_socket, write_each,
  write_data, on_server_accept_error, on_server_new_connection, on_binary_message_received,
  on_text_message_received, on_socket_error, remove_one, on_socket_disconnected, handle, run,
}

module _ {Address Socket World : Type 0} (net : Net Address Socket World) where
  -- The sizes of the messages: the bytes of the binary ones and the sizes of the texts.
  abbrev pub sizes : List (Event Socket) → ℕ
  sizes [] = 0
  sizes (Event.binary_message m ∷ events) = length m + sizes events
  sizes (Event.text_message m ∷ events) = net.size m + sizes events
  sizes (_ ∷ events) = sizes events

  -- The messages as bytes, those of the texts in UTF-8, in order.
  abbrev pub contents : List (Event Socket) → List (List ℕ)
  contents [] = []
  contents (Event.binary_message m ∷ events) = m ∷ contents events
  contents (Event.text_message m ∷ events) = net.to_utf8 m ∷ contents events
  contents (_ ∷ events) = contents events

-- The bytes of each data pack among some signals, which are the newest first; the oldest pack first.
abbrev pub payloads : List Signal → List (List ℕ)
payloads [] = []
payloads (Signal.new_data p ∷ signals) = payloads signals ++ (p.bytes ∷ [])
payloads (_ ∷ signals) = payloads signals

module _ {Address Socket World : Type 0} (opts : Options Address) where
  -- A server within its limit that counted `n` bytes as read and emitted the packs `m`.
  abbrev pub Tallies : ℕ → List (List ℕ) → WebSocketServer Socket World → Type 0
  Tallies n m s =
      (length s.sockets ≤ pos_part opts.max_connections)
      × (s.bytes_read ≡ n)
      × (payloads s.emitted ≡ m)

module _ {Address Socket World : Type 0} (net : Net Address Socket World)
    (opts : Options Address) where
  write_socket-Tallies :
      {n : ℕ} {m : List (List ℕ)} (x : Socket) (p : DataPack) (s : WebSocketServer Socket World)
      → Tallies opts n m s
      → Tallies opts n m (write_socket net opts x p s)
  unfolding write_socket
  write_socket-Tallies x p s t =
      elim (Bool-cases (eq_ℤ (send net opts.write_data_mode x p.bytes s.world).0 (pos (count p)))) [
        | inl e ↦ rw (e, write_socket) t
        | inr e ↦ rw (e, write_socket) t
      ]

  write_each-Tallies :
      {n : ℕ} {m : List (List ℕ)} (xs : List Socket) (p : DataPack)
      (s : WebSocketServer Socket World)
      → Tallies opts n m s
      → Tallies opts n m (write_each net opts xs p s)
  unfolding write_each
  write_each-Tallies [] p s t = t
  write_each-Tallies (x ∷ xs) p s t =
      write_each-Tallies xs p (write_socket net opts x p s) (write_socket-Tallies x p s t)

  length-remove_one :
      (sock : Socket) (xs : List Socket) → length (remove_one net sock xs) ≤ length xs
  unfolding remove_one
  length-remove_one sock [] = omega arith
  length-remove_one sock (x ∷ xs) = ground (arith, length-remove_one sock xs)

  on_server_new_connection-Tallies :
      {n : ℕ} {m : List (List ℕ)} (s : WebSocketServer Socket World)
      → Tallies opts n m s
      → Tallies opts n m (on_server_new_connection net opts s)
  unfolding on_server_new_connection
  on_server_new_connection-Tallies s t =
      elim (Option-cases (net.next_pending_connection s.world).0) [
        | inl e ↦ rw (e, on_server_new_connection) t
        | inr (sock, e) ↦
            rw (e, on_server_new_connection)
              (elim (Bool-cases (ltb_ℤ (pos (length s.sockets)) opts.max_connections)) [
                | inl f ↦ rw f (ground (arith, t.0, length-append s.sockets (sock ∷ [])), t.1, t.2)
                | inr f ↦ rw f t
              ])
      ]

  start-Tallies :
      {n : ℕ} {m : List (List ℕ)} (s : WebSocketServer Socket World)
      → Tallies opts n m s
      → Tallies opts n m (start net opts s)
  unfolding start
  start-Tallies s t =
      elim (Bool-cases
        (net.listen (if net.is_null opts.bind_address then net.any else opts.bind_address)
          opts.bind_port s.world).0) [ inl e ↦ rw (e, start) t | inr e ↦ rw (e, start) t ]

  add_assoc : (a b c : ℕ) → (a + b) + c ≡ a + (b + c)
  add_assoc a b c = omega arith

  Tallies-same :
      {n k : ℕ} {m l : List (List ℕ)} (s : WebSocketServer Socket World)
      → n ≡ k
      → m ≡ l
      → Tallies opts n m s
      → Tallies opts k l s
  Tallies-same s e f (a, b, c) = (a, b ∙ e, c ∙ f)

  run_from-Tallies :
      (events : List (Event Socket)) (n : ℕ) (m : List (List ℕ)) (s : WebSocketServer Socket World)
      → Tallies opts n m s
      → Tallies opts (n + sizes net events) (m ++ contents net events) (run net opts events s)
  unfolding run handle stop on_server_accept_error on_binary_message_received
      on_text_message_received on_socket_error on_socket_disconnected write_data
  run_from-Tallies [] n m s t = (t.0, omega (arith, t.1), t.2 ∙ sym (append-nil m))
  run_from-Tallies (Event.call_start ∷ events) n m s t =
      run_from-Tallies events n m (start net opts s) (start-Tallies s t)
  run_from-Tallies (Event.call_stop ∷ events) n m s t =
      run_from-Tallies events n m (stop net s) (omega arith, t.1, t.2)
  run_from-Tallies (Event.new_connection ∷ events) n m s t =
      run_from-Tallies events n m (on_server_new_connection net opts s)
        (on_server_new_connection-Tallies s t)
  run_from-Tallies (Event.call_write_data p ∷ events) n m s t =
      run_from-Tallies events n m (write_each net opts s.sockets p s)
        (write_each-Tallies s.sockets p s t)
  run_from-Tallies (Event.accept_error e ∷ events) n m s t =
      run_from-Tallies events n m (on_server_accept_error net e s) t
  run_from-Tallies (Event.binary_message b ∷ events) n m s t =
      Tallies-same (run net opts events (on_binary_message_received net b s))
        (add_assoc n (length b) (sizes net events)) (append_assoc m (b ∷ []) (contents net events))
        (run_from-Tallies events (n + length b) (m ++ (b ∷ [])) (on_binary_message_received net b s)
          (t.0, omega (arith, t.1), ap (λ l. l ++ (b ∷ [])) t.2))
  run_from-Tallies (Event.text_message b ∷ events) n m s t =
      Tallies-same (run net opts events (on_text_message_received net b s))
        (add_assoc n (net.size b) (sizes net events))
        (append_assoc m (net.to_utf8 b ∷ []) (contents net events))
        (run_from-Tallies events (n + net.size b) (m ++ (net.to_utf8 b ∷ []))
          (on_text_message_received net b s)
          (t.0, omega (arith, t.1), ap (λ l. l ++ (net.to_utf8 b ∷ [])) t.2))
  run_from-Tallies (Event.socket_error x ∷ events) n m s t =
      run_from-Tallies events n m (on_socket_error net x s) t
  run_from-Tallies (Event.disconnected x ∷ events) n m s t =
      run_from-Tallies events n m (on_socket_disconnected net x s)
        (omega (arith, t.0, length-remove_one x s.sockets), t.1, t.2)

  -- After any events, an older server of web sockets has at most `maxConnections` sockets; it counted as
  -- read the bytes of each binary message and the size of each text, and emitted one pack for each message, in
  -- order, with the bytes of the message, those of a text in UTF-8.
  pub run-Tallies :
      (events : List (Event Socket)) (w : World)
      → Tallies opts (sizes net events) (contents net events) (run net opts events (new_server w))
  run-Tallies events w =
      Tallies-same (run net opts events (new_server w)) (omega arith) refl
        (run_from-Tallies events 0 [] (new_server w) (omega arith, refl, refl))
