-- ===== src/Relay/Heard.antt =====
-- src/ioproxy/io/TcpServerIO.cpp: what a server read of its sockets is what it emits.
use mathlib.Core.List.{append_assoc, append-nil}
use ioproxy.Base.{
  ℕ, ◌≡◌, refl, sym, ap, ◌∙◌, inl, inr, false, Bool-cases, Option-cases, List, [], ◌∷◌, ◌++◌,
  length, ◌==◌,
}
use ioproxy.Base.Int.{ℤ, pos, eq_ℤ, ltb_ℤ}
use ioproxy.Io.{DataPack, Signal, count}
use ioproxy.Factory.TcpServer.{Options}
use ioproxy.Device.{oldest_first}
use ioproxy.Device.TcpServer
use ioproxy.Device.TcpServer.{Net, TcpServer, Event, slot, tcp_server_io, write_socket, write_each}
use ioproxy.Relay.Server.{IsElsewhere}

-- The bytes of the data packs among some signals, in their order.
unfoldable pub bytes_of : List Signal → List ℕ
bytes_of [] = []
bytes_of (Signal.new_data p ∷ signals) = p.bytes ++ bytes_of signals
bytes_of (Signal.started ∷ signals) = bytes_of signals
bytes_of (Signal.startup_error_occured m ∷ signals) = bytes_of signals
bytes_of (Signal.error_occured m ∷ signals) = bytes_of signals

pub bytes_of-append : (xs ys : List Signal) → bytes_of (xs ++ ys) ≡ bytes_of xs ++ bytes_of ys
unfolding bytes_of
bytes_of-append [] ys = refl
bytes_of-append (Signal.new_data p ∷ xs) ys =
    ap (λ l. p.bytes ++ l) (bytes_of-append xs ys)
    ∙ sym (append_assoc p.bytes (bytes_of xs) (bytes_of ys))
bytes_of-append (Signal.started ∷ xs) ys = bytes_of-append xs ys
bytes_of-append (Signal.startup_error_occured m ∷ xs) ys = bytes_of-append xs ys
bytes_of-append (Signal.error_occured m ∷ xs) ys = bytes_of-append xs ys

-- What was read of the sockets of a server, all together, in the order of the reads.
pub record IsHeard {Address Socket World : Type 0} (net : Net Address Socket World) : Type 0 where
  pub heard : World → List ℕ
  pub read : (x : Socket) (n : ℕ) (w : World) → let r = net.read x n w in heard r.1 ≡ heard w ++ r.0
  pub write : (x : Socket) (bytes : List ℕ) (w : World) → heard (net.write x bytes w).1 ≡ heard w
  pub set_read_buffer_size :
      (x : Socket) (n : ℤ) (w : World) → heard (net.set_read_buffer_size x n w) ≡ heard w
  pub next_pending_connection : (w : World) → heard (net.next_pending_connection w).1 ≡ heard w
  pub abort : (x : Socket) (w : World) → heard (net.abort x w) ≡ heard w
  pub delete : (x : Socket) (w : World) → heard (net.delete x w) ≡ heard w
  pub delete_later : (x : Socket) (w : World) → heard (net.delete_later x w) ≡ heard w

module _ {Address Socket World : Type 0} {net : Net Address Socket World} (ear : IsHeard net)
    (opts : Options Address) where
  abbrev pub heard_by : TcpServer Socket World → List ℕ
  heard_by s = ear.heard s.world

  write_socket-heard :
      (x : Socket) (p : DataPack) (s : TcpServer Socket World)
      → heard_by (write_socket net x p s) ≡ heard_by s
  unfolding write_socket
  write_socket-heard x p s =
      let same = ear.write x p.bytes s.world in
      elim (Bool-cases (eq_ℤ (net.write x p.bytes s.world).0 (pos (count p)))) [
        | inl full ↦ rw (full, write_socket) same
        | inr short ↦ rw (short, write_socket) same
      ]

  write_each-heard :
      (xs : List Socket) (p : DataPack) (s : TcpServer Socket World)
      → heard_by (write_each net xs p s) ≡ heard_by s
  unfolding write_each
  write_each-heard [] p s = refl
  write_each-heard (x ∷ xs) p s =
      write_each-heard xs p (write_socket net x p s) ∙ write_socket-heard x p s

  -- A write reads nothing.
  pub write_data-heard :
      (p : DataPack) (s : TcpServer Socket World)
      → heard_by ((tcp_server_io net opts).write_data p s).0 ≡ heard_by s
  unfolding tcp_server_io TcpServer.write_data
  write_data-heard p s = write_each-heard s.sockets p (record s { emitted = [] })

  -- Between two states, what is newly heard is newly emitted.
  abbrev Repeats : TcpServer Socket World → TcpServer Socket World → Type 0
  Repeats s t = heard_by t ≡ heard_by s ++ bytes_of (oldest_first t.emitted)

  new_connection-Repeats :
      (s : TcpServer Socket World)
      → Repeats s (TcpServer.on_server_new_connection net opts (record s { emitted = [] }))
  unfolding TcpServer.on_server_new_connection bytes_of
  new_connection-Repeats s =
      let w = (net.next_pending_connection s.world).1 in
      let same = ear.next_pending_connection s.world in
      let nothing = sym (append-nil (heard_by s)) in
      elim (Option-cases (net.next_pending_connection s.world).0) [
        | inl e ↦ rw (e, TcpServer.on_server_new_connection) (same ∙ nothing)
        | inr (x, e) ↦
            rw (e, TcpServer.on_server_new_connection)
              (elim (Bool-cases (ltb_ℤ (pos (length s.sockets)) opts.max_connections)) [
                | inl below ↦
                    rw below (ear.set_read_buffer_size x opts.read_buffer_size w ∙ (same ∙ nothing))
                | inr full ↦
                    rw full (ear.delete x (net.abort x w) ∙ (ear.abort x w ∙ (same ∙ nothing)))
              ])
      ]

  ready_read-Repeats :
      (x : Socket) (s : TcpServer Socket World)
      → opts.broadcast ≡ false
      → Repeats s (TcpServer.on_socket_ready_read net opts x (record s { emitted = [] }))
  unfolding TcpServer.on_socket_ready_read bytes_of
  ready_read-Repeats x s quiet =
      let n = net.bytes_available x s.world in
      elim (Bool-cases (n == 0)) [
        | inl empty ↦ rw empty (sym (append-nil (heard_by s)))
        | inr available ↦
            rw (available, quiet)
              (ear.read x n s.world
                ∙ ap (λ l. heard_by s ++ l) (sym (append-nil (net.read x n s.world).0)))
      ]

  -- Whatever happens, what a server without broadcast newly reads is what it emits.
  pub handle-heard :
      (c : Socket) (event : Event Socket) (s : TcpServer Socket World)
      → opts.broadcast ≡ false
      → IsElsewhere net c event
      → let r = slot net (TcpServer.handle net opts event) s in
        heard_by r.0 ≡ heard_by s ++ bytes_of r.1
  unfolding TcpServer.handle TcpServer.on_server_accept_error TcpServer.on_socket_error_occured
      TcpServer.on_socket_disconnected bytes_of
  handle-heard c Event.new_connection s quiet away = new_connection-Repeats s
  handle-heard c (Event.accept_error error) s quiet away = sym (append-nil (heard_by s))
  handle-heard c (Event.ready_read x) s quiet away = ready_read-Repeats x s quiet
  handle-heard c (Event.socket_error x) s quiet away = sym (append-nil (heard_by s))
  handle-heard c (Event.disconnected x) s quiet away =
      ear.delete_later x s.world ∙ sym (append-nil (heard_by s))
  handle-heard c Event.call_start s quiet away = elim away [ ]
  handle-heard c Event.call_stop s quiet away = elim away [ ]
  handle-heard c (Event.call_write_data p) s quiet away = elim away [ ]
