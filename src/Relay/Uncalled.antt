-- ===== src/Relay/Uncalled.antt =====
-- src/ioproxy/io/TcpSocketIO.cpp: a client socket that nobody calls, and the error that makes its handler fail.
use mathlib.Core.Path.{subst}
use ioproxy.Base.{
  String, Bool-cases, ℕ, suc, ◌≡◌, ◌≢◌, refl, sym, ap, ◌∙◌, inl, inr, false, some, List, [], ◌∷◌,
  map, All, get_elem?, if_false,
}
use ioproxy.Io.{DataPack, Signal, Io}
use ioproxy.Handler.{Handler, State, state_eq}
use ioproxy.Engine.Signals.{Emit, write_data, emit}
use ioproxy.Factory.TcpServer.{Options as ServerOptions}
use ioproxy.Factory.TcpSocket.{Options as SocketOptions}
use ioproxy.Device.TcpServer
use ioproxy.Device.TcpServer.{TcpServer}
use ioproxy.Device.TcpSocket
use ioproxy.Device.TcpSocket.{TcpSocket}
use ioproxy.Station.{second}
use ioproxy.Relay.Reports.{OnlyErrors, absorb, absorb-Spares, absorb-failed, receive_all-absorb}
use ioproxy.Relay.Flow.{IsSink}
use ioproxy.Relay.Events.{logged, occur}
use ioproxy.Relay.Stations.{at_second, oldest_first-IsMild}
use ioproxy.Relay.Pair.{event_of, both_ways, IsHarmless}
use ioproxy.Relay.Client.{write_data-terse, handle-IsMild, IsUncalled}
use ioproxy.Relay.Server.{IsPeer, IsElsewhere, IsServed, sent_to}
use ioproxy.Relay.Slots.{handle-IsSource}
use ioproxy.Relay.Proxy.{Arrival, at_server, at_socket, slot_of, proxy_io, Devices}

-- A handler that has failed drops the data.
pub write_data-failed :
    {S : Type 0} (io : Io S) (deeper : Emit S) (d : ℕ) (p : DataPack) (hs : List (Handler S))
    (h : Handler S)
    → get_elem? hs d ≡ some h
    → h.state ≡ State.failed
    → write_data io deeper d p hs ≡ some hs
unfolding write_data
write_data-failed io deeper d p hs h e failed =
    rw (e, write_data) (if_false _ _ (ap (λ s. state_eq s State.started) failed))

-- No socket takes data by way of a handler that has failed.
abbrev pub Never : {W : Type 0} → TcpSocket W → Type 0
Never t = ⊥

abbrev pub nothing : {W : Type 0} → TcpSocket W → List ℕ
nothing t = []

-- What can happen while the client `c` stays and nobody calls the IOs.
abbrev pub IsFree :
    {A Socket V : Type 0} → TcpServer.Net A Socket V → Socket → Arrival Socket → Type 0
IsFree net c (at_server e) = IsElsewhere net c e
IsFree net c (at_socket e) = IsUncalled e

module _ {A B Socket V W : Type 0} {net : TcpServer.Net A Socket V} (link : TcpSocket.Net B W)
    {c : Socket} (peer : IsPeer net c) (serving : ServerOptions A)
    (connecting : SocketOptions B) where
  pub tcp_socket_io-Never : IsSink (TcpSocket.tcp_socket_io link connecting) Never nothing
  tcp_socket_io-Never = record {
    terse = write_data-terse link connecting;
    takes = λ p t never. elim never [ ];
  }

  pub slot_of-IsHarmless :
      (arrivals : List (Arrival Socket))
      → serving.broadcast ≡ false
      → All (IsFree net c) arrivals
      → All
          (IsHarmless (IsServed net c) Never (sent_to peer) nothing)
          (map (slot_of net link serving connecting) arrivals)
  slot_of-IsHarmless [] quiet free = tt
  slot_of-IsHarmless (at_server e ∷ arrivals) quiet (away, free) =
      (handle-IsSource peer serving e quiet away, slot_of-IsHarmless arrivals quiet free)
  slot_of-IsHarmless (at_socket e ∷ arrivals) quiet (uncalled, free) = (
    record {
      mild = λ t.
          oldest_first-IsMild
            (TcpSocket.handle link connecting e (record t { emitted = [] })).emitted
            (handle-IsMild link connecting e (record t { emitted = [] }) uncalled tt);
      keeps = λ t never. elim never [ ];
    },
    slot_of-IsHarmless arrivals quiet free,
  )

  socket_error-emits :
      (t : TcpSocket W)
      → (m : String) × ((TcpSocket.slot link connecting
            (TcpSocket.handle link connecting TcpSocket.socket_error)
            t).1
          ≡ Signal.error_occured m ∷ [])
  unfolding TcpSocket.handle TcpSocket.on_socket_error_occured TcpSocket.reconnect
  socket_error-emits t = elim (Bool-cases connecting.reconnect) [
    | inl e ↦ rw e (_, refl)
    | inr e ↦ rw e (_, refl)
  ]

  -- The handler of the socket after an error of the socket.
  pub socket_error-fails :
      (fuel : ℕ) (t : TcpSocket W) (g h : Handler (Devices Socket V W)) (k : ℕ)
      → h.io ≡ second t
      → h.status_slots ≡ suc k
      → h.data_slots ≡ 1
      → (h' : Handler (Devices Socket V W)) × (occur
            (proxy_io net link serving connecting)
            (suc (suc fuel))
            both_ways
            (event_of (slot_of net link serving connecting (at_socket TcpSocket.socket_error)))
            (g ∷ h ∷ [])
          ≡ some (g ∷ h' ∷ [], []))
        × (h'.state ≡ State.failed)
        × (h'.status_slots ≡ suc k)
        × (h'.data_slots ≡ 1)
  unfolding occur emit
  socket_error-fails fuel t g h k is_socket slots one =
      let io = proxy_io net link serving connecting in
      let act = at_second (
        TcpSocket.slot link connecting (TcpSocket.handle link connecting TcpSocket.socket_error)) in
      let signals = (act h.io).1 in
      let h1 : Handler (Devices Socket V W) = record h { io = (act h.io).0 } in
      let (m, emits) = socket_error-emits t in
      let e : signals ≡ Signal.error_occured m ∷ [] = ap (λ s. (act s).1) is_socket ∙ emits in
      let only = subst OnlyErrors (sym e) tt in
      let spares = absorb-Spares signals h1 only in
      (
        absorb signals h1,
        rw
            (
              receive_all-absorb io (emit io (suc fuel) both_ways) both_ways 1 signals (g ∷ h1 ∷ [])
                  only,
              occur,
            )
            (ap (λ l. some (g ∷ absorb signals h1 ∷ [], logged 1 l)) e),
        absorb-failed signals h1 k only (subst (λ l. l ≢ []) (sym e) (λ q. cc)) slots,
        spares.status_slots ∙ slots,
        spares.data_slots ∙ one,
      )
