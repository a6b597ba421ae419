-- ===== src/Tests/Broadcasts.antt =====
-- A run of a server that sends on what it reads.
use ioproxy.Base.{ℕ, ◌+◌, ◌*◌, ◌≡◌, refl, List, [], ◌∷◌, length}
use ioproxy.Io.{pack_of, Signal}
use ioproxy.Device.{errors}
use ioproxy.Device.TcpServer
use ioproxy.Device.TcpServer.{TcpServer, new_server}
use ioproxy.Device.TcpServer.Counts.{others}
use ioproxy.Relay.Broadcast.{Got, broadcast_lem}
use ioproxy.Tests.Devices.{three_at_most}
use ioproxy.Tests.Relays.{office, client}

abbrev two_clients : TcpServer ℕ (ℕ × (List ℕ × List ℕ))
two_clients = record (new_server (0, ([], []))) { sockets = 0 ∷ 1 ∷ [] }

broadcast_lem_example :
    let t = TcpServer.on_socket_ready_read office three_at_most 1 two_clients in
    Got client (7 ∷ 8 ∷ []) two_clients t
    × ((older : List Signal) × (t.emitted ≡ Signal.new_data (pack_of (7 ∷ 8 ∷ [])) ∷ older))
    × (t.bytes_written + 2 * errors t.emitted
        ≡ 0 + 2 * (0 + length (others office 1 two_clients.sockets)))
    × (t.bytes_read ≡ 0 + 2)
    × (t.sockets ≡ 0 ∷ 1 ∷ [])
unfolding TcpServer.on_socket_ready_read others ioproxy.Relay.Server.occurrences
broadcast_lem_example = broadcast_lem client three_at_most 1 two_clients refl refl
