-- ===== src/Tests/Ports.antt =====
-- Runs of the UDP socket and the serial port, with a small network and a small port.
use ioproxy.Base.{
  ℕ, ◌+◌, ◌≡◌, ◌⊎◌, String, true, false, not, ◌==◌, none, some, List, [], ◌∷◌, length,
}
use ioproxy.Base.Int.{pos, negsuc}
use ioproxy.Io.{Signal}
use ioproxy.Device.{Format}
use ioproxy.Device.Udp.{Net, Udp, Protocol, start}
use ioproxy.Device.SerialPort
use ioproxy.Device.SerialPort.{Port, SerialPort}
use ioproxy.Device.SerialPort.Starting.{start_lem, Started, Broken}
use ioproxy.Factory.UdpSocket as UdpSocketFactory
use ioproxy.Factory.SerialPort as SerialPortFactory

abbrev plain : Format
plain template arguments = template

abbrev Member : ℕ → List ℕ → Type 0
Member g [] = ⊥
Member g (x ∷ xs) = (x ≡ g) ⊎ Member g xs

-- Addresses are numbers, those from 224 on multicast groups; the state is the joined groups.
abbrev groups : Net ℕ ℕ (List ℕ)
groups = record {
  any = 0;
  any_ipv4 = 4;
  any_ipv6 = 6;
  is_null = λ a. a == 0;
  is_multicast = λ a. not (a == 1);
  protocol = λ a. Protocol.ipv4;
  is_equal = λ a b. a == b;
  address_text = λ a. "address";
  format = plain;
  all_interfaces = λ w. (9, 1 ∷ []) ∷ [];
  new_socket = λ w. w;
  bind = λ a p shared w. (true, w);
  set_loopback = λ n w. w;
  set_ttl = λ n w. w;
  set_multicast_interface = λ i w. w;
  join_multicast_group = λ g i w. (true, g ∷ w);
  close = λ w. [];
  is_bound = λ w. true;
  write_datagram = λ bytes a p w. (negsuc 0, w);
  error_string = λ w. "";
}

abbrev two_groups : UdpSocketFactory.Options ℕ
two_groups = record {
  bind_address = some 1;
  bind_port = 5000;
  remote_addresses = (224, 5000) ∷ (225, 5000) ∷ [];
  echo = true;
  multicast_ttl = none;
  multicast_loopback = false;
}

abbrev fresh : Udp (List ℕ)
fresh = record {
  socket = false;
  bytes_read = pos 0;
  bytes_written = pos 0;
  world = [];
  emitted = [];
}

-- A port that refuses a break; the state counts the settings made.
abbrev no_break : Port String ℕ
no_break = record {
  format = plain;
  available_ports = λ w. "COM1" ∷ "COM2" ∷ [];
  info_name = λ i. i;
  is_null = λ i. false;
  set_port = λ i w. w;
  open_read_write = λ w. (true, w);
  set_baud_rate = λ n w. (true, w + 1);
  set_break_enabled = λ b w. (not b, w + 1);
  set_data_bits = λ n w. (true, w + 1);
  set_data_terminal_ready = λ b w. (true, w + 1);
  set_flow_control = λ n w. (true, w + 1);
  set_parity = λ n w. (true, w + 1);
  set_stop_bits = λ n w. (true, w + 1);
  set_request_to_send = λ b w. (true, w + 1);
  is_open = λ w. true;
  close = λ w. w;
  write = λ bytes w. (pos (length bytes), w);
  wait_for_bytes_written = λ w. w;
  error_string = λ w. "unsupported";
  error = λ w. pos 10;
  port_name = λ w. "COM2";
}

abbrev pub com2 : SerialPortFactory.Options
com2 = record {
  port_id = "COM2";
  baudrate = pos 9600;
  databits = 8;
  parity = 0;
  stopbits = 1;
  flow_control = 0;
  break_enabled = true;
  dtr = false;
  rts = false;
}

abbrev closed : SerialPort ℕ
closed = record { bytes_read = 0; bytes_written = 0; world = 0; emitted = [] }

start_lem_example :
    (((SerialPort.start no_break com2 closed).emitted ≡ Signal.started ∷ [])
      × Started no_break com2 0 (SerialPort.start no_break com2 closed).world)
    ⊎ ((m : String) × ((SerialPort.start no_break com2 closed).emitted
          ≡ Signal.startup_error_occured m ∷ [])
        × Broken no_break com2 0 (SerialPort.start no_break com2 closed).world)
start_lem_example = start_lem no_break com2 closed
