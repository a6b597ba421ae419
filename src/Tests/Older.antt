-- ===== src/Tests/Older.antt =====
-- A run of the two older readings of options.
use ioproxy.Base.{◌≡◌, refl, String, none, some, [], ◌∷◌, arith}
use ioproxy.Base.Int.{pos}
use ioproxy.Base.Maps.{lookup}
use ioproxy.Legacy.Factory.{Types, create_io}
use ioproxy.Legacy.Options.{
  Parameters, Conversions, Kind, kind_of, set_options, line_setters, signal_setters,
}
use ioproxy.Legacy.Factory.Same.{create_io-set_options}

abbrev pub numbers : Conversions String
numbers = record {
  to_int = λ s. pos 7;
  to_uint = λ s. 9600;
  to_ushort = λ s. 80;
  number = λ n. "4096";
  at_0 = λ s. none;
  parse_address = λ s. s;
}

abbrev constants : Types
constants = record {
  std_out_type = "stdout";
  tcp_server_type = "tcpserver";
  tcp_socket_type = "tcpsocket";
  udp_socket_type = "udpsocket";
  serial_port_type = "serialport";
  compression_type = "compression";
}

abbrev one_setting : Parameters
one_setting = ("port", "COM1") ∷ ("baudrate", "9600") ∷ []

create_io-set_options_example :
    (kind_of "serialport" ≡ some Kind.serial_port)
    × (create_io numbers constants
          (record { id = "a"; type = "serialport"; parameters = one_setting })
        ≡ some ("a", set_options numbers Kind.serial_port one_setting))
unfolding lookup line_setters signal_setters
create_io-set_options_example =
    create_io-set_options numbers constants Kind.serial_port "a" one_setting
      (record {
        std_out_named = refl;
        tcp_server_named = refl;
        tcp_socket_named = refl;
        udp_socket_named = refl;
        serial_port_named = refl;
      })
      (omega arith)
