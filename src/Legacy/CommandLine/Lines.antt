-- ===== src/Legacy/CommandLine/Lines.antt =====
-- legacy/CommandLineInitializer.hpp: IOs written as the arguments that `init` reads.
use ioproxy.Base.{◌≡◌, refl, String, some, List, [], ◌∷◌}
use ioproxy.CmdLine.RoundTrip.{pair_arguments}
use ioproxy.Legacy.Options.{Parameters, Kind, kind_of}

-- An IO as a user gives it, its parameters in the order of the line.
pub record Given : Type 0 where
  pub id : String
  pub kind : Kind
  pub pairs : List (String × String)

abbrev pub type_name : Kind → String
type_name Kind.std_out = "stdout"
type_name Kind.file_writer = "filewriter"
type_name Kind.udp_socket = "udpsocket"
type_name Kind.tcp_socket = "tcpsocket"
type_name Kind.tcp_server = "tcpserver"
type_name Kind.serial_port = "serialport"

abbrev pub io_arguments : List Given → List String → List String
io_arguments [] rest = rest
io_arguments (g ∷ gs) rest =
    "-io" ∷ type_name g.kind ∷ "-name" ∷ g.id ∷ pair_arguments g.pairs (io_arguments gs rest)

abbrev pub insert_pairs : List (String × String) → Parameters → Parameters
insert_pairs [] m = m
insert_pairs (p ∷ pairs) m = insert_pairs pairs (p ∷ m)

pub kind_of-type_name : (k : Kind) → kind_of (type_name k) ≡ some k
unfolding kind_of
kind_of-type_name Kind.std_out = refl
kind_of-type_name Kind.file_writer = refl
kind_of-type_name Kind.udp_socket = refl
kind_of-type_name Kind.tcp_socket = refl
kind_of-type_name Kind.tcp_server = refl
kind_of-type_name Kind.serial_port = refl
