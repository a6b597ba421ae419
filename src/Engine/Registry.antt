-- ===== src/Engine/Registry.antt =====
-- src/ioproxy/Engine.cpp: the registry of factories.
pub mod Spec
pub mod Ids
use ioproxy.Base.{
  String, Option, none, some, List, [], ◌∷◌, if◌then◌else◌, Expected, ok, err, ◌>>=◌,
  null_parameter, already_registered, not_registered,
}
use ioproxy.Base.Maps.{lookup, insert, contains}
use ioproxy.Factory.Builtin.{
  Kind, byte_generator, serial_port, std_out, tcp_socket, tcp_server, udp_socket, web_socket,
  web_socket_server, get_id,
}

-- `QMap<QString, IOFactoryBase*>`
abbrev pub Factories : Type 0 → Type 0
Factories F = List (String × F)

module _ {F : Type 0} (id_of : F → String) where
  -- `none` is the null pointer.
  unfoldable pub register_io_factory : Option F → Factories F → Expected (Factories F)
  unfolding contains insert
  register_io_factory none m = err null_parameter
  register_io_factory (some f) m =
      if contains (id_of f) m then err (already_registered (id_of f)) else ok (insert (id_of f) f m)

  unfoldable pub find_factory_by_id : Factories F → String → Expected F
  unfolding lookup
  find_factory_by_id m id = elim (lookup id m) [ none ↦ err (not_registered id) | some f ↦ ok f ]

  unfoldable pub register_all : List F → Factories F → Expected (Factories F)
  unfolding register_io_factory
  register_all [] m = ok m
  register_all (f ∷ fs) m = register_io_factory (some f) m >>= register_all fs

-- The factories that `registerBuiltIn` makes, in its order.
abbrev pub built_in : List Kind
built_in =
    byte_generator ∷ serial_port ∷ std_out ∷ tcp_socket ∷ tcp_server ∷ udp_socket ∷ web_socket
    ∷ web_socket_server ∷ []

unfoldable pub register_built_in : Factories Kind → Expected (Factories Kind)
unfolding register_all get_id
register_built_in m = register_all get_id built_in m
