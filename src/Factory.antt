-- ===== src/Factory.antt =====
-- The built-in IO factories: what they share. `create` returns an IO by its options, an error as a
-- value, or throws, where it takes the value of an `expected` that holds none.

pub mod TcpSocket
pub mod TcpServer
pub mod WebSocket
pub mod WebSocketServer
pub mod SerialPort
pub mod ByteGenerator
pub mod UdpSocket
pub mod UdpRemotes
pub mod Builtin
pub mod Meaning
use ioproxy.Base.{ℕ, ◌-◌, ◌%◌, ◌^◌, ltb, if◌then◌else◌, Expected, Error, ok, err}
use ioproxy.Base.Int.{ℤ, pos, negsuc}

pub data Outcome {ℓ} (A : Type ℓ) : Type ℓ where
  done : A → Outcome A
  failed : Error → Outcome A
  thrown : Error → Outcome A

infixl 5 ◌>>=◌ ◌>>◌
abbrev pub ◌>>=◌ {ℓ κ} : {A : Type ℓ} {B : Type κ} → Outcome A → (A → Outcome B) → Outcome B
done a >>= f = f a
failed e >>= f = failed e
thrown e >>= f = thrown e

abbrev pub ◌>>◌ {ℓ} : {B : Type ℓ} → Outcome (Unit {0}) → Outcome B → Outcome B
m >> k = m >>= λ _. k

-- `if (!e) return tl::make_unexpected(e.error());`
abbrev pub check {ℓ} : {A : Type ℓ} → Expected A → Outcome A
check (ok a) = done a
check (err e) = failed e

-- `e.value()`
abbrev pub value {ℓ} : {A : Type ℓ} → Expected A → Outcome A
value (ok a) = done a
value (err e) = thrown e

-- `uint16_t x = u;`
abbrev pub to_uint16 : ℕ → ℕ
to_uint16 u = u % 2 ^ 16

-- `int x = u;` for an unsigned 32-bit `u`.
abbrev pub to_int32 : ℕ → ℤ
to_int32 u =
    if ltb (u % 2 ^ 32) (2 ^ 31) then pos (u % 2 ^ 32) else negsuc (2 ^ 32 - 1 - u % 2 ^ 32)

-- `qint64 x = u;` for an unsigned 64-bit `u`.
abbrev pub to_int64 : ℕ → ℤ
to_int64 u =
    if ltb (u % 2 ^ 64) (2 ^ 63) then pos (u % 2 ^ 64) else negsuc (2 ^ 64 - 1 - u % 2 ^ 64)
