-- ===== src/Legacy.antt =====
-- legacy: an older version of the program, kept in the repository and not built.
pub mod App
pub mod Options
pub mod Factory
pub mod Context
pub mod CommandLine
pub mod WebSocketServer
pub mod TextIo
pub mod DataGenerator
pub mod License
