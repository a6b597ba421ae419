-- ===== src/Relay.antt =====
-- src/ioproxy/Engine.cpp, Handler.cpp and the IOs together: engines that pass on what their IOs read.
pub mod Reports
pub mod Flow
pub mod Events
pub mod Flows
pub mod Traffic
pub mod Stations
pub mod Client
pub mod Server
pub mod Slots
pub mod Told
pub mod Heard
pub mod Said
pub mod Pair
pub mod Logs
pub mod Words
pub mod Proxy
pub mod Serial
pub mod Uncalled
pub mod Failing
pub mod Bridge
pub mod Broadcast
pub mod Starting
