-- ===== src/Tests.antt =====
-- Runs at concrete inputs.
mod Routes
mod Lines
mod Creations
mod Devices
mod Ports
mod Wirings
mod Files
mod Stations
mod Relays
mod Failures
mod Bridges
mod Broadcasts
mod Tapes
mod Utils
mod Sends
mod Older
mod OlderLines
mod OlderIos
mod Licenses
