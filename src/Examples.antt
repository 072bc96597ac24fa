-- ===== src/Examples.antt =====
-- Runs of the modelled code on concrete inputs.
mod Pool
mod Workers
mod Text
mod Sockets
mod Requests
mod Stamps
mod Web
mod Cards
mod Confirm
