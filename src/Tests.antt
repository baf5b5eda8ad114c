-- ===== src/Tests.antt =====
-- Runs of the models of MMO/Server on small concrete inputs.
mod Machine
mod Rings
mod Frames
mod Sends
mod Grids
mod Worlds
mod Handlers
mod Timeouts
mod Networks
mod Logins
mod Clients
mod Rounds
mod Wires
mod Threads
mod Plays
