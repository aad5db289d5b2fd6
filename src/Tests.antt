-- ===== src/Tests.antt =====
-- Runs of the model on concrete inputs, and an instance of each theorem.
mod Transfers
mod Requests
mod Discovery
mod Serving
mod Booting
mod Booters
mod Remote
mod Web
mod Modes
mod Sample
mod Started
mod Running
mod Embedded
mod Restoring
mod Chaining
