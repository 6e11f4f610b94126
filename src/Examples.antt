-- ===== src/Examples.antt =====
-- Runs of the theorems on concrete channels.
mod Keysets
mod Stores
mod Server
mod Payments
mod Curve
mod Close
mod Fields
mod Database
mod Swaps
mod Mint
