-- ===== src/Examples.antt =====
-- The theorems at concrete inputs, and tests of the definitions.
mod Queues
mod Sets
mod Fees
mod Blocks
mod Tickets
mod Programs
mod Hooks
mod Metering
mod Submission
mod Upgrades
mod Costs
mod Owners
