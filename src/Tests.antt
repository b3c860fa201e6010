-- ===== src/Tests.antt =====
-- The theorems at concrete inputs, and runs of the modelled code.
mod Maps
mod Transactions
mod Channels
mod Caches
mod Sequences
mod Agents
mod Specs
mod Atoms
mod MultiFns
mod Readers
mod Numbers
mod PriorityMaps
mod Hosted
mod Optimizers
mod Memos
mod Hashes
mod Importers
mod Delays
