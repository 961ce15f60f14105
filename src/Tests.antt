-- ===== src/Tests.antt =====
-- The theorems at concrete inputs, and short runs of the definitions.
mod Queues
mod Requests
mod Events
mod Pools
mod Streams
mod Threads
mod Runtimes
mod Ingests
mod Days
mod Stages
