-- ===== src/Tests.antt =====
-- The theorems at concrete inputs, one module for each group of parts.
mod Octets
mod Rules
mod Arrays
mod Trees
mod Buffers
mod Pools
mod Sets
mod Replies
mod Requests
mod Transactions
mod Conditions
