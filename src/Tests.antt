-- ===== src/Tests.antt =====
-- Runs of the models at small inputs, and the theorems at inputs that meet their hypotheses.
mod Volume
mod Names
mod Partition
mod Text
mod Files
mod Images
mod Memory
mod Keys
mod Threads
mod Transfers
