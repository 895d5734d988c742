-- ===== src/Tests.antt =====
-- Runs of the model at concrete inputs, and the theorems applied to them.
mod Deliveries
mod Vectors
mod Clusters
mod Counters
mod Sets
mod Registers
mod Guards
mod Members
mod Stores
mod Repairs
mod Outboxes
mod Frames
mod Encoding
mod Durables
mod Routes
