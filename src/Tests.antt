-- ===== src/Tests.antt =====
-- Runs of the models on small inputs, and the theorems applied to them.
mod Queues
mod Building
mod Sharing
mod Making
mod Counting
mod Options
mod Labels
mod Verifying
mod Files
mod Regions
mod Reading
mod Searching
mod Threads
mod Generating
mod Picking
