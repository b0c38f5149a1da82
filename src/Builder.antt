-- ===== src/Builder.antt =====
-- src/builder.h: class BuilderBase, from an edge list to a graph in CSR form.
pub mod PrefixSum
pub mod Degrees
pub mod Csr
pub mod Squish
pub mod Make
pub mod Relabel
