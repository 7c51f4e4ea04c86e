-- ===== src/Tests.antt =====
-- Concrete inputs: the theorems at them, and runs of the code.
mod Drivers
mod Enclaves
mod Allocators
mod Heaps
mod Layers
mod Skiplists
mod Systems
mod Workloads
mod Machines
mod Supply
mod Rows
mod Fills
mod Lists
mod TwoRows
mod Updates
mod Passes
