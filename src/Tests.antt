-- ===== src/Tests.antt =====
-- The theorems at concrete inputs: on values, on a small DPF and its keys, on the tree, on constructed
-- objects, on evaluation contexts, and on the interval gate.
mod Setup
mod Doubles
mod Create
mod Objects
mod Contexts
mod At
mod Values
mod Keys
mod Tree
mod Gates
mod Comparison
mod Samples
mod Vectors
