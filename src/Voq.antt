-- ===== src/Voq.antt =====
-- simulator/src/buffer_voq.py: what the two buffer organizations share. A list with a cell for each
-- port is a function of the port; the operations test their subscripts, and `none` is IndexError.
pub mod Shared
pub mod Pairs
pub mod Entry
pub mod Ports
pub mod Interface
pub mod History
pub mod Limits
pub mod Fifo
