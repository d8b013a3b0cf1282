-- ===== src/Tls.antt =====
-- The parts of src/KernelHttpLib/tls that choose what a connection may use.
pub mod Capabilities
pub mod Policy
