-- ===== src/Activator.antt =====
-- activator/interface.go and activator/activator.go: the proxy that holds a container's ports while
-- it is scaled down. `Interface` is what the shim uses of it; `Server` is the eBPF implementation,
-- and `Redirects` proves that it is one; `Reuse` is the wakes of the one over SO_REUSEPORT.
pub mod Interface
pub mod Server
pub mod Reuse
