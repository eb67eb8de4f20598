-- ===== src/Apic.antt =====
-- The I/O interrupt controllers (kernel/int/apic.hpp, kernel/int/apic.cpp).
pub mod Routing
pub mod Table
pub mod Redirection
pub mod Masking
