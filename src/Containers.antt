-- ===== src/Containers.antt =====
-- `lib::vector` and `lib::map` (kernel/lib/vector.hpp, kernel/lib/map.hpp).
pub mod Vector
pub mod Map
