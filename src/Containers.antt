-- ===== src/Containers.antt =====
-- The standard containers that the barrier blocks keep structures in: `std::map` by the order of
-- its keys, and `std::multimap<double, T>`, in which an entry goes behind those of an equal key.
pub mod Multimap
pub mod Map
