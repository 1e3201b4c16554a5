-- ===== src/Tlica.antt =====
-- brain/tlica: profiles, the maximally-self-defined I, consistency evaluation and what is built
-- on them.
pub mod Profile
pub mod Msi
pub mod PtCns
pub mod Boundary
pub mod Preservation
pub mod Builders
