-- ===== src/Kernel.antt =====
-- brain: the types at the kernel's boundary, the state, the effects of a tick, and the tick.
pub mod Toce
pub mod Io
pub mod State
pub mod Valid
pub mod Exec
pub mod Invariants
pub mod Tick
