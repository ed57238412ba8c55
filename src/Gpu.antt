-- ===== src/Gpu.antt =====
-- src/gpu.c: the state of the GPU and its reset. Children: the register file (Control.antt), the
-- video memory (Tiles.antt), a scan line (Render.antt), the mode machine (Step.antt).
pub mod Control
pub mod Tiles
pub mod Render
pub mod Step
pub mod Invariant
pub mod State
pub use State.*
