-- ===== src/ChunkManager/Invariant.antt =====
-- What holds of the chunk manager after any sequence of its operations, in one module for each part
-- of the state.
pub mod Registry
pub mod Register
pub mod Entry
pub mod Held
pub mod Moves
pub mod Removal
pub mod Placing
pub mod Steps
pub mod Same
pub mod Reach
pub mod Runs
