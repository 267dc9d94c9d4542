-- ===== src/Simulations.antt =====
-- modules/simulations: try-out and practice sessions, their answers and their grading.
pub mod Data
pub mod Scoring
pub mod Sessions
pub mod Grading
pub mod Shuffle
pub mod Start
pub mod Final
pub mod Step
pub mod Graded
pub mod Attempts
pub mod Packages
pub mod Stuck
pub mod Overlap
pub mod Practice
pub mod Views
mod Examples
