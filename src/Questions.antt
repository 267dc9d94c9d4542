-- ===== src/Questions.antt =====
-- modules/questions: the question bank, its import and its tags.
pub mod Csv
pub mod Data
pub mod Tags
pub mod Import
pub mod Bank
pub mod Rows
mod Examples
