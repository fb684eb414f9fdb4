-- ===== src/Types.antt =====
-- lib/types: the shared data types of submissions and contests.
pub mod Submission
pub mod Contest
pub mod Order
pub mod Evaluation
pub mod Tests
