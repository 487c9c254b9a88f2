-- ===== src/Classic.antt =====
-- The classic judge, src/grader/classic.py: processes and their verdicts, the words of an output, and
-- the judging of a submission.
pub mod Process
pub mod Settings
pub mod Config
pub mod Words
pub mod Checker
pub mod Judge
pub mod Report
pub mod Judged
pub mod Answers
mod Tests
pub mod Limits
