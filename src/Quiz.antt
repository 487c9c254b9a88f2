-- ===== src/Quiz.antt =====
-- src/grader/quiz.py: the scorer of quizzes. What is read from files (the fields of judge.yaml and the
-- decoded JSON) is given.
pub mod Question
pub mod Grade
pub mod Valid
pub mod Loaded
pub mod Sheet
pub mod Key
mod Tests
