-- ===== src/Agents.antt =====
-- src/grader/agent_runtime.py: agents that run as processes and exchange lines of JSON with the
-- referee.
pub mod Reader
pub mod Process
pub mod Runtime
mod Tests
