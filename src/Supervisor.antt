-- ===== src/Supervisor.antt =====
-- supervisor.py: the crash-recoverable supervisor of one chain of sessions.
-- State has the durable snapshot and the supervisor object, World what it calls, and Exec the
-- statements of its methods; the methods follow in the order of their calls.
pub mod State
pub mod World
pub mod Exec
pub mod Post
pub mod Journal
pub mod Sound
pub mod Keeps
pub mod Heartbeat
pub mod Usage
pub mod Compaction
pub mod Rotation
pub mod Liveness
pub mod Acknowledge
pub mod Tick
pub mod Start
pub mod Shutdown
