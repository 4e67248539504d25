-- ===== src/Processor.antt =====
-- internal/processor/processor.go: checking what a module returned.
pub mod Keys
pub mod Reachable
pub mod WalkEnds
pub mod WalkFinds
pub mod Context
pub mod Run
pub mod Process
pub mod Rule
pub mod Findings
pub mod Firewall
pub mod Sound
pub mod Answers
pub mod Settled
pub mod Violation
