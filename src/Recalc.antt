-- ===== src/Recalc.antt =====
-- libs/recalc_engine: the recalculation engine of the trackers.
pub mod Coord
pub mod Worklist
pub mod Graph
pub mod Pattern
pub mod Parser
pub mod Token
pub mod Syntax
pub mod Value
pub mod Repository
pub mod Engine
