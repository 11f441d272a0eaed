-- ===== src/Angluin.antt =====
-- libalf/include/libalf/algorithm_angluin.h: the observation table of L*.
pub mod Table
pub mod Rows
pub mod Fill
pub mod Filling
pub mod Shape
pub mod Adding
pub mod Words
pub mod Full
pub mod Consistent
pub mod Knows
pub mod Complete
pub mod Separating
pub mod Deciding
pub mod Closing
pub mod Growing
pub mod Terminates
pub mod Passes
pub mod Starting
pub mod Symbols
pub mod Counterexample
pub mod Derive
pub mod States
pub mod Hypothesis
pub mod Machine
pub mod Runs
pub mod Pairs
pub mod Sync
pub mod Synced
