-- ===== src/Kearns.antt =====
-- libalf/include/libalf/algorithm_kearns_vazirani.h: the discrimination tree.
pub mod Tree
pub mod Tasks
pub mod Perform
pub mod Automaton
pub mod Advance
pub mod Sifting
pub mod Ancestor
pub mod Separation
pub mod Invariant
pub mod Searching
pub mod Replacing
pub mod Entries
pub mod Splitting
pub mod Split
pub mod Divide
pub mod Progress
pub mod Binary
pub mod Computing
pub mod Compute
pub mod Working
pub mod Rounds
pub mod Counterexample
pub mod Beginning
pub mod Linear
