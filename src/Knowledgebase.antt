-- ===== src/Knowledgebase.antt =====
-- libalf/include/libalf/knowledgebase.h.
pub mod Node
pub mod Base
pub mod Equivalence
pub mod Graded
pub mod Ancestors
pub mod Serial
