-- ===== src/Filter.antt =====
-- libalf/include/libalf/filter.h: filters answer a query from what a knowledgebase knows. A class of
-- the hierarchy is a constructor; a sub-filter pointer that is NULL is `null`.
mod Defs
pub mod Laws
unfoldable pub use Defs.*
