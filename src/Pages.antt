-- ===== src/Pages.antt =====
-- src/migration/performance/mempages_table.hpp: the table of sampled memory pages.
pub mod Row
pub mod Table
pub mod Means
mod Tests
