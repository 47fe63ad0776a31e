-- ===== src/Memory.antt =====
-- src/system_info/memory_info.hpp and the types under src/system_info/memory: the map of memory
-- regions, the fake huge pages that are cut from them, and the calls that move pages.
pub mod SortedMap
pub mod Region
pub mod Thp
pub mod Move
mod Tests
