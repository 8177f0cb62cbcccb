-- ===== src/Metis.antt =====
-- hermit/apps/metis/lib: the MapReduce library.
pub mod Order
pub mod Types
pub mod Bsearch
pub mod Values
pub mod Arr
pub mod KeyvalsArray
pub mod Estimation
pub mod Splitter
pub mod KeyvalArray
pub mod KeyvalsLenArray
pub mod Mapper
pub mod Reduce
pub mod Mergesort
pub mod Psrs
pub mod Rbktsmgr
pub mod Kvstore
pub mod Tests
