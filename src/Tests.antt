-- ===== src/Tests.antt =====
-- Concrete inputs on which the theorems are applied, and runs of the modelled code.
pub mod Samples
mod TrackerTests
mod MtcTests
mod AssocTests
mod ShadowTests
mod RemoteTests
mod TreeTests
pub mod SlabTests
mod MoverTests
mod ItemTests
mod CacheTests
mod UtilTests
mod StatsTests
mod StoreTests
mod OverloadTests
mod TokenTests
