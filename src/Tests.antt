-- ===== src/Tests.antt =====
-- The theorems at concrete inputs.
mod World
mod LcacheTests
mod BlockCacheTests
mod RecordsTests
mod HandlerTests
mod ThreadsTests
mod ServingTests
mod LoggerTests
mod MainTests
mod MetricTests
mod ApiTests
mod CallsTests
mod DohTests
mod QueryTests
mod UpdaterTests
mod UpstreamTests
