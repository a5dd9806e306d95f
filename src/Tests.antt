-- ===== src/Tests.antt =====
-- The scenarios of ts/synclog/test/memory-sync.test.ts, and runs of the SDK on sample data.
mod Samples
mod GoSamples
mod Scenarios
mod LiveScenarios
mod Store
mod Sync
mod Settling
mod Live
mod Log
mod Overrun
mod Choice
mod GoStorage
mod GoWatchers
mod GoGateway
mod GoWaits
