-- ===== src/Tests.antt =====
-- Sample data, and the theorems applied to it.
mod Samples
mod BoundaryTests
mod TuyaTests
mod PayloadTests
mod MappingTests
mod DriverTests
mod ServerTests
mod DiscoveryTests
mod RuntimeTests
mod TextTests
mod LocalSamples
mod LocalTests
mod ClientTests
mod ConfigTests
mod SettingsTests
mod ExchangeTests
