-- ===== src/Tests.antt =====
-- Tests, and for each theorem with conditions an input at which they hold.
mod Samples
mod CoreTests
mod ChecksumTests
mod ScanTests
mod MaskTests
mod InspectTests
mod AuditTests
mod RecordTests
mod StreamTests
mod GatewayTests
mod ExtractTests
mod NerTests
mod DigestTests
mod DeviceTests
mod EditorTests
mod ClockTests
mod ReportTests
