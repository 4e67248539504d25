-- ===== src/Modules.antt =====
-- The modules of modules/: what they compute from the answers of services and of the network.
pub mod Versions
pub mod VersionOrder
pub mod Ranges
pub mod Numbers
pub mod RangeSpec
pub mod InRange
pub mod Applicable
pub mod Dates
pub mod Advisory
pub mod Writing
pub mod Extract
pub mod Cve
pub mod Cpe
pub mod Numbered
pub mod NumberedCve
pub mod NumberedAnswer
pub mod VulnLookup
pub mod CpeNumbered
pub mod VulnNumbered
pub mod Subdomains
pub mod SubdomainChain
pub mod Collector
pub mod Latest
