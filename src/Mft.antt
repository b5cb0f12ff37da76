-- ===== src/Mft.antt =====
-- FS/NTFS/MFT: the records of the Master File Table.
pub mod Record
pub mod FixUps
pub mod Round
pub mod Process
pub mod NonResident
pub mod Questions
pub mod Table
