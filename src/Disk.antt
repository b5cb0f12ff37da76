-- ===== src/Disk.antt =====
-- disk/partition: the partitions of a disk, in the tables of a master boot record and of a GUID
-- partition table.
pub mod Reader
pub mod Mbr
pub mod Gpt
pub mod Partitions
pub mod Discovery
pub mod Workers
