-- ===== src/Attributes.antt =====
-- FS/NTFS/MFT/attributes: the attributes of an MFT record.
pub mod Header
pub mod RunList
pub mod Fields
pub mod Index
pub mod AttrList
pub mod Bitmap
pub mod Attribute
