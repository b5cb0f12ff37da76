-- ===== src/Lib.antt =====
-- MFTExtractor reads NTFS file systems from disks and images: it finds the partitions, collects the
-- master file table ($MFT), decodes its records and their attributes, connects the records, selects
-- some of them and reads their content. It also decodes the trees of BTRFS and LVM2 volumes.
--
-- The files, by the part of the program that they are about:
-- - Base: names of the libraries, Boolean tests, lists and signed integers over the native numbers.
-- - Go: what the code rests on in the language and its library. Outcome is a result, a panic, or the
--   loss of the fuel of a loop; Slice has a length and a capacity; Text and Path are strings and
--   filepath.Join.
-- - Utils: utils/utils.go. Unmarshal is a function on a list of field kinds, which stands for the
--   struct that the code reflects on, and a byte slice; Endian and Bytes hold the other decoders.
-- - Attributes: FS/NTFS/MFT/attributes. Header and RunList are attributes.go, AttrList attrlist.go,
--   Bitmap bitmap.go, Index indexattributes.go, Fields the attributes that are one struct.
-- - Mft: FS/NTFS/MFT/MFT.go and Table.go. Record is the data type with its questions; FixUps, Round and
--   Process are the parts of Record.Process (process_record); Table holds the passes over all records
--   (process_records, get_record, create_linked_records, find_parent_records, calculate_file_sizes), and
--   NonResident reads the attributes that stand in clusters of their own. Questions holds what MFT.go
--   can ask of a record and no pass asks.
--   Pointers to records lead into the table and are indices of it.
-- - Data: LocateData and LocateDataAsync of MFT.go, over a disk reader that is a parameter.
-- - Filters: filters/filters.go and filtermanager/manager.go, with the tests of MFT.go they call.
-- - Tree: tree/builder.go. A node's pointer to its parent is the way by which it is reached.
-- - Disk: disk/partition/MBR and disk/partition/GPT, the tables of partitions. Partitions holds the two
--   interfaces, Volume and Partition, and LocateVolume; Discovery is disk/disk.go, with Disk as its
--   state and process_disk as Disk.Process; Workers are Worker and AsyncWorker.
-- - Volume: disk/volume/ntfs.go. Process composes the selection of the records (select_mft) with the
--   passes of Mft.Table and Mft.NonResident (process_ntfs).
-- - Lvm: disk/volume/lvm.go, the headers of an LVM2 volume.
-- - Btrfs: FS/BTRFS. Items are the structs of leafnode/structures.go and their Parse methods, Leaf is
--   LeafNode, Node is genericnode.go with internalnode/structures.go, Superblock is btrfs.go, Entries is
--   filedirentry.go, Crc is utils/crc32.go. What LeafNode.Parse stores behind the interface DataItem is
--   a data type with a constructor for each implementation.
-- - Usn: FS/NTFS/usnjrnl/usnjrnl.go, the records in the clusters of the change journal; Usn/Process
--   reads the clusters by the workers of Disk.
-- - Tests: runs on small inputs, and an instance of each result that has conditions.
--
-- The MFT table is a list of records; ProcessRecords makes it from the bytes, and the later passes take
-- it as an argument and return it. A receiver that the code uses again is an argument and a result.
--
-- Loops are structural or on fuel. The fuel of RunList.Process, ProcessRecords, LocatePartitions,
-- ProcessMFT, AsyncProcess, ParseSystemChunks, ChecksumItem.Parse and PhysicalVolHeader.Parse is one
-- more than the length of the buffer, each round taking a byte at least; that of the attributes of a
-- record is 1025, for ReadPtr stays below 1024; that of an attribute list is 2^16 + 1, the number of
-- values of its uint16 position and one more. Pointers to original records and to parents are followed
-- for as many steps as the table has records, and one or two more, and the calls of BuildPath on
-- children go one deeper than there are entries: a cycle, on which the code does not end, is `stuck`.
--
-- Not modelled: the readers of images and devices, export, reports, logging, methods that print, and
-- the command line; FS/NTFS/ntfs.go and disk/lvm2, older copies that no other file uses; memory that
-- runs out; the order in which goroutines run. strings.ToUpper and strings.ToLower follow the tables of
-- Unicode, sort.Sort is not stable, and hash/crc32 computes a checksum from its table: these three
-- packages are parameters.
pub mod Attributes
pub mod Base
pub mod Btrfs
pub mod Data
pub mod Disk
pub mod Filters
pub mod Go
pub mod Lvm
pub mod Mft
pub mod Tests
pub mod Tree
pub mod Usn
pub mod Utils
pub mod Volume
