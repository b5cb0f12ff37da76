-- ===== src/Disk/Reader.antt =====
-- img/reader.go: DiskReader, as the program calls it. The readers behind it are other packages.
use mftextractor.Base.{ℕ, ◌^◌, List}
use mftextractor.Base.Int.{ℤ, of_pattern, to_pattern}

-- ReadFile, of an offset and a length in bytes, and GetDiskSize.
pub record DiskReader : Type 0 where
  pub read_file : ℤ → ℤ → List ℕ
  pub disk_size : ℤ

-- An int64, which is also the type int.
abbrev pub int64 : ℤ → ℤ
int64 z = of_pattern (2 ^ 64) (to_pattern (2 ^ 64) z)
