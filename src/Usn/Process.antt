-- ===== src/Usn/Process.antt =====
-- FS/NTFS/usnjrnl/usnjrnl.go, Process: the journals of several records, each read by a worker of the
-- disk and decoded from the clusters that the worker sends.
use mftextractor.Base.{ℕ, ◌^◌, List, [], ◌∷◌, ◌++◌, ltb, if◌then◌else◌, map}
use mftextractor.Go.Outcome.{Outcome, ok, panic, ◌>>=◌}
use mftextractor.Go.Slice.{of_bytes}
use mftextractor.Data.{get_logical_file_size}
use mftextractor.Disk.Discovery.{Disk}
use mftextractor.Disk.Workers.{async_worker}
use mftextractor.Mft.Record.{Record}
use mftextractor.Mft.Table.{Records}
use mftextractor.Usn.{UsnRecord, async_process}

-- One round: the channel cannot be made for a size that is negative as an int.
abbrev pub journal_of : Records → Disk → ℕ → Record → Outcome (List UsnRecord)
journal_of table d number r = do
  size ← get_logical_file_size table r
  let decoded = do clusters ← async_worker table d r number; async_process (map of_bytes clusters)
  if ltb size (2 ^ 63) then decoded else panic

-- Process
unfoldable pub process_journals : Records → Disk → ℕ → Records → Outcome (List UsnRecord)
process_journals table d number [] = ok []
process_journals table d number (r ∷ rs) = do
  found ← journal_of table d number r
  more ← process_journals table d number rs
  ok (found ++ more)
