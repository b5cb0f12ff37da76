-- ===== src/Usn.antt =====
-- FS/NTFS/usnjrnl/usnjrnl.go: the records of the change journal in the clusters that hold it.
pub mod Ends
pub mod Process
use mftextractor.Base.{
  ℕ, zero, suc, ◌+◌, ◌*◌, Option, none, some, List, [], ◌∷◌, ◌++◌, ltb, ◌==◌, if◌then◌else◌,
}
use mftextractor.Go.Outcome.{Outcome, ok, stuck, ◌>>=◌}
use mftextractor.Go.Slice.{Slice, bytes, slice, slice_from}
use mftextractor.Go.Text.{GoString}
use mftextractor.Utils.Bytes.{decode_utf16}
use mftextractor.Utils.Unmarshal.{Kind, Value, unmarshal, nth_number}

-- Record
pub record UsnRecord : Type 0 where
  pub length : ℕ
  pub major_ver : ℕ
  pub minor_ver : ℕ
  pub entry_ref : ℕ
  pub entry_seq : ℕ
  pub par_ref : ℕ
  pub par_seq : ℕ
  pub usn : ℕ
  pub event_time : ℕ
  pub reason_flag : ℕ
  pub source_info : ℕ
  pub security_id : ℕ
  pub file_attrs : ℕ
  pub fname_len : ℕ
  pub fname_offset : ℕ
  pub fname : GoString

-- Only a field named ParRef takes six bytes, so EntryRef takes eight.
abbrev pub usn_fields : List Kind
usn_fields =
    Kind.uint32 ∷ Kind.uint16 ∷ Kind.uint16 ∷ Kind.uint64 ∷ Kind.uint16 ∷ Kind.par_ref ∷ Kind.uint16
    ∷ Kind.uint64 ∷ Kind.windows_time ∷ Kind.uint32 ∷ Kind.uint32 ∷ Kind.uint32 ∷ Kind.uint32
    ∷ Kind.uint16 ∷ Kind.uint16 ∷ Kind.unhandled ∷ []

abbrev pub usn_of : List Value → UsnRecord
usn_of vs = record {
  length = nth_number vs 0;
  major_ver = nth_number vs 1;
  minor_ver = nth_number vs 2;
  entry_ref = nth_number vs 3;
  entry_seq = nth_number vs 4;
  par_ref = nth_number vs 5;
  par_seq = nth_number vs 6;
  usn = nth_number vs 7;
  event_time = nth_number vs 8;
  reason_flag = nth_number vs 9;
  source_info = nth_number vs 10;
  security_id = nth_number vs 11;
  file_attrs = nth_number vs 12;
  fname_len = nth_number vs 13;
  fname_offset = nth_number vs 14;
  fname = [];
}

-- The name, in the bytes from 60 to `read_to`; none is the error of Record.Parse.
abbrev pub with_name : Slice → UsnRecord → ℕ → Outcome (Option (UsnRecord × ℕ))
with_name buf r read_to =
    let named = do
      s ← slice buf 60 read_to
      ok (some (record r { fname = decode_utf16 (bytes s) }, read_to))
    in if ltb buf.len read_to then ok none else named

-- Record.Parse: the record and the bytes that it takes.
unfoldable pub parse_usn : Slice → Outcome (Option (UsnRecord × ℕ))
parse_usn buf =
    let long = do
      u ← unmarshal usn_fields buf
      with_name buf (usn_of u.values) (60 + 2 * (usn_of u.values).fname_len)
    in if ltb buf.len 60 then ok none else long

-- The inner loop of AsyncProcess, over one cluster: what it sends.
unfoldable pub usn_records_from : ℕ → Slice → ℕ → List UsnRecord → Outcome (List UsnRecord)
usn_records_from zero cluster offset sent = stuck
usn_records_from (suc fuel) cluster offset sent =
    let round = do
      rest ← slice_from cluster offset
      o ← parse_usn rest
      elim o [
        | none ↦ ok sent
        | some (r, n) ↦
            usn_records_from fuel cluster (offset + n)
              (if r.entry_ref == 0 then sent else sent ++ (r ∷ []))
      ]
    in if ltb offset cluster.len then round else ok sent

abbrev pub usn_records : Slice → Outcome (List UsnRecord)
usn_records cluster = usn_records_from (suc cluster.len) cluster 0 []

-- AsyncProcess, over the clusters in the order in which they are received.
unfoldable pub async_process : List Slice → Outcome (List UsnRecord)
async_process [] = ok []
async_process (c ∷ cs) = do first ← usn_records c; more ← async_process cs; ok (first ++ more)
