-- ===== src/Log/Storage.antt =====
-- src/log/storage.rs: the log as a file of frames, a big-endian u32 length and that many bytes of
-- canonical JSON each, and the records it holds in memory. The file system is a parameter: a
-- `Fault` says which of its calls fail, and how much of a frame is on the file when an append does.
pub mod Frames
pub mod Appends
use bellbook.Prelude.{
  ℕ, zero, suc, ◌+◌, ◌-◌, ◌*◌, ◌/◌, ◌%◌, ◌^◌, Bool, true, false, ◌&&◌, not, Option, none, some,
  List, [], ◌∷◌, ◌++◌, leb, ltb, nat_ord, if◌then◌else◌, Result, ok, err, or_err, guard, ◌>>=◌,
  ◌>>◌, length, take, drop, last?, get_elem?, map,
}
use bellbook.Prelude.Map.{BTreeMap, get, put}
use bellbook.Base.Hash.{Bytes}
use bellbook.Base.Time.{time_max, checked_add}
use bellbook.Record.Refs.{RecordId}
use bellbook.Record.Payloads.{Time}
use bellbook.Record.Envelope.{Record}
use bellbook.Platform.{Platform, Form}
use bellbook.Log.Errors.{LogError, Logged}

-- src/log/writer/intent.rs: the marker of a commit under way.
pub record CommitIntent : Type 0 where
  pub subject_id : RecordId
  pub written : Bool

-- The files of a log directory: `records.log`, `.intent`, and whether `.lock` is held.
pub record Directory : Type 0 where
  pub file : Bytes
  pub intent : Option CommitIntent
  pub locked : Bool

pub record FileLog : Type 0 where
  pub dir : Directory
  pub records : List Record
  pub index : BTreeMap RecordId ℕ
  pub max_file_bytes : ℕ

-- The calls of the file system, in the order of their use.
pub data Call : Type 0 where
  open_log truncate write_intent append_subject mark_intent append_verdict clear_intent : Call

pub record Fault : Type 0 where
  pub fails : Call → Bool
  pub kept : ℕ

abbrev pub no_fault : Fault
no_fault = record { fails = λ call. false; kept = 0 }

-- `u32::MAX`, and `usize::MAX` on a 64-bit target.
abbrev pub frame_max : ℕ
frame_max = 2 ^ 32 - 1

abbrev pub usize_max : ℕ
usize_max = 2 ^ 64 - 1

-- `u32::to_be_bytes` and `u32::from_be_bytes`.
unfoldable pub to_be_bytes : ℕ → Bytes
to_be_bytes n = n / 16777216 % 256 ∷ n / 65536 % 256 ∷ n / 256 % 256 ∷ n % 256 ∷ []

unfoldable pub from_be_bytes : ℕ → ℕ → ℕ → ℕ → ℕ
from_be_bytes a b c d = a * 16777216 + b * 65536 + c * 256 + d

unfoldable pub complete_frame_end : ℕ → ℕ → ℕ → Option ℕ
complete_frame_end body_start body_len total_len =
    if leb (body_start + body_len) usize_max
    then if leb (body_start + body_len) total_len then some (body_start + body_len) else none
    else none

-- The body that the length at byte `cursor` announces, its end, and the bytes after it.
abbrev pub body_and_rest : Option ℕ → ℕ → Bytes → Option (Bytes × ℕ × Bytes)
body_and_rest none len rest = none
body_and_rest (some frame_end) len rest = some (take len rest, frame_end, drop len rest)

unfoldable pub next_frame : ℕ → ℕ → Bytes → Option (Bytes × ℕ × Bytes)
unfolding from_be_bytes complete_frame_end
next_frame total cursor (a ∷ b ∷ c ∷ d ∷ rest) =
    let len = from_be_bytes a b c d in
    body_and_rest (complete_frame_end (cursor + 4) len total) len rest
next_frame total cursor bytes = none

-- `HashMap::insert` of each record's position: of equal ids the last stays.
unfoldable pub index_from : ℕ → List Record → BTreeMap RecordId ℕ → BTreeMap RecordId ℕ
index_from pos [] m = m
index_from pos (r ∷ rs) m = index_from (pos + 1) rs (put r.id pos m)

unfoldable pub get_record : FileLog → RecordId → Option Record
get_record log id = elim (get log.index id) [ none ↦ none | some pos ↦ get_elem? log.records pos ]

-- `partition_point` of an ascending sequence: how many records the test holds for at the front.
unfoldable pub partition_point : (Record → Bool) → List Record → ℕ
partition_point before [] = 0
partition_point before (r ∷ rs) =
    let rest = partition_point before rs in if before r then suc rest else 0

unfoldable pub scan : FileLog → Time → Time → List Record
unfolding partition_point
scan log from to =
    let start = partition_point (λ r. ltb r.time from) log.records in
    let end = partition_point (λ r. leb r.time to) log.records in drop start (take end log.records)

unfoldable pub last_record_time : FileLog → Option Time
last_record_time log = elim (last? log.records) [ none ↦ none | some r ↦ some r.time ]

abbrev pub frame : Bytes → Bytes
frame bytes = to_be_bytes (length bytes) ++ bytes

abbrev pub with_file : Bytes → FileLog → FileLog
with_file file log = record log { dir = record (log.dir) { file = file } }

abbrev pub appended : Record → Bytes → FileLog → FileLog
appended r bytes log = record (with_file (log.dir.file ++ frame bytes) log) {
  records = log.records ++ r ∷ [];
  index = put r.id (length log.records) log.index;
}

-- A failed write leaves a part of the frame on the file, and the memory as it was.
abbrev pub write_frame :
    Fault → Call → Record → FileLog → Logged Bytes → Logged (Unit {0}) × FileLog
write_frame io call r log (err e) = (err e, log)
write_frame io call r log (ok bytes) = elim (io.fails call) [
  | true ↦ (err LogError.io, with_file (log.dir.file ++ take io.kept (frame bytes)) log)
  | false ↦ (ok tt, appended r bytes log)
]

-- What is done with the records that a file is read as, and the end of the last whole frame. Where
-- the cut or its flush fails, the file may have been cut.
abbrev pub cut_file : Fault → Directory → ℕ → Logged (List Record × ℕ) → Logged FileLog × Directory
cut_file io dir max_file_bytes (err e) = (err e, dir)
cut_file io dir max_file_bytes (ok (records, valid_len)) =
    let opened : Directory = record dir { file = take valid_len dir.file } in
    elim (ltb valid_len (length dir.file) && io.fails Call.truncate) [
      | true ↦ (err LogError.io, if leb 1 io.kept then opened else dir)
      | false ↦ (
        ok record {
          dir = opened;
          records = records;
          index = index_from 0 records [];
          max_file_bytes = max_file_bytes;
        },
        opened,
      )
    ]

module _ (p : Platform) where
  unfoldable pub encode_record : Record → Logged Bytes
  encode_record r = do
    bytes ← or_err (p.canonical_json (Form.envelope r)) LogError.io
    guard (leb (length bytes) frame_max) (LogError.record_too_large (length bytes))
    ok bytes

  -- The file's length with the frames of the records after it.
  unfoldable pub projected_bytes : List Record → ℕ → ℕ → Logged ℕ
  unfolding encode_record
  projected_bytes [] max_bytes projected = ok projected
  projected_bytes (r ∷ rs) max_bytes projected = do
    bytes ← encode_record r
    next ←
        or_err (checked_add projected (4 + length bytes))
          (LogError.log_size_limit_exceeded time_max max_bytes)
    projected_bytes rs max_bytes next

  unfoldable pub ensure_capacity_for : FileLog → List Record → Logged (Unit {0})
  unfolding projected_bytes
  ensure_capacity_for log records = do
    projected ← projected_bytes records log.max_file_bytes (length log.dir.file)
    guard (leb projected log.max_file_bytes)
        (LogError.log_size_limit_exceeded projected log.max_file_bytes)

  unfoldable pub append : Fault → Call → Record → FileLog → Logged (Unit {0}) × FileLog
  unfolding encode_record ensure_capacity_for to_be_bytes
  append io call r log =
      write_frame io call r log
        (encode_record r >>= (λ bytes. ensure_capacity_for log (r ∷ []) >> ok bytes))

  -- The loop over the frames from byte `cursor` of `total` on: the records, and the end of the last
  -- complete frame. A torn frame ends the loop; an unreadable body is an error.
  unfoldable pub read_frames : ℕ → ℕ → ℕ → Bytes → Logged (List Record × ℕ)
  unfolding next_frame
  read_frames zero total cursor bytes = ok ([], cursor)
  read_frames (suc n) total cursor bytes = elim (next_frame total cursor bytes) [
    | none ↦ ok ([], cursor)
    | some next ↦ do
      r ← or_err (p.record_from_slice next.0) LogError.io
      found ← read_frames n total next.1 next.2
      ok (r ∷ found.0, found.1)
  ]

  -- Every frame takes four bytes and more, so that the file's length is enough fuel.
  unfoldable pub read_all_records : Bytes → ℕ → Logged (List Record × ℕ)
  unfolding read_frames
  read_all_records file max_file_bytes = do
    guard (leb (length file) max_file_bytes)
        (LogError.log_size_limit_exceeded (length file) max_file_bytes)
    read_frames (length file) (length file) 0 file

  -- `FileLog::open`: a torn end is cut off the file.
  unfoldable pub open_file : Fault → Directory → ℕ → Logged FileLog × Directory
  unfolding read_all_records index_from
  open_file io dir max_file_bytes =
      cut_file io dir max_file_bytes (
        guard (not (io.fails Call.open_log)) LogError.io
        >> read_all_records dir.file max_file_bytes)
