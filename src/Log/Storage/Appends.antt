-- ===== src/Log/Storage/Appends.antt =====
-- src/log/storage.rs: what an append can leave behind, and when it cannot fail but by the file system.
use bellbook.Prelude.{
  ℕ, ◌+◌, ◌≤◌, ◌≡◌, refl, sym, ◌∙◌, true, false, List, [], ◌∷◌, ◌++◌, leb, ok, err, or_err,
  or_err-eq-ok, guard-eq-ok, ◌>>=◌, ◌>>◌, >>=-eq-ok, length, take, inl, inr, Bool-cases, arith,
  some,
}
use bellbook.Base.Hash.{Bytes}
use bellbook.Base.Time.{time_max, checked_add}
use bellbook.Record.Envelope.{Record}
use bellbook.Platform.{Platform}
use bellbook.Log.Errors.{LogError, Logged}
use bellbook.Log.Storage.{
  FileLog, Call, Fault, encode_record, projected_bytes, ensure_capacity_for, frame, with_file,
  appended, write_frame, append,
}

-- The three ends of an append: nothing written, a part of the frame, or all of it.
pub data Appends (log : FileLog) (r : Record) (bytes : Bytes)
    : Logged (Unit {0}) × FileLog → Type 0 where
  refused : (e : LogError) → Appends log r bytes (err e, log)
  torn :
      (k : ℕ)
      → Appends log r bytes (err LogError.io, with_file (log.dir.file ++ take k (frame bytes)) log)
  whole : Appends log r bytes (ok tt, appended r bytes log)

checked_add-eq-some :
    (a b : ℕ) {c : ℕ} → checked_add a b ≡ some c → (c ≡ a + b) × (a + b ≤ time_max)
checked_add-eq-some a b h = ground (arith, h)

write_frame-Appends :
    (io : Fault) (call : Call) (r : Record) (log : FileLog) (bytes : Bytes)
    (room : Logged (Unit {0}))
    → Appends log r bytes (write_frame io call r log (room >> ok bytes))
write_frame-Appends io call r log bytes (err e) = refused e
write_frame-Appends io call r log bytes (ok _) = elim (Bool-cases (io.fails call)) [
  | inl fails ↦ rw fails (torn io.kept)
  | inr works ↦ rw works whole
]

module _ (p : Platform) where
  pub append-Appends :
      (io : Fault) (call : Call) (r : Record) (log : FileLog) (bytes : Bytes)
      → encode_record p r ≡ ok bytes
      → Appends log r bytes (append p io call r log)
  unfolding append
  append-Appends io call r log bytes encoded =
      rw (append, encoded) (write_frame-Appends io call r log bytes _)

  projected_bytes-cons :
      (r : Record) (rs : List Record) (max projected : ℕ) (bytes : Bytes)
      → encode_record p r ≡ ok bytes
      → projected_bytes p (r ∷ rs) max projected ≡ (
          or_err
            (checked_add projected (4 + length bytes))
            (LogError.log_size_limit_exceeded time_max max)
          >>= (λ next. projected_bytes p rs max next))
  unfolding projected_bytes
  projected_bytes-cons r rs max projected bytes e = rw (projected_bytes, e) refl

  -- Records that room is found for can be encoded.
  pub ensure_capacity_for-encodes :
      (log : FileLog) (r next : Record)
      → ensure_capacity_for p log (r ∷ next ∷ []) ≡ ok tt
      → ((a : Bytes) × (encode_record p r ≡ ok a)) × ((b : Bytes) × (encode_record p next ≡ ok b))
  unfolding ensure_capacity_for projected_bytes
  ensure_capacity_for-encodes log r next run =
      let max = log.max_file_bytes in
      let over = LogError.log_size_limit_exceeded time_max max in
      let (total, h, run1) =
        >>=-eq-ok (projected_bytes p (r ∷ next ∷ []) max (length log.dir.file)) _ run in
      let (a, e1, h1) = >>=-eq-ok (encode_record p r) _ h in
      let (m, k, h2) =
        >>=-eq-ok (or_err (checked_add (length log.dir.file) (4 + length a)) over) _ h1 in
      let (b, e2, h3) = >>=-eq-ok (encode_record p next) _ h2 in ((a, e1), (b, e2))

  -- Room for a pair is room for each of its frames in turn.
  pub ensure_capacity_for-room :
      (log : FileLog) (r next : Record) (a b : Bytes)
      → encode_record p r ≡ ok a
      → encode_record p next ≡ ok b
      → ensure_capacity_for p log (r ∷ next ∷ []) ≡ ok tt
      → (length log.dir.file + (4 + length a) + (4 + length b) ≤ log.max_file_bytes)
        × (length log.dir.file + (4 + length a) + (4 + length b) ≤ time_max)
  unfolding ensure_capacity_for projected_bytes
  ensure_capacity_for-room log r next a b e1 e2 run =
      let max = log.max_file_bytes in
      let size = length log.dir.file in
      let over = LogError.log_size_limit_exceeded time_max max in
      let (total, h, run1) = >>=-eq-ok (projected_bytes p (r ∷ next ∷ []) max size) _ run in
      let first = sym (projected_bytes-cons r (next ∷ []) max size a e1) ∙ h in
      let (m, k1, h1) = >>=-eq-ok (or_err (checked_add size (4 + length a)) over) _ first in
      let (e3, small) = checked_add-eq-some size (4 + length a) (or_err-eq-ok _ _ k1) in
      let second = sym (projected_bytes-cons next [] max m b e2) ∙ h1 in
      let (n, k2, h2) = >>=-eq-ok (or_err (checked_add m (4 + length b)) over) _ second in
      let (e4, all) = checked_add-eq-some m (4 + length b) (or_err-eq-ok _ _ k2) in
      let same : n ≡ total = cc h2 in
      let fits : total ≤ max = ground (arith, guard-eq-ok _ _ run1) in
      (omega (arith, e3, e4, same, fits), omega (arith, e3, e4, all))

  pub append-whole :
      (io : Fault) (call : Call) (r : Record) (log : FileLog) (bytes : Bytes)
      → io.fails call ≡ false
      → encode_record p r ≡ ok bytes
      → length log.dir.file + (4 + length bytes) ≤ log.max_file_bytes
      → length log.dir.file + (4 + length bytes) ≤ time_max
      → append p io call r log ≡ (ok tt, appended r bytes log)
  unfolding append ensure_capacity_for projected_bytes
  append-whole io call r log bytes works encoded room small =
      let added : checked_add (length log.dir.file) (4 + length bytes)
          ≡ some (length log.dir.file + (4 + length bytes)) =
        ground (arith, small) in
      let fits : leb (length log.dir.file + (4 + length bytes)) log.max_file_bytes ≡ true =
        ground (arith, room) in
      rw (append, encoded, added, fits, works) refl
