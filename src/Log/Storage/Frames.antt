-- ===== src/Log/Storage/Frames.antt =====
-- src/log/storage.rs: what a file of whole frames, and one with a torn frame at its end, reads as.
use bellbook.Prelude.{
  ℕ, zero, suc, ◌+◌, ◌-◌, ◌/◌, ◌%◌, ◌≤◌, ◌<◌, ◌≡◌, refl, sym, ap, subst, ◌∙◌, none, some, true,
  List, [], ◌∷◌, ◌++◌, leb, ok, or_err, guard, or_err-eq-ok, guard-eq-ok, ◌>>=◌, >>=-eq-ok,
  >>-eq-ok, length, length-append, append_assoc, append_nil, take-length_append, drop-length_append,
  take, arith,
}
use bellbook.Base.Hash.{Bytes}
use bellbook.Record.Envelope.{Record}
use bellbook.Platform.{Platform, Form}
use bellbook.Log.Errors.{LogError, Logged}
use bellbook.Log.Storage.{
  frame_max, usize_max, to_be_bytes, from_be_bytes, complete_frame_end, encode_record, frame,
  read_frames, read_all_records, next_frame, body_and_rest,
}

-- serde reads a record back from the canonical text that it was printed as.
pub record ReadsBack (p : Platform) : Type 0 where
  pub reads :
      (r : Record) (bytes : Bytes)
      → p.canonical_json (Form.envelope r) ≡ some bytes
      → p.record_from_slice bytes ≡ some r

pub length-frame : (bytes : Bytes) → length (frame bytes) ≡ 4 + length bytes
unfolding to_be_bytes
length-frame bytes = omega arith

from_be_bytes-to_be_bytes :
    (n : ℕ)
    → n ≤ frame_max
    → from_be_bytes (n / 16777216 % 256) (n / 65536 % 256) (n / 256 % 256) (n % 256) ≡ n
unfolding from_be_bytes
from_be_bytes-to_be_bytes n h = omega (arith, h)

complete_frame_end-fits :
    (start len total : ℕ)
    → start + len ≤ total
    → total ≤ usize_max
    → complete_frame_end start len total ≡ some (start + len)
unfolding complete_frame_end
complete_frame_end-fits start len total h k = ground (arith, h, k)

complete_frame_end-torn :
    (start len total : ℕ) → total < start + len → complete_frame_end start len total ≡ none
unfolding complete_frame_end
complete_frame_end-torn start len total h = ground (arith, h)

-- A part of a frame that is not all of it.
pub record IsTorn (tail : Bytes) : Type 0 where
  pub body : Bytes
  pub size : ℕ
  pub fits : length body ≤ frame_max
  pub part : size < 4 + length body
  pub starts : tail ≡ take size (frame body)

length-take : {A : Type 0} (n : ℕ) (xs : List A) → n ≤ length xs → length (take n xs) ≡ n
length-take zero xs h = refl
length-take (suc n) [] h = absurd (omega (arith, h))
length-take (suc n) (x ∷ xs) h = ap suc (length-take n xs (omega (arith, h)))

next_frame-torn :
    (cursor size : ℕ) (body : Bytes)
    → length body ≤ frame_max
    → size < 4 + length body
    → next_frame (cursor + length (take size (frame body))) cursor (take size (frame body)) ≡ none
unfolding next_frame to_be_bytes
next_frame-torn cursor zero body fits part = refl
next_frame-torn cursor (suc zero) body fits part = refl
next_frame-torn cursor (suc (suc zero)) body fits part = refl
next_frame-torn cursor (suc (suc (suc zero))) body fits part = refl
next_frame-torn cursor (suc (suc (suc (suc k)))) body fits part =
    let short = length-take k body (omega (arith, part)) in
    let total = cursor + length (take (suc (suc (suc (suc k)))) (frame body)) in
    let len = from_be_bytes-to_be_bytes (length body) fits in
    let torn =
      complete_frame_end-torn (cursor + 4) (length body) total (omega (arith, part, short)) in
    ap (λ n. body_and_rest (complete_frame_end (cursor + 4) n total) n (take k body)) len
    ∙ ap (λ end. body_and_rest end (length body) (take k body)) torn

next_frame-frame :
    (cursor total : ℕ) (body rest : Bytes)
    → length body ≤ frame_max
    → cursor + 4 + length body ≤ total
    → total ≤ usize_max
    → next_frame total cursor (frame body ++ rest) ≡ some (body, cursor + 4 + length body, rest)
unfolding next_frame to_be_bytes
next_frame-frame cursor total body rest fits inside small =
    let len = from_be_bytes-to_be_bytes (length body) fits in
    let whole = complete_frame_end-fits (cursor + 4) (length body) total inside small in
    ap (λ n. body_and_rest (complete_frame_end (cursor + 4) n total) n (body ++ rest)) len
    ∙ ap (λ end. body_and_rest end (length body) (body ++ rest)) whole
    ∙ (λ i.
        some (
          take-length_append body rest i,
          cursor + 4 + length body,
          drop-length_append body rest i,
        ))

module _ (p : Platform) where
  -- The file that holds the frames of the records.
  unfoldable pub file_of : List Record → Logged Bytes
  unfolding encode_record to_be_bytes
  file_of [] = ok []
  file_of (r ∷ rs) = do bytes ← encode_record p r; rest ← file_of rs; ok (frame bytes ++ rest)

  pub file_of-snoc :
      (records : List Record) (file : Bytes) (r : Record) (bytes : Bytes)
      → file_of records ≡ ok file
      → encode_record p r ≡ ok bytes
      → file_of (records ++ r ∷ []) ≡ ok (file ++ frame bytes)
  unfolding file_of
  file_of-snoc [] file r bytes stored encoded =
      let e : file ≡ [] = cc stored in
      rw (file_of, encoded) (ap ok (append_nil (frame bytes) ∙ ap (λ f. f ++ frame bytes) (sym e)))
  file_of-snoc (x ∷ records) file r bytes stored encoded =
      let (first, e1, run1) = >>=-eq-ok (encode_record p x) _ stored in
      let (rest, e2, run2) = >>=-eq-ok (file_of records) _ run1 in
      let e : frame first ++ rest ≡ file = cc run2 in
      rw (file_of, e1, file_of-snoc records rest r bytes e2 encoded)
        (ap ok (sym (append_assoc (frame first) rest (frame bytes)) ∙ ap (λ f. f ++ frame bytes) e))

  pub encode_record-eq-ok :
      (r : Record) (bytes : Bytes)
      → encode_record p r ≡ ok bytes
      → (p.canonical_json (Form.envelope r) ≡ some bytes) × (length bytes ≤ frame_max)
  unfolding encode_record
  encode_record-eq-ok r bytes run =
      let (found, e1, run1) =
        >>=-eq-ok (or_err (p.canonical_json (Form.envelope r)) LogError.io) _ run in
      let (e2, run2) =
        >>-eq-ok (guard (leb (length found) frame_max) (LogError.record_too_large (length found))) _
          run1 in
      let same : found ≡ bytes = cc run2 in
      subst (λ b. (p.canonical_json (Form.envelope r) ≡ some b) × (length b ≤ frame_max)) same
        (or_err-eq-ok _ _ e1, ground (arith, guard-eq-ok _ _ e2))

  read_frames-none :
      (n cursor total : ℕ) (bytes : Bytes)
      → next_frame total cursor bytes ≡ none
      → read_frames p n total cursor bytes ≡ ok ([], cursor)
  unfolding read_frames
  read_frames-none zero cursor total bytes h = refl
  read_frames-none (suc n) cursor total bytes h = rw (read_frames, h) refl

  read_frames-torn :
      (n cursor : ℕ) (tail : Bytes)
      → IsTorn tail
      → read_frames p n (cursor + length tail) cursor tail ≡ ok ([], cursor)
  read_frames-torn n cursor tail t =
      subst (λ l. read_frames p n (cursor + length l) cursor l ≡ ok ([], cursor)) (sym t.starts)
        (read_frames-none n cursor _ _ (next_frame-torn cursor t.size t.body t.fits t.part))

  read_frames-frame :
      (n cursor total : ℕ) (body rest : Bytes) (r : Record) (found : List Record × ℕ)
      → length body ≤ frame_max
      → cursor + 4 + length body ≤ total
      → total ≤ usize_max
      → p.record_from_slice body ≡ some r
      → read_frames p n total (cursor + 4 + length body) rest ≡ ok found
      → read_frames p (suc n) total cursor (frame body ++ rest) ≡ ok (r ∷ found.0, found.1)
  unfolding read_frames
  read_frames-frame n cursor total body rest r found fits inside small reads run =
      let next = next_frame-frame cursor total body rest fits inside small in
      rw (read_frames, next, reads, run) refl

  -- From any frame on, with fuel for the bytes that are left.
  read_frames-file_of :
      ReadsBack p
      → (records : List Record) (n cursor : ℕ) (file tail : Bytes) → file_of records ≡ ok file
      → IsTorn tail
      → length (file ++ tail) ≤ n
      → cursor + length (file ++ tail) ≤ usize_max
      → read_frames p n (cursor + length (file ++ tail)) cursor (file ++ tail)
        ≡ ok (records, cursor + length file)
  unfolding file_of read_frames to_be_bytes
  read_frames-file_of codec [] n cursor file tail run torn fuel small =
      let e : file ≡ [] = cc run in
      subst
        (λ l.
          read_frames p n (cursor + length (l ++ tail)) cursor (l ++ tail)
          ≡ ok ([], cursor + length l))
        (sym e) (read_frames-torn n cursor tail torn ∙ ap (λ m. ok ([], m)) (omega arith))
  read_frames-file_of codec (r ∷ rs) n cursor file tail run torn fuel small =
      let (bytes, e1, run1) = >>=-eq-ok (encode_record p r) _ run in
      let (rest, e2, run2) = >>=-eq-ok (file_of rs) _ run1 in
      let e : frame bytes ++ rest ≡ file = cc run2 in
      let (printed, fits) = encode_record-eq-ok r bytes e1 in
      let size : length file ≡ 4 + length bytes + length rest =
        ap length (sym e) ∙ length-append (frame bytes) rest ∙ omega arith in
      let joined = length-append rest tail in
      let all = length-append file tail in
      let shape : frame bytes ++ (rest ++ tail) ≡ file ++ tail =
        sym (append_assoc (frame bytes) rest tail) ∙ ap (λ l. l ++ tail) e in
      let end : cursor + 4 + length bytes + length (rest ++ tail) ≡ cursor + length (file ++ tail) =
        omega (arith, size, joined, all) in
      let after =
        read_frames-file_of codec rs (n - 1) (cursor + 4 + length bytes) rest tail e2 torn
          (omega (arith, size, joined, all, fuel)) (omega (arith, end, small)) in
      let total = cursor + length (file ++ tail) in
      let one_more : n ≡ suc (n - 1) = omega (arith, size, all, fuel) in
      let step =
        read_frames-frame (n - 1) cursor total bytes (rest ++ tail) r
          (rs, cursor + 4 + length bytes + length rest) fits (omega (arith, end)) small
          (codec.reads r bytes printed)
          (subst
            (λ t.
              read_frames p (n - 1) t (cursor + 4 + length bytes) (rest ++ tail)
              ≡ ok (rs, cursor + 4 + length bytes + length rest))
            end after) in
      ap (λ l. read_frames p n total cursor l) (sym shape)
      ∙ ap (λ m. read_frames p m total cursor (frame bytes ++ (rest ++ tail))) one_more
      ∙ step
      ∙ ap (λ m. ok (r ∷ rs, m)) (omega (arith, size))

  -- A file of whole frames with a torn frame, or nothing, after them reads as the records of the whole
  -- frames, and the length that counts is theirs; the size limit and `usize` are not exceeded.
  pub read_all_records-file_of :
      ReadsBack p
      → (records : List Record) (file tail : Bytes) (max_file_bytes : ℕ) → file_of records ≡ ok file
      → IsTorn tail
      → length (file ++ tail) ≤ max_file_bytes
      → length (file ++ tail) ≤ usize_max
      → read_all_records p (file ++ tail) max_file_bytes ≡ ok (records, length file)
  unfolding read_all_records
  read_all_records-file_of codec records file tail max_file_bytes run torn within small =
      let loop =
        read_frames-file_of codec records (length (file ++ tail)) 0 file tail run torn (omega arith)
          (omega (arith, small)) in
      let whole : length (file ++ tail) ≡ 0 + length (file ++ tail) = omega arith in
      let fits : leb (length (file ++ tail)) max_file_bytes ≡ true = ground (arith, within) in
      rw fits (
        ap (λ t. read_frames p (length (file ++ tail)) t 0 (file ++ tail)) whole
        ∙ loop
        ∙ ap (λ m. ok (records, m)) (omega arith))
