-- ===== src/Pipeline/Upload.antt =====
-- crates/pipeline/src/object_store_io.rs `upload_from_temp` and `write_multipart`. The multipart upload
-- `U` is `object_store`'s; of the parts in flight only their number is kept here, and which one ends
-- next is up to the store. Loops take fuel, and `none` is a loop that ran out of it.
pub mod Steps
pub mod Stored
pub mod Ends
mod Examples
use datacrate.Common.{
  ℕ, zero, suc, ◌+◌, ◌-◌, Bool, true, false, List, [], ◌∷◌, ◌++◌, Option, none, some, Result, ok,
  err, Text, Action, return, and_then, fail_with, ltb, ◌==◌, if◌then◌else◌, match_option, length,
}
use datacrate.Pipeline.IoError.{PipelineIoError, open_input, upload_object, multipart_abort}
use datacrate.Pipeline.Download.{chunk_bytes}

-- The local file, the store's multipart interface, and which read errors are interruptions.
pub record Multipart (S E U : Type 0) : Type 0 where
  pub open_file : Text → Action S E (Unit {0})
  pub read : ℕ → Action S E Text
  pub is_interrupted : E → Bool
  pub put_multipart : Text → Action S E U
  pub put_part : U → Text → S → S
  pub next_part : U → Action S E (Unit {0})
  pub complete : U → Action S E (Unit {0})
  pub abort : U → Action S E (Unit {0})

-- `MAX_UPLOAD_PARTS`
abbrev pub max_upload_parts : ℕ
max_upload_parts = 2

module _ {S D E U : Type 0} (io : Multipart S E U) (src key : Text) where
  -- What a read means for the loop: `none` is to be tried again.
  unfoldable pub classify : Result E Text → Result (PipelineIoError D E) (Option Text)
  classify (ok bytes) = ok (some bytes)
  classify (err e) = if io.is_interrupted e then ok none else err (open_input src e)

  unfoldable pub read_once : ℕ → Action S (PipelineIoError D E) (Option Text)
  read_once n s = let (r, t) = io.read n s in (classify r, t)

  -- Fills the buffer by `n` more bytes, or to the end of the file.
  unfoldable pub fill : ℕ → ℕ → Text → Action S (PipelineIoError D E) (Option Text)
  fill zero n buffer = return none
  fill (suc fuel) n buffer =
      if n == 0
      then return (some buffer)
      else and_then (read_once n) λ read. match_option read (fill fuel n buffer) λ bytes.
        if length bytes == 0
        then return (some buffer)
        else fill fuel (n - length bytes) (buffer ++ bytes)

  -- Waits for one part if the limit is reached.
  unfoldable pub make_room : U → ℕ → Action S (PipelineIoError D E) ℕ
  make_room upload parts =
      if parts == max_upload_parts
      then and_then (fail_with (upload_object key) (io.next_part upload)) (λ _. return (parts - 1))
      else return parts

  -- Sends a part that is not empty.
  unfoldable pub send_part : U → Text → ℕ → Action S (PipelineIoError D E) ℕ
  send_part upload [] parts = return parts
  send_part upload (b ∷ buffer) parts = λ s. (ok (parts + 1), io.put_part upload (b ∷ buffer) s)

  unfoldable pub await_parts : U → ℕ → Action S (PipelineIoError D E) (Unit {0})
  await_parts upload zero = return tt
  await_parts upload (suc parts) =
      and_then (fail_with (upload_object key) (io.next_part upload)) (λ _. await_parts upload parts)

  -- After the last part.
  unfoldable pub conclude : U → ℕ → Action S (PipelineIoError D E) (Option (Unit {0}))
  conclude upload parts =
      and_then (await_parts upload parts)
        λ _. and_then (fail_with (upload_object key) (io.complete upload)) λ _. return (some tt)

  -- The loop over the parts.
  unfoldable pub upload_parts : ℕ → U → ℕ → Action S (PipelineIoError D E) (Option (Unit {0}))
  upload_parts zero upload parts = return none
  upload_parts (suc fuel) upload parts = and_then (make_room upload parts) λ room.
      and_then (fill fuel chunk_bytes []) λ filled. match_option filled (return none) λ buffer.
        and_then (send_part upload buffer room) λ sent.
          if ltb (length buffer) chunk_bytes
          then conclude upload sent
          else upload_parts fuel upload sent

  -- The error after an abort, with the error of the abort itself if that failed too.
  unfoldable pub aborted :
      PipelineIoError D E → Result E (Unit {0}) → Result (PipelineIoError D E) (Option (Unit {0}))
  aborted error (ok _) = err error
  aborted error (err abort_source) = err (multipart_abort error abort_source)

  unfoldable pub abort_after :
      U
      → Result (PipelineIoError D E) (Option (Unit {0})) × S
      → Result (PipelineIoError D E) (Option (Unit {0})) × S
  abort_after upload (ok result, s) = (ok result, s)
  abort_after upload (err error, s) = let (r, t) = io.abort upload s in (aborted error r, t)

  -- `write_multipart`
  unfoldable pub write_multipart : ℕ → U → Action S (PipelineIoError D E) (Option (Unit {0}))
  write_multipart fuel upload s = abort_after upload (upload_parts fuel upload 0 s)

  -- `upload_from_temp`
  unfoldable pub upload_from_temp : ℕ → Action S (PipelineIoError D E) (Option (Unit {0}))
  upload_from_temp fuel =
      and_then (fail_with (open_input src) (io.open_file src))
        λ _. and_then (fail_with (upload_object key) (io.put_multipart key)) (write_multipart fuel)
