-- ===== src/Typestate/Builder.antt =====
-- crates/typestate/src/lib.rs: the builders whose type says which stages are set. A method of a builder is
-- a function on the type its `impl` block names, so that `build` takes a builder with all three.
pub mod Stages
mod Examples
use datacrate.Common.{ℕ, Option, none, some, List, Result, ok, err, ◌>>=◌, map_err, Text, Action}
use datacrate.Pipeline.IoError.{PipelineIoError, callback, CallbackStage}
use datacrate.Pipeline.IoError
use datacrate.Pipeline.Error.{PipelineError}
use datacrate.Pipeline.Rows.{Record, fixture_to_record_batch}
use datacrate.Pipeline.BatchContract.{Column, Arrow, validate_ingest_batch}
use datacrate.Pipeline.Bounded.{PipelineReport}

pub data Missing : Type 0 where
  missing : Missing

pub data Present (T : Type 0) : Type 0 where
  present : T → Present T

-- `self.field.0`
abbrev pub value : {T : Type 0} → Present T → T
value (present t) = t

pub record PipelineBuilder (Src Xf Snk : Type 0) : Type 0 where
  pub source : Src
  pub transform : Xf
  pub sink : Snk

-- `PipelineBuilder::new`
unfoldable pub new : PipelineBuilder Missing Missing Missing
new = record { source = missing; transform = missing; sink = missing }

unfoldable pub with_source :
    {P Xf Snk : Type 0} → P → PipelineBuilder Missing Xf Snk → PipelineBuilder (Present P) Xf Snk
with_source path self = record {
  source = present path;
  transform = self.transform;
  sink = self.sink;
}

unfoldable pub with_transform :
    {F Src Snk : Type 0} → F → PipelineBuilder Src Missing Snk → PipelineBuilder Src (Present F) Snk
with_transform f self = record { source = self.source; transform = present f; sink = self.sink }

unfoldable pub with_sink :
    {F Src Xf : Type 0} → F → PipelineBuilder Src Xf Missing → PipelineBuilder Src Xf (Present F)
with_sink f self = record { source = self.source; transform = self.transform; sink = present f }

-- A `Transform` or a `Sink`.
abbrev pub Callback : Type 0 → Type 0 → Type 0 → Type 0
Callback D E Array = List (Column D Array) → Result (PipelineIoError D E) (List (Column D Array))

module _ {D E Array Ints Strings : Type 0} (arrow : Arrow D Array Ints Strings)
    (try_new : List ℕ → List Text → List (Option Text) → Result E (List (Column D Array)))
    (open_csv : Text → Result E (List (Result E Record))) where
  -- `PipelineBuilder::build`
  unfoldable pub build :
      PipelineBuilder (Present Text) (Present (Callback D E Array)) (Present (Callback D E Array))
      → Result (PipelineIoError D E) (List (Column D Array))
  build self = do
    read ← fixture_to_record_batch try_new (value self.source) (open_csv (value self.source))
    transformed ← map_err (callback CallbackStage.transform 0) (value self.transform read)
    _ ← validate_ingest_batch arrow transformed
    written ← map_err (callback CallbackStage.sink 0) (value self.sink transformed)
    _ ← validate_ingest_batch arrow written
    ok written
