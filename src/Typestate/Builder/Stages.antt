-- ===== src/Typestate/Builder/Stages.antt =====
-- What `build` of crates/typestate/src/lib.rs lets through between the stages of a builder.
use datacrate.Common.{ℕ, ◌≡◌, ◌↔◌, true, Option, List, Result, Text}
use datacrate.Pipeline.Rows.{Record}
use datacrate.Pipeline.BatchContract.{Column, Arrow}
use datacrate.Pipeline.BatchContract.Accepts.{Ingest}
use datacrate.Typestate.Builder.{Callback}

module _ {D E Array Ints Strings : Type 0} (arrow : Arrow D Array Ints Strings)
    (same : (a b : D) → (arrow.same_type a b ≡ true) ↔ (a ≡ b))
    (try_new : List ℕ → List Text → List (Option Text) → Result E (List (Column D Array)))
    (open_csv : Text → Result E (List (Result E Record))) where
  abbrev Step : Type 0
  Step = Callback D E Array

  -- A batch of the ingest schema.
  abbrev pub IngestBatch : List (Column D Array) → Type 0
  IngestBatch batch = (views : Ints × Strings × Strings) × Ingest E arrow same batch views
