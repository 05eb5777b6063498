-- ===== src/Lib.antt =====
-- datacrate: a verification library beside the Rust workspace of that name.
--
-- The workspace is a data-engineering platform. This library models the contracts of its data, the
-- pipeline that checks and moves the data, and its smaller programs as far as they have logic.
--
-- Contracts (crates/contracts/src/lib.rs). `#[derive(Contract)]` gives a type a `TypeShape`;
-- `SchemaConforms::CHECK` compares a producer's shape with a contract's under a `SchemaPolicy` while
-- the compiler evaluates constants, and a mismatch stops the build with a message.
--   Contracts/Names.antt     `str_eq`, `str_eq_ci`, `to_ascii_lower`
--   Contracts/Shape.antt     `TypeShape`, `FieldShape`, `SchemaPolicy`, `Mode`, `policy_mode`
--   Contracts/Diff.antt      `Diff`, `Diffs`, `Comparison`, `rejects`, `append_segment`
--   Contracts/Compare.antt   lookup, `shape_eq`, the traversals, `compare`, `conforms`
--   Contracts/Render.antt    the pieces of the message and `CHECK`
-- Below Compare and Render stand the proofs: the traversal against the list of all its differences
-- (Trace, TraceRefines), the bounded display (Display), the index-aligned policies (Aligned,
-- Ordered), lookup (Lookup), the by-name policies (Accepted, ByName), what follows for callers
-- (Policies, Evolution); the message as text (Message). Contracts/Examples.antt runs the shapes of
-- the crate's own tests.
-- Arrow (crates/contracts/src/arrow.rs and arrow/validation.rs) maps shapes to Arrow fields and checks
-- batches against them.
--   Contracts/Arrow.antt             `schema`, `struct_fields`, `map_field`, its errors and depth limit
--   Contracts/Arrow/Validation.antt  `BatchValidator`, `fields_match`, the walk of `Node` over nested arrays
-- Below it: Supported (what is mapped), RoundTrip (reading a field back), Matches (equal fields), Active and
-- Batches (which values count, and the errors), Declared (a valid batch against the declared struct), Exact
-- (the policies of crates/contracts on the read-back shape). A `DataType` is what the mapping can build, any
-- other being the leaf `other`; an array is what the walk reads of it.
-- A slice of fields is the data type `Fields`; a text is the list of its bytes; a `while` loop over a
-- slice is a recursion on the rest of the slice; `&mut` parameters are passed and returned.
--
-- Pipeline (crates/pipeline/src). A producer thread reads a CSV file into batches and sends them to a
-- consumer thread, which writes Parquet; the output is published locally by a rename or remotely
-- through an object store, where a completion record with a digest of the rows is bound to it.
--   Pipeline/Error.antt         bounded.rs `PipelineError`, the publication phases and outcomes
--   Pipeline/IoError.antt       lib.rs `PipelineIoError` and the violations it carries
--   Pipeline/Transport.antt     bounded/transport.rs: `send`, `recv`, `cancel`, the drops, `transform`
--   Pipeline/Transport/System.antt  the threads as a step relation over those critical sections
--   Pipeline/Manifest.antt      manifest.rs: the digest, `CompletionManifest`, its checks and versions
--   Pipeline/Store.antt         object_store_io.rs: `head_object`, `put_manifest`, `delete_object`, the copy
--   Pipeline/Download.antt      object_store_io.rs `download_captured`, `download_completed_output`
--   Pipeline/Upload.antt        object_store_io.rs `upload_from_temp`, `write_multipart`
--   Pipeline/Publication.antt   publication.rs `publish`
--   Pipeline/Staging.antt       staging.rs `LocalStagedOutput`, `publish_with`
--   Pipeline/Cancellation.antt  bounded.rs `CancellationToken`
--   Pipeline/Rows.antt          lib.rs: `parse_row`, `batch_from_rows`, `fixture_to_record_batches`
--   Pipeline/BatchContract.antt batch_contract.rs `validated_columns`
--   Pipeline/Query/*.antt       datafusion_query.rs: amounts, rows, the range aggregate, days, the guardrail
--   Pipeline/Simd.antt          simd_add.rs: the reference, the scalar and the vector additions
--   Pipeline/Bounded.antt       bounded.rs `produce_batches`, `consume_batches`, `run_bounded_pipeline`
--   Pipeline/RemoteRun.antt     bounded.rs `run_bounded_pipeline_s3`
-- A load or a store outside its slice is the outcome `none` of Simd. chrono's parse of a date, the CSV
-- reader and DataFusion's plans are arguments of the queries.
-- Below each stand its proofs. RemoteRun: Quiet (what leaves the store alone), Promises and Remote. Transport: what a
-- turn found (System/Turns), the invariant
-- (System/Invariant), what callers rely on (System/Guarantees), the arithmetic of charges (Charge).
-- Manifest: Digest, Validity. Store/Laws states what an object store documents; Publication/Outcome
-- what each outcome claims, Closure and Truth have the proofs; Staging/Truth is the same for files.
-- Download: Complete and Bound; Upload: Steps, Stored and Ends. BatchContract/Accepts is the accepted
-- batches. Cancellation/System is the interleaving of cancel and register. Bounded: Production,
-- Audit and Report, Ends, Run. Each Examples module runs its component on concrete inputs.
-- A critical section runs from the lock to its release or to a wait on the condition variable; a poisoned
-- lock is taken over by the source and so has no trace here. A call on a store, a file system or a
-- channel is an `Action`: a function of a state that returns a result and the new state. Object stores,
-- file systems, the CSV and JSON readers, the row hasher, Arrow and Parquet are other libraries' and are
-- arguments, with what they document as records of laws. The sizes of a batch's columns are the
-- parameter `sizes`. A `usize` has 64 bits. Row and batch counters are natural numbers and do not wrap.
-- An error of `transform` changes the count and releases the reservation in one step, and the drop of a
-- lease at the end of a turn of the consumer is a step of System only. `run_bounded_pipeline` takes what its two threads end with as an argument, and `publish`
-- takes the upload of the staged file, of which Publication/Outcome states what it relies on.
--
-- Typestate (crates/typestate/src/contract_pipeline.rs) composes a source, transforms and a sink whose
-- contracts fit, and runs them.
--   Typestate/ContractPipeline.antt  `source`, `transform`, `sink`, `build`, `run`, the report and the error
--   Typestate/Builder.antt           typestate/src/lib.rs `PipelineBuilder`; Builder/Stages has the proof
-- Below ContractPipeline: Counts, Connected, Guarantees (what a sink receives) and Preflight (when `build`
-- succeeds). A callback acts on a world `W`, and the source yields finitely many batches. The checks that the compiler
-- makes by trait bounds are `enforce`.
--
-- Programs. crates/csv-cli selects a column of a CSV file, crates/dtl-core splits a buffer into rows, and
-- crates/schema-codegen writes Rust structs for an Arrow schema.
--   Csv/Select.antt  csv-select.rs: `run` and what it calls; Csv/Select/Output has the proof
--   Csv/Batch.antt   csv_zero_copy.rs `CsvBatch`
--   Codegen.antt     schema-codegen/src/lib.rs `struct_source`, on tokens as data
-- Codegen/Closed says which schemas are mapped and when a file is complete, Codegen/Reference describes the
-- file of a schema, and Codegen/Outcome and Reference have the proofs. The name of a struct is taken to be an identifier: `format_ident!` panics on others.
--
-- Bounds. The depth limit of the Arrow mapping is 128. `MAX_DIFFS` is 128 and `MAX_PATH_DEPTH` is 8, as in
-- the source. The loop of `consume_batches` takes fuel, and more fuel than messages to come is enough;
-- `chunks` takes the length of its list, and the loop over the ranges of a download one more than the size of the object, which always suffices;
-- for `write_multipart` two more than reads to come are enough.
--
-- Not modelled: the derive macros; `RemotePipelineBuilder`, which passes its parts on to
-- `run_bounded_pipeline_s3`; the planning and execution of queries, which DataFusion and Ballista do; Arrow
-- and Parquet encoding; of schema-codegen the text types, the readers of other formats and the generated
-- main function; scaffold-cli, which copies templates; benchmarks, lessons and the Scala projects.
pub mod Common
pub mod Contracts
pub mod Pipeline
pub mod Typestate
pub mod Csv
pub mod Codegen
