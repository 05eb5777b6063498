-- ===== src/Pipeline/Download/Examples.antt =====
-- Downloads of crates/pipeline/src/object_store_io.rs from a store that holds one object of three bytes.
use datacrate.Common.{
  ℕ, ◌≡◌, ◌<◌, ◌^◌, refl, sym, false, [], ◌∷◌, ◌++◌, none, some, Result, ok, err, Text, text,
  Action, match_option, arith,
}
use datacrate.Contracts.Names.{str_eq}
use datacrate.Pipeline.IoError.{invalid_snapshot, location}
use datacrate.Pipeline.Manifest.{ObjectMeta, CompletionManifest}
use datacrate.Pipeline.Download.{
  Source, GetOptions, GetResult, download_captured, download_completed_output,
}
use datacrate.Pipeline.Download.Complete.{FileLaws, Downloaded, download-Downloaded}
use datacrate.Pipeline.Download.Bound.{Bound, completed-Bound}

abbrev meta : ObjectMeta
meta = record {
  location = text "out";
  last_modified = text "now";
  size = 3;
  e_tag = some (text "e1");
  version = none;
}

abbrev answer : GetOptions → GetResult ℕ
answer options = record {
  meta = meta;
  range = match_option options.range (0, 3) (λ r. r);
  stream = ok (text "ab") ∷ ok (text "c") ∷ [];
}

-- The state is the local file.
abbrev store : Source Text ℕ
store = record {
  head = λ key s. (ok meta, s);
  get_opts = λ key options s. (ok (answer options), s);
  is_condition = λ e. false;
  create = λ path s. (ok tt, []);
  write_all = λ chunk s. (ok tt, s ++ chunk);
}

file_laws : FileLaws store (λ s. s)
file_laws = record { get_opts = λ key options s. refl; write_all = λ chunk s e. refl }

download-Downloaded_example :
    Downloaded
      (Unit {0})
      store
      (text "out")
      (text "tmp")
      (λ s. s)
      file_laws
      meta
      []
      (download_captured store (text "out") (text "tmp") meta [])
download-Downloaded_example =
    download-Downloaded (Unit {0}) store (text "out") (text "tmp") (λ s. s) file_laws meta []
      (omega arith)

wrong_key :
    download_captured {D = Unit {0}} store (text "in") (text "tmp") meta []
    ≡ (err (invalid_snapshot (text "in") location), [])
unfolding download_captured str_eq
wrong_key = refl

small :
    (k : Text) (o : GetOptions) (s : Text) (r : GetResult ℕ)
    → (store.get_opts k o s).0 ≡ ok r
    → r.meta.size < 2 ^ 64
small k o s r e = subst_size (same e)
  where
    same : ◌≡◌ {A = Result ℕ (GetResult ℕ)} (ok (answer o)) (ok r) → answer o ≡ r
    same h = cc

    subst_size : answer o ≡ r → r.meta.size < 2 ^ 64
    subst_size h = rw (sym h) (omega arith)

abbrev get : Text → Action Text ℕ (Result ℕ Text)
get key s = (ok (ok (text "{}")), s)

abbrev from_slice : Text → Result ℕ CompletionManifest
from_slice bytes = ok (record {
  schema_version = 2;
  input_key = text "in";
  input_size = 9;
  input_e_tag = none;
  input_last_modified = text "then";
  row_count = 2;
  content_digest = text "0f";
  run_id = some (text "run");
  input_version = none;
  output_key = some (text "out");
  output_e_tag = some (text "e1");
  output_version = none;
  digest_scheme = some (text "legacy-ahash-wrapping-sum-v1");
})

completed-Bound_example :
    Bound
      (Unit {0})
      store
      (text "out")
      (text "tmp")
      (λ s. s)
      file_laws
      small
      (λ p. p)
      get
      from_slice
      (download_completed_output store (text "out") (text "tmp") (λ p. p) get from_slice [])
completed-Bound_example =
    completed-Bound (Unit {0}) store (text "out") (text "tmp") (λ s. s) file_laws small (λ p. p) get
      from_slice []
