-- ===== src/Pipeline/RemoteRun/Examples.antt =====
-- A remote run of crates/pipeline/src/bounded.rs over objects in memory and two local files.
use datacrate.Common.{
  ℕ, ◌≡◌, refl, ap, ◌<◌, ◌^◌, true, false, [], ◌∷◌, ◌++◌, Option, none, some, Result, ok, err,
  ok_inj, Text, text, arith, match_option,
}
use datacrate.Pipeline.IoError.{open_input}
use datacrate.Pipeline.Publication.Outcome.{UploadLaws}
use datacrate.Pipeline.Manifest.{ObjectMeta}
use datacrate.Pipeline.Store.Laws.{StoreLaws}
use datacrate.Pipeline.Download.{GetOptions, GetResult}
use datacrate.Pipeline.Publication.Examples.{Objects, write, meta_of, write_other, write_same}
use datacrate.Pipeline.Bounded.{default}
use datacrate.Pipeline.Bounded.Run.{RunLaws}
use datacrate.Pipeline.RemoteRun.{Machine, run_bounded_pipeline_s3}
use datacrate.Pipeline.RemoteRun.Quiet.{Apart}
use datacrate.Pipeline.RemoteRun.Promises.{RemoteLaws, Remote}
use datacrate.Pipeline.RemoteRun.Remote.{run_s3-Remote}

-- The objects, the downloaded file, the staged file, and the local files by their paths.
abbrev World : Type 0
World = Objects × Text × Text × (Text → Option Text)

abbrev objects : World → Text → Option Text
objects s = s.0

abbrev answer : Text → GetOptions → GetResult ℕ
answer key options = record {
  meta = record {
    location = key;
    last_modified = text "now";
    size = 3;
    e_tag = some (text "etag");
    version = none;
  };
  range = match_option options.range (0, 3) (λ r. r);
  stream = ok (text "a,b") ∷ [];
}

-- Nobody cancels, and each call succeeds.
abbrev machine : Machine World Text (Unit {0}) ℕ Text
machine = record {
  channel = record {
    is_cancelled = λ s. (false, s);
    send = λ message s. (ok tt, s);
    recv = λ s. (ok none, s);
    transform = λ f lease s. (ok lease, s);
  };
  files = record {
    tempfile_in = λ dir s. (ok (text "file"), s);
    reopen = λ file s. (ok file, s);
    sync_file = λ file s. (ok tt, s);
    persist = λ file output s. (ok tt, (s.0, s.1, s.2, write output (some s.2) s.3));
    sync_parent = λ dir s. (ok tt, s);
  };
  path_parent = λ _. none;
  parquet_writer =
      λ file s. (ok (record { write = λ b s. (ok tt, s); into_inner = λ s. (ok tt, s) }), s);
  metrics = λ s. none;
  threads = λ input w s. (ok tt, ok default, (s.0, s.1, text "rows", s.3));
  tempdir = λ s. (ok (text "/tmp/d"), s);
  source = record {
    head = λ key s. (
      ok (answer key (record { head = true; range = none; version = none; if_match = none })).meta,
      s,
    );
    get_opts = λ key options s. (ok (answer key options), s);
    is_condition = λ e. false;
    create = λ path s. (ok tt, (s.0, [], s.2, s.3));
    write_all = λ chunk s. (ok tt, (s.0, s.1 ++ chunk, s.2, s.3));
  };
  store = record {
    head = λ key s. (meta_of key (s.0 key), s);
    put = λ key body s. (ok tt, (write key (some body) s.0, s.1, s.2, s.3));
    delete = λ key s. (ok tt, (write key none s.0, s.1, s.2, s.3));
    copy = λ source to s. (ok tt, (write to (s.0 source) s.0, s.1, s.2, s.3));
    is_not_found = λ _. false;
  };
  env = record {
    path_from = λ p. p;
    to_vec = λ m. ok (text "{}");
    temp_dir = text "/tmp";
    no_name = 1;
  };
  upload_from_temp = λ path key s.
      match_option (s.3 path) (err (open_input path 2), s)
        λ body. (ok tt, (write key (some body) s.0, s.1, s.2, s.3));
}

machine-Apart : Apart machine objects
machine-Apart = record {
  flag = λ s. refl;
  tempdir = λ s. refl;
  head = λ key s. refl;
  get_opts = λ key options s. refl;
  create = λ path s. refl;
  write_all = λ chunk s. refl;
  tempfile_in = λ dir s. refl;
  reopen = λ f s. refl;
  sync_file = λ f s. refl;
  persist = λ f output s. refl;
  sync_parent = λ dir s. refl;
  writer = λ f s. refl;
  threads = λ input w s. refl;
}

store_laws : StoreLaws machine.store objects
store_laws = record {
  head_frame = λ key j s. refl;
  put_frame = λ key body j s n. write_other key j (some body) s.0 n;
  put_ok = λ key body s e. write_same key (some body) s.0;
  delete_frame = λ key j s n. write_other key j none s.0 n;
  delete_ok = λ key s e. write_same key none s.0;
  delete_not_found = λ key s x e f. write_same key none s.0;
  copy_frame = λ source to j s n. write_other to j (s.0 source) s.0 n;
  copy_ok = λ source to s e. write_same to (s.0 source) s.0;
}

answered :
    (key : Text) (s t : World) (meta : ObjectMeta)
    → machine.source.head key s ≡ (ok meta, t)
    → meta.size < 2 ^ 64
answered key s t meta e =
    let same : 3 ≡ meta.size =
      ap (λ m. m.size) (ok_inj (ap {B = Result ℕ ObjectMeta} (λ p. p.0) e)) in
    omega (arith, same)

no_error : {x : ℕ} → ok tt ≡ err x → ⊥
no_error e = ground arith

local_run :
    (output : Text)
    → RunLaws machine.channel machine.files machine.parquet_writer output
        (λ s. s.3 output)
        (λ f s. s.2)
        (λ w s. s.2)
local_run output = record {
  flag = λ s. refl;
  flag_held = λ f s. refl;
  tempfile_in = λ dir s. refl;
  reopen = λ f s. refl;
  same_file = λ f h s t u e. refl;
  writer = λ f s. refl;
  writes_to = λ h w s t u e. refl;
  publication = λ f. record {
    sync_file_frame = λ s. refl;
    sync_file_held = λ s. refl;
    sync_parent_frame = λ dir s. refl;
    persist_ok = λ s e. write_same output (some s.2) s.3;
    persist_err = λ s x e. absurd (no_error e);
  };
}

stored_upload :
    (path contents : Text) (s : World)
    → s.3 path ≡ some contents
    → UploadLaws objects contents (machine.upload_from_temp path) s
stored_upload path contents s stands = record {
  frame = λ key j n. rw stands (write_other key j (some contents) s.0 n);
  stored = λ key e. rw stands (write_same key (some contents) s.0);
}

machine_laws : RemoteLaws machine objects (λ path s. s.3 path) (λ f s. s.2) (λ w s. s.2) (λ s. s.1)
machine_laws = record {
  apart = machine-Apart;
  store = store_laws;
  file = record { get_opts = λ key options s. refl; write_all = λ chunk s e. refl };
  sizes = answered;
  runs = local_run;
  threads = λ input output w s. refl;
  uploads = stored_upload;
}

abbrev empty : World
empty = (λ key. none, [], [], λ path. none)

run_s3-Remote_example :
    Remote machine objects
      (λ path s. s.3 path)
      (λ f s. s.2)
      (λ w s. s.2)
      (λ s. s.1)
      machine_laws
      (text "in")
      (text "out")
      (text "r1")
      empty
      (run_bounded_pipeline_s3 machine
        (ok (text "/tmp/r1", some (text "r1")))
        (text "in")
        (text "out")
        empty)
run_s3-Remote_example =
    run_s3-Remote machine objects (λ path s. s.3 path) (λ f s. s.2) (λ w s. s.2) (λ s. s.1)
      machine_laws (text "in") (text "out") (text "r1") refl refl (text "/tmp/r1") empty
