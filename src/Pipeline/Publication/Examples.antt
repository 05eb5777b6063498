-- ===== src/Pipeline/Publication/Examples.antt =====
-- `publish` of crates/pipeline/src/publication.rs on a store in memory.
use datacrate.Common.{
  ℕ, ◌≡◌, ◌≢◌, refl, false, Option, none, some, Result, ok, err, Text, text, Action, if◌then◌else◌,
  arith,
}
use datacrate.Contracts.Names.{str_eq, str_eq_iff}
use datacrate.Pipeline.IoError.{PipelineIoError}
use datacrate.Pipeline.Manifest.{ObjectMeta}
use datacrate.Pipeline.Store.{ObjectStore}
use datacrate.Pipeline.Store.Laws.{StoreLaws}
use datacrate.Pipeline.Publication.{Env, publish}
use datacrate.Pipeline.Publication.Outcome.{UploadLaws, Truthful}
use datacrate.Pipeline.Publication.Truth.{publish-Truthful}

-- The objects by their keys.
abbrev pub Objects : Type 0
Objects = Text → Option Text

pub write : Text → Option Text → Objects → Objects
write key object s j = if str_eq j key then object else s j

unfoldable pub meta_of : Text → Option Text → Result ℕ ObjectMeta
meta_of key none = err 404
meta_of key (some body) = ok (record {
  location = key;
  last_modified = text "now";
  size = 0;
  e_tag = some (text "etag");
  version = none;
})

abbrev memory : ObjectStore Objects ℕ
memory = record {
  head = λ key s. (meta_of key (s key), s);
  put = λ key body s. (ok tt, write key (some body) s);
  delete = λ key s. (ok tt, write key none s);
  copy = λ source to s. (ok tt, write to (s source) s);
  is_not_found = λ _. false;
}

abbrev object : Objects → Text → Option Text
object s key = s key

pub write_other : (key j : Text) (o : Option Text) (s : Objects) → j ≢ key → write key o s j ≡ s j
unfolding write
write_other key j o s n = ground (arith, str_eq_iff j key)

pub write_same : (key : Text) (o : Option Text) (s : Objects) → write key o s key ≡ o
unfolding write
write_same key o s = rw ((str_eq_iff key key).1 refl) refl

memory_laws : StoreLaws memory object
memory_laws = record {
  head_frame = λ key j s. refl;
  put_frame = λ key body j s n. write_other key j (some body) s n;
  put_ok = λ key body s e. write_same key (some body) s;
  delete_frame = λ key j s n. write_other key j none s n;
  delete_ok = λ key s e. write_same key none s;
  delete_not_found = λ key s x e f. write_same key none s;
  copy_frame = λ source to j s n. write_other to j (s source) s n;
  copy_ok = λ source to s e. write_same to (s source) s;
}

abbrev upload : Text → Action Objects (PipelineIoError (Unit {0}) ℕ) (Unit {0})
upload key s = (ok tt, write key (some (text "rows")) s)

upload_laws : (s : Objects) → UploadLaws object (text "rows") upload s
upload_laws s = record {
  frame = λ key j n. write_other key j (some (text "rows")) s n;
  stored = λ key e. write_same key (some (text "rows")) s;
}

abbrev env : Env Objects (Unit {0}) ℕ
env = record {
  path_from = λ p. p;
  to_vec = λ m. ok (text "{}");
  temp_dir = text "/tmp";
  no_name = 1;
}

abbrev input : ObjectMeta
input = record {
  location = text "in";
  last_modified = text "then";
  size = 4;
  e_tag = some (text "e0");
  version = none;
}

abbrev empty : Objects
empty key = none

publish-Truthful_example :
    Truthful env object (text "rows") (text "out") 2 (text "r1") (text "out.staging/r1") empty (
      publish env memory upload
        (ok (text "/tmp/r1", some (text "r1")))
        (text "out")
        (text "in")
        input
        2
        9
        empty)
publish-Truthful_example =
    publish-Truthful env memory object memory_laws (text "rows") upload (text "/tmp/r1") (text "r1")
      (text "out") (text "in") input 2 9 empty (upload_laws empty) refl refl
