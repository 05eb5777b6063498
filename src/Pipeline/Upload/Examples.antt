-- ===== src/Pipeline/Upload/Examples.antt =====
-- The upload of crates/pipeline/src/object_store_io.rs from a file that a read takes bytes from.
use datacrate.Common.{
  ℕ, zero, suc, ◌+◌, ◌≤◌, ◌<◌, ◌-◌, ◌≡◌, refl, sym, ap, false, [], ◌∷◌, ◌++◌, Option, none, some,
  Result, ok, err, Text, text, take, length, arith,
}
use datacrate.Pipeline.Rows.{drop}
use datacrate.Pipeline.Upload.{Multipart, write_multipart}
use datacrate.Pipeline.Upload.Steps.{UploadIoLaws}
use datacrate.Pipeline.Upload.Stored.{Holds, write_multipart-Holds}
use datacrate.Pipeline.Upload.Ends.{FiniteReads, Ended, write_multipart-Ended}

-- The unread file, the parts sent, how many of them are not stored, and the object.
abbrev Disk : Type 0
Disk = Text × Text × ℕ × Option Text

-- An upload that is completed too early has lost its parts.
abbrev assembled : ℕ → Text → Option Text
assembled zero sent = some sent
assembled (suc pending) sent = none

abbrev disk : Multipart Disk ℕ ℕ
disk = record {
  open_file = λ path s. (ok tt, s);
  read = λ n s. (ok (take n s.0), (drop n s.0, s.1, s.2, s.3));
  is_interrupted = λ e. false;
  put_multipart = λ key s. (ok 0, s);
  put_part = λ u b s. (s.0, s.1 ++ b, suc s.2, s.3);
  next_part = λ u s. (ok tt, (s.0, s.1, s.2 - 1, s.3));
  complete = λ u s. (ok tt, (s.0, s.1, s.2, assembled s.2 s.1));
  abort = λ u s. (ok tt, s);
}

take-drop : (n : ℕ) (xs : Text) → xs ≡ take n xs ++ drop n xs
unfolding drop
take-drop zero xs = refl
take-drop (suc n) [] = refl
take-drop (suc n) (x ∷ xs) = ap (◌∷◌ x) (take-drop n xs)

length-take : (n : ℕ) (xs : Text) → length (take n xs) ≤ n
length-take zero xs = omega arith
length-take (suc n) [] = omega arith
length-take (suc n) (x ∷ xs) = omega (arith, length-take n xs)

take_none : (n : ℕ) (xs : Text) → length (take n xs) ≡ 0 → 0 < n → xs ≡ []
take_none zero xs e h = absurd (omega (arith, h))
take_none (suc n) [] e h = refl
take_none (suc n) (x ∷ xs) e h = absurd (omega (arith, e))

length-drop : (n : ℕ) (xs : Text) → length (drop n xs) + length (take n xs) ≡ length xs
unfolding drop
length-drop zero xs = omega arith
length-drop (suc n) [] = omega arith
length-drop (suc n) (x ∷ xs) = omega (arith, length-drop n xs)

read_bytes : {a b : Text} → ◌≡◌ {A = Result ℕ Text} (ok a) (ok b) → a ≡ b
read_bytes e = cc

never : {a : Text} {x : ℕ} → ok a ≡ err x → ⊥
never e = ground arith

disk_laws : UploadIoLaws disk (text "key") (λ s. s.0) (λ s. s.1) (λ s. s.2) (λ s j. s.3)
disk_laws = record {
  read_ok =
      λ n s bytes e. rw (sym (read_bytes e)) (take-drop n s.0, length-take n s.0, take_none n s.0);
  read_err = λ n s x e. absurd (never e);
  read_sent = λ n s. refl;
  read_pending = λ n s. refl;
  put_sent = λ u b s. refl;
  put_unread = λ u b s. refl;
  put_pending = λ u b s. refl;
  next_sent = λ u s. refl;
  next_unread = λ u s. refl;
  next_pending = λ u s flight e. omega (arith, flight);
  complete_ok = λ u s idle e. ap (λ n. assembled n s.1) idle;
}

disk_ends : FiniteReads disk (λ s. length s.0)
disk_ends = record {
  read_some = λ n s bytes e.
      rw (sym (read_bytes e)) (
        omega (arith, length-drop n s.0),
        λ some_read. omega (arith, length-drop n s.0, some_read),
      );
  interrupted = λ n s x e i. absurd (never e);
  put_part = λ u b s. omega arith;
  next_part = λ u s. omega arith;
}

abbrev begun : Disk
begun = (text "rows", [], 0, none)

write_multipart-Holds_example :
    Holds
      (Unit {0})
      disk
      (text "out")
      (text "key")
      (λ s. s.0)
      (λ s. s.1)
      (λ s. s.2)
      (λ s j. s.3)
      disk_laws
      (text "rows")
      (write_multipart disk (text "out") (text "key") 6 0 begun)
write_multipart-Holds_example =
    write_multipart-Holds (Unit {0}) disk (text "out") (text "key") (λ s. s.0) (λ s. s.1) (λ s. s.2)
      (λ s j. s.3) disk_laws 6 0 begun refl refl

write_multipart-Ended_example :
    Ended
      (Unit {0})
      disk
      (text "out")
      (text "key")
      (λ s. length s.0)
      disk_ends
      (write_multipart disk (text "out") (text "key") 6 0 begun)
write_multipart-Ended_example =
    write_multipart-Ended (Unit {0}) disk (text "out") (text "key") (λ s. length s.0) disk_ends 6 0
      begun (omega arith)
