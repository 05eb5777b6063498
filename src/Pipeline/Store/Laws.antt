-- ===== src/Pipeline/Store/Laws.antt =====
-- What `object_store` documents of the calls that crates/pipeline/src/object_store_io.rs makes: a
-- call changes no object but its target's, and a success is definite. A failure may have taken
-- effect or not. `view s key` is the object under `key`.
use datacrate.Common.{
  ◌≡◌, ◌≢◌, refl, sym, ap, ◌∙◌, true, Bool-cases, and_then_lem, ◌⊎◌, Result-cases, map_err, inl,
  inr, Option, none, some, Result, ok, err, Text, lift, fail_with, last_lem, step_lem, arith,
}
use datacrate.Pipeline.IoError.{PipelineIoError, upload_object, write_manifest}
use datacrate.Pipeline.Manifest.{CompletionManifest, validate}
use datacrate.Pipeline.Store.{deleted, ObjectStore, head, put_manifest, delete, copy_staged_object}

pub record StoreLaws {S E : Type 0} (store : ObjectStore S E) (view : S → Text → Option Text)
    : Type 0 where
  pub head_frame : (key j : Text) (s : S) → view (store.head key s).1 j ≡ view s j
  pub put_frame : (key body j : Text) (s : S) → j ≢ key → view (store.put key body s).1 j ≡ view s j
  pub put_ok :
      (key body : Text) (s : S)
      → (store.put key body s).0 ≡ ok tt
      → view (store.put key body s).1 key ≡ some body
  pub delete_frame : (key j : Text) (s : S) → j ≢ key → view (store.delete key s).1 j ≡ view s j
  pub delete_ok :
      (key : Text) (s : S) → (store.delete key s).0 ≡ ok tt → view (store.delete key s).1 key ≡ none
  pub delete_not_found :
      (key : Text) (s : S) (e : E)
      → (store.delete key s).0 ≡ err e
      → store.is_not_found e ≡ true
      → view (store.delete key s).1 key ≡ none
  pub copy_frame :
      (source to j : Text) (s : S) → j ≢ to → view (store.copy source to s).1 j ≡ view s j
  pub copy_ok :
      (source to : Text) (s : S)
      → (store.copy source to s).0 ≡ ok tt
      → view (store.copy source to s).1 to ≡ view s source

not_ok : {E A : Type 0} {bad : E} {m : A} → err bad ≡ ok m → ⊥
not_ok e = ground arith

map_err_ok : {E F : Type 0} (g : E → F) (r : Result E (Unit {0})) → map_err g r ≡ ok tt → r ≡ ok tt
map_err_ok g (ok _) e = refl
map_err_ok g (err x) e = ground arith

started :
    {S E F A B : Type 0} {a : Result E A} {b : Result F B} {s t u : S} {a' : Result E A}
    {b' : Result F B}
    → lift a s ≡ (a', t)
    → lift b t ≡ (b', u)
    → s ≡ u
started e f = ap (λ p. p.1) e ∙ ap (λ p. p.1) f

module _ (D : Type 0) {S E : Type 0} (store : ObjectStore S E) (view : S → Text → Option Text)
    (laws : StoreLaws store view) where
  pub delete-frame :
      (key j : Text) (s : S) → j ≢ key → view (delete {D = D} store key s).1 j ≡ view s j
  unfolding delete
  delete-frame key j s n = laws.delete_frame key j s n

  -- A deletion that reports success leaves no object, found or not found before.
  pub delete-gone :
      (key : Text) (s : S)
      → (delete {D = D} store key s).0 ≡ ok tt
      → view (delete {D = D} store key s).1 key ≡ none
  unfolding delete deleted
  delete-gone key s e = elim (Result-cases (store.delete key s).0) [
    | inl (_, done) ↦ laws.delete_ok key s done
    | inr (x, failed) ↦ elim (Bool-cases (store.is_not_found x)) [
      | inl gone ↦ laws.delete_not_found key s x failed gone
      | inr other ↦ absurd (not_ok (rw (failed, other) at e))
    ]
  ]

  pub copy-frame :
      (source to j : Text) (s : S)
      → j ≢ to
      → view (copy_staged_object {D = D} store source to s).1 j ≡ view s j
  unfolding copy_staged_object fail_with
  copy-frame source to j s n = laws.copy_frame source to j s n

  pub copy-ok :
      (source to : Text) (s : S)
      → (copy_staged_object {D = D} store source to s).0 ≡ ok tt
      → view (copy_staged_object {D = D} store source to s).1 to ≡ view s source
  unfolding copy_staged_object fail_with
  copy-ok source to s e = laws.copy_ok source to s (map_err_ok (upload_object to) _ e)

  -- Reading an object's metadata changes no object.
  pub head-frame : (key j : Text) (s : S) → view (head {D = D} store key s).1 j ≡ view s j
  unfolding head fail_with
  head-frame key j s = laws.head_frame key j s

  -- What `put_manifest` leaves behind: the manifest's text after a success; the store as it was
  -- after an error, unless that is the error of the upload itself.
  abbrev pub Written :
      (CompletionManifest → Result E Text)
      → CompletionManifest
      → Text
      → S
      → Result (PipelineIoError D E) (Unit {0}) × S
      → Type 0
  Written to_vec manifest key s (ok _, t) =
      ((body : Text) × (to_vec manifest ≡ ok body) × (view t key ≡ some body))
      × ((j : Text) → j ≢ key → view t j ≡ view s j)
  Written to_vec manifest key s (err e, t) =
      ((t ≡ s) ⊎ ((x : E) × (e ≡ upload_object key x)))
      × ((j : Text) → j ≢ key → view t j ≡ view s j)

  put_others :
      (key body : Text) (s : S) (r : Result E (Unit {0})) (t : S)
      → store.put key body s ≡ (r, t)
      → (j : Text) → j ≢ key
      → view t j ≡ view s j
  put_others key body s r t e j n = ap (λ p. view p.1 j) (sym e) ∙ laws.put_frame key body j s n

  put_stored :
      (key body : Text) (s t : S) → store.put key body s ≡ (ok tt, t) → view t key ≡ some body
  put_stored key body s t e =
      ap (λ p. view p.1 key) (sym e) ∙ laws.put_ok key body s (ap (λ p. p.0) e)

  pub put_manifest-Written :
      (to_vec : CompletionManifest → Result E Text) (manifest : CompletionManifest) (key : Text)
      (s : S)
      → Written to_vec manifest key s (put_manifest store to_vec manifest key s)
  unfolding put_manifest
  put_manifest-Written to_vec manifest key s =
      and_then_lem (Written to_vec manifest key s) (lift (validate manifest)) _ s
        (λ _ t e.
          step_lem (Written to_vec manifest key s) write_manifest (lift (to_vec manifest)) _ t
            (λ body u f.
              last_lem (Written to_vec manifest key s) (upload_object key) (store.put key body) u
                (λ _ v g. (
                  (body, ap (λ p. p.0) f, put_stored key body u v g),
                  (λ j n.
                      put_others key body u (ok tt) v g j n
                      ∙ ap (λ w. view w j) (sym (started e f))),
                ))
                (λ x v g. (
                  inr (x, refl),
                  (λ j n.
                      put_others key body u (err x) v g j n
                      ∙ ap (λ w. view w j) (sym (started e f))),
                )))
            (λ x u f. (inl (sym (started e f)), (λ j n. ap (λ w. view w j) (sym (started e f))))))
        (λ x t e.
          (inl (sym (ap (λ p. p.1) e)), (λ j n. ap (λ w. view w j) (sym (ap (λ p. p.1) e)))))
