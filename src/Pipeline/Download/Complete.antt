-- ===== src/Pipeline/Download/Complete.antt =====
-- Proofs on the ranged download of crates/pipeline/src/object_store_io.rs: its fuel and the bytes written.
use datacrate.Common.{
  ℕ, zero, suc, ◌+◌, ◌-◌, ◌^◌, ◌≤◌, ◌<◌, ◌≡◌, refl, sym, subst, ap, ◌∙◌, false, ◌&&◌, List, [], ◌∷◌,
  ◌++◌, Option, none, some, Result, ok, err, Text, return, lift, and_then_lem, step_lem, ltb,
  ltb→lt, ◌==◌, ==_iff, match_option, length, length-append, Bool-cases, inl, inr, arith,
}
use datacrate.Contracts.Names.{str_eq}
use datacrate.Pipeline.IoError.{PipelineIoError}
use datacrate.Pipeline.Manifest.{ObjectMeta, is_none}
use datacrate.Pipeline.Download.{
  Source, GetOptions, saturating_add, not_empty, check_response, receive, download_range, range_end,
  download_ranges, download_captured, chunk_bytes,
}

-- Reads do not touch the file, and a write that succeeds appends. `got s` is the file's contents.
pub record FileLaws {S E : Type 0} (source : Source S E) (got : S → Text) : Type 0 where
  pub get_opts :
      (key : Text) (options : GetOptions) (s : S) → got (source.get_opts key options s).1 ≡ got s
  pub write_all :
      (chunk : Text) (s : S)
      → (source.write_all chunk s).0 ≡ ok tt
      → got (source.write_all chunk s).1 ≡ got s ++ chunk

unsaturated :
    (expected received n : ℕ)
    → expected ≤ chunk_bytes
    → ltb expected (saturating_add received n) ≡ false
    → saturating_add received n ≡ received + n
unfolding saturating_add
unsaturated expected received n small fits = ground arith

range_end_bounds :
    (captured : ObjectMeta) (offset : ℕ)
    → captured.size < 2 ^ 64
    → offset < captured.size
    → (offset < range_end captured offset)
      × (range_end captured offset ≤ captured.size)
      × (range_end captured offset - offset ≤ chunk_bytes)
unfolding range_end saturating_add
range_end_bounds captured offset fits h = ground arith

module _ (D : Type 0) {S E : Type 0} (source : Source S E) (key dest : Text) (got : S → Text)
    (laws : FileLaws source got) where
  -- The stream's loop wrote as many bytes as it counted.
  abbrev Received : ℕ → ℕ → S → Result (PipelineIoError D E) ℕ × S → Type 0
  Received expected received s (ok r, t) = (length (got t) + received ≡ length (got s) + r)
  Received expected received s (err _, t) = Unit {0}

  appended :
      (chunk : Text) (s t : S)
      → source.write_all chunk s ≡ (ok tt, t)
      → length (got t) ≡ length (got s) + length chunk
  appended chunk s t e =
      ap (λ p. length (got p.1)) (sym e)
      ∙ ap length (laws.write_all chunk s (ap (λ p. p.0) e))
      ∙ length-append (got s) chunk

  moved :
      (expected received n : ℕ) (s t : S)
      → saturating_add received n ≡ received + n
      → length (got t) ≡ length (got s) + n
      → (p : Result (PipelineIoError D E) ℕ × S) → Received expected (saturating_add received n) t p
      → Received expected received s p
  moved expected received n s t exact grown (ok r, u) h = omega (arith, exact, grown, h)
  moved expected received n s t exact grown (err e, u) h = tt

  receive-Received :
      (expected : ℕ) (chunks : List (Result E Text)) (received : ℕ) (s : S)
      → expected ≤ chunk_bytes
      → Received expected received s (receive {D = D} source key dest expected chunks received s)
  unfolding receive
  receive-Received expected [] received s small = refl
  receive-Received expected (err e ∷ chunks) received s small = tt
  receive-Received expected (ok chunk ∷ chunks) received s small =
      elim (Bool-cases (ltb expected (saturating_add received (length chunk)))) [
        | inl over ↦ rw over tt
        | inr fits ↦ rw fits (
            step_lem (Received expected received s) _ (source.write_all chunk) _ s
              (λ _ t e.
                let exact : saturating_add received (length chunk) ≡ received + length chunk =
                  unsaturated expected received (length chunk) small fits in
                moved expected received (length chunk) s t exact (appended chunk s t e) _ (
                  receive-Received expected chunks (saturating_add received (length chunk)) t
                    small))
              (λ x t e. tt))
      ]

  -- One range adds its whole length to the file, or fails.
  abbrev Grown : ℕ → S → Result (PipelineIoError D E) (Unit {0}) × S → Type 0
  Grown n s (ok _, t) = length (got t) ≡ length (got s) + n
  Grown n s (err _, t) = Unit {0}

  range-Grown :
      (captured : ObjectMeta) (version etag : Option Text) (offset end : ℕ) (s : S)
      → end - offset ≤ chunk_bytes
      → Grown (end - offset) s (download_range source key dest captured version etag offset end s)
  unfolding download_range
  range-Grown captured version etag offset end s small =
      step_lem (Grown (end - offset) s) _ _ _ s
        (λ response t1 e1.
          let quiet : got t1 ≡ got s = ap (λ p. got p.1) (sym e1) ∙ laws.get_opts key _ s in
          and_then_lem (Grown (end - offset) s)
            (lift (check_response source key dest captured version etag (offset, end) response)) _
            t1
            (λ _ t2 e2.
              and_then_lem (Grown (end - offset) s)
                (receive source key dest (end - offset) response.stream 0) _ t2
                (λ r t3 e3.
                  let counted =
                    subst (Received (end - offset) 0 t2) e3
                      (receive-Received (end - offset) response.stream 0 t2 small) in
                  let same : length (got t2) ≡ length (got s) =
                    ap (λ p. length (got p.1)) (sym e2) ∙ ap length quiet in
                  elim (Bool-cases (r == end - offset)) [
                    | inl all ↦
                        rw all (omega (arith, counted, same, (==_iff r (end - offset)).0 all))
                    | inr short ↦ rw short tt
                  ])
                (λ x t3 e3. tt))
            (λ x t2 e2. tt))
        (λ x t1 e1. tt)

  -- The ranges from an offset end, and fill the file up to the object's size.
  abbrev Filled : ℕ → S → Result (PipelineIoError D E) (Option (Unit {0})) × S → Type 0
  Filled n s (ok (some _), t) = length (got t) ≡ length (got s) + n
  Filled n s (ok none, t) = ⊥
  Filled n s (err _, t) = Unit {0}

  Filled-more :
      (n m k : ℕ) (s t : S)
      → length (got t) ≡ length (got s) + n
      → n + m ≡ k
      → (p : Result (PipelineIoError D E) (Option (Unit {0})) × S) → Filled m t p
      → Filled k s p
  Filled-more n m k s t grown sum (ok (some _), u) h = omega (arith, grown, sum, h)
  Filled-more n m k s t grown sum (ok none, u) h = h
  Filled-more n m k s t grown sum (err _, u) h = tt

  ranges-Filled :
      (fuel : ℕ) (captured : ObjectMeta) (version etag : Option Text) (offset : ℕ) (s : S)
      → captured.size < 2 ^ 64
      → offset ≤ captured.size
      → captured.size - offset < fuel
      → Filled
          (captured.size - offset)
          s
          (download_ranges source key dest fuel captured version etag offset s)
  unfolding download_ranges
  ranges-Filled zero captured version etag offset s fits inside enough = absurd (omega arith)
  ranges-Filled (suc fuel) captured version etag offset s fits inside enough =
      elim (Bool-cases (ltb offset captured.size)) [
        | inr done ↦ rw done (at_end captured offset s inside done)
        | inl more ↦
            let end = range_end captured offset in
            let bounds = range_end_bounds captured offset fits (ltb→lt offset captured.size more) in
            rw more (
              and_then_lem (Filled (captured.size - offset) s)
                (download_range source key dest captured version etag offset end) _ s
                (λ _ t e.
                  let grown : length (got t) ≡ length (got s) + (end - offset) =
                    subst (Grown (end - offset) s) e
                      (range-Grown captured version etag offset end s bounds.2) in
                  Filled-more (end - offset) (captured.size - end) (captured.size - offset) s t
                    grown (omega (arith, bounds.0, bounds.1)) _
                    (ranges-Filled fuel captured version etag end t fits bounds.1
                      (omega (arith, bounds.0, bounds.1))))
                (λ x t e. tt))
      ]
    where
      at_end :
          (captured : ObjectMeta) (offset : ℕ) (s : S)
          → offset ≤ captured.size
          → ltb offset captured.size ≡ false
          → length (got s) ≡ length (got s) + (captured.size - offset)
      at_end captured offset s inside done = ground arith

  -- A finished download: the captured metadata is returned and the file grew by the object's size.
  abbrev pub Downloaded :
      ObjectMeta → S → Result (PipelineIoError D E) (Option ObjectMeta) × S → Type 0
  Downloaded captured s (ok (some m), t) =
      (m ≡ captured) × (length (got t) ≡ length (got s) + captured.size)
  Downloaded captured s (ok none, t) = ⊥
  Downloaded captured s (err _, t) = Unit {0}

  -- The download of an object whose size is a u64 ends, and an Ok means that exactly the captured size
  -- was written, whatever ranges, lengths or errors the responses bring.
  pub download-Downloaded :
      (captured : ObjectMeta) (s : S)
      → captured.size < 2 ^ 64
      → Downloaded captured s (download_captured source key dest captured s)
  unfolding download_captured
  download-Downloaded captured s fits =
      let version = not_empty captured.version in
      let etag = not_empty captured.e_tag in
      elim (Bool-cases (str_eq captured.location key)) [
        | inr other ↦ rw other tt
        | inl here ↦ rw here (elim (Bool-cases (is_none version && is_none etag)) [
          | inl missing ↦ rw missing tt
          | inr named ↦ rw named (
              and_then_lem (Downloaded captured s)
                (download_ranges source key dest (suc captured.size) captured version etag 0) _ s
                (λ done t e. closing captured s t done (
                  subst (Filled captured.size s) e (
                    from_zero captured s _ (
                      ranges-Filled (suc captured.size) captured version etag 0 s fits (omega arith)
                        (omega arith)))))
                (λ x t e. tt))
        ])
      ]
    where
      from_zero :
          (captured : ObjectMeta) (s : S) (p : Result (PipelineIoError D E) (Option (Unit {0})) × S)
          → Filled (captured.size - 0) s p
          → Filled captured.size s p
      from_zero captured s p h =
          Filled-more 0 (captured.size - 0) captured.size s s (omega arith) (omega arith) p h

      closing :
          (captured : ObjectMeta) (s t : S) (done : Option (Unit {0}))
          → Filled captured.size s (ok done, t)
          → Downloaded captured s (return (match_option done none (λ _. some captured)) t)
      closing captured s t none h = h
      closing captured s t (some _) h = (refl, h)
