-- ===== src/Csv/Batch.antt =====
-- crates/dtl-core/src/csv_zero_copy.rs: a buffer split into rows at each delimiter. A row is a list of
-- bytes; `from_utf8` is the standard library's check of a text.
use datacrate.Common.{
  ℕ, ◌≡◌, refl, ap, Bool, true, false, List, [], ◌∷◌, ◌++◌, Option, none, Text, ◌==◌, get_elem?,
  length, select, match_option, if◌then◌else◌, ==_iff, ◌∙◌,
}

pub record CsvBatch : Type 0 where
  pub records : List (List ℕ)

-- `|line| !line.is_empty()`
unfoldable pub has_bytes : List ℕ → Bool
has_bytes [] = false
has_bytes (b ∷ row) = true

-- A byte in front of the first row.
unfoldable pub extend_first : ℕ → List (List ℕ) → List (List ℕ)
extend_first b [] = (b ∷ []) ∷ []
extend_first b (row ∷ rows) = (b ∷ row) ∷ rows

-- The slice's `split`, which gives an empty row too between two delimiters and at an end.
unfoldable pub split : ℕ → List ℕ → List (List ℕ)
unfolding extend_first
split delimiter [] = [] ∷ []
split delimiter (b ∷ raw) =
    let rest = split delimiter raw in if b == delimiter then [] ∷ rest else extend_first b rest

unfoldable pub parse : List ℕ → ℕ → CsvBatch
unfolding split has_bytes
parse raw delimiter = record { records = select has_bytes (split delimiter raw) }

unfoldable pub record_at : (List ℕ → Option Text) → CsvBatch → ℕ → Option Text
record_at from_utf8 batch index = match_option (get_elem? batch.records index) none from_utf8

unfoldable pub record_count : CsvBatch → ℕ
record_count batch = length batch.records

-- Lines with a delimiter between each and the next.
abbrev pub join : ℕ → List (List ℕ) → List ℕ
join delimiter [] = []
join delimiter (line ∷ []) = line
join delimiter (line ∷ next ∷ lines) = line ++ delimiter ∷ join delimiter (next ∷ lines)

abbrev pub Free : ℕ → List ℕ → Type 0
Free delimiter [] = Unit {0}
Free delimiter (b ∷ line) = ((b == delimiter) ≡ false) × Free delimiter line

abbrev pub AllFree : ℕ → List (List ℕ) → Type 0
AllFree delimiter [] = Unit {0}
AllFree delimiter (line ∷ lines) = Free delimiter line × AllFree delimiter lines

split-line :
    (delimiter : ℕ) (line : List ℕ) → Free delimiter line → split delimiter line ≡ line ∷ []
unfolding split extend_first
split-line delimiter [] h = refl
split-line delimiter (b ∷ line) (ne, h) = rw (ne, split-line delimiter line h) refl

split-delimited :
    (delimiter : ℕ) (line raw : List ℕ)
    → Free delimiter line
    → split delimiter (line ++ delimiter ∷ raw) ≡ line ∷ split delimiter raw
unfolding split extend_first
split-delimited delimiter [] raw h = rw ((==_iff delimiter delimiter).1 refl) refl
split-delimited delimiter (b ∷ line) raw (ne, h) =
    rw (ne, split-delimited delimiter line raw h) refl

split-join :
    (delimiter : ℕ) (line : List ℕ) (lines : List (List ℕ))
    → AllFree delimiter (line ∷ lines)
    → split delimiter (join delimiter (line ∷ lines)) ≡ line ∷ lines
split-join delimiter line [] (h, _) = split-line delimiter line h
split-join delimiter line (next ∷ lines) (h, hs) =
    split-delimited delimiter line (join delimiter (next ∷ lines)) h
    ∙ ap (◌∷◌ line) (split-join delimiter next lines hs)

-- Lines without the delimiter that are joined by it are parsed to the lines that are not empty, in order,
-- whether or not the buffer ends in a delimiter.
pub parse-join :
    (delimiter : ℕ) (lines : List (List ℕ))
    → AllFree delimiter lines
    → (parse (join delimiter lines) delimiter).records ≡ select has_bytes lines
unfolding parse split has_bytes
parse-join delimiter [] h = refl
parse-join delimiter (line ∷ lines) h = ap (select has_bytes) (split-join delimiter line lines h)
