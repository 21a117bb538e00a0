-- ===== src/Resources/SigningLogs/Csv.antt =====
-- The file that webapp-admin/src/models/signinglog.js downloads.
use text.Mathlib.TextLemmas.{append_assoc}
use identity_vault.Common.{
  ℕ, ◌+◌, String, ◌≡◌, refl, ap, ◌∙◌, List, [], ◌∷◌, map, All, length, arith,
}
use identity_vault.Common.Text.{◌<>◌, split, join}
use identity_vault.Common.Text.Laws.{Lacks, split-join, Lacks-join}
use mathlib.Core.Path.{ap₂}
use mathlib.Core.List.{tail}
use identity_vault.Common.Value.{Value}
use identity_vault.Resources.SigningLogs.{cells, csv_lines, csv_content, download_href}

-- A browser: `encodeURI`, and the file that it saves from a link to `data:`. It leaves a number sign as
-- it is, which ends an address; a text without one is saved as it was.
abbrev pub prefix : String
prefix = "data:text/csv;charset=utf-8,"

pub record Browser : Type 0 where
  pub encode_uri : String → String
  pub saved : String → String
  pub documented : (s : String) → Lacks b'#' s → saved (encode_uri (prefix <> s)) ≡ s

-- No cell of the log holds a comma, a line break or a number sign.
pub record IsPlain (log : Value) : Type 0 where
  pub no_comma : All (Lacks b',') (cells log)
  pub no_break : All (Lacks 10) (cells log)
  pub no_sign : All (Lacks b'#') (cells log)

abbrev titles : String
titles = "ID,Make,Model,Serial Number,Revision,Fingerprint,Date"

pub row : Value → String
row log = join "," (cells log)

-- The rows under the header, cut into columns.
pub read_rows : String → List (List String)
read_rows file = map (split b',') (tail (split 10 file))

split-row : (log : Value) → IsPlain log → split b',' (row log) ≡ cells log
unfolding row cells
split-row log h = split-join "," _ _ h.no_comma

rows-Lacks : (logs : List Value) → All IsPlain logs → All (Lacks 10) (map row logs)
unfolding row
rows-Lacks [] h = tt
rows-Lacks (log ∷ logs) h =
    (Lacks-join 10 "," (cells log) (omega arith) h.0.no_break, rows-Lacks logs h.1)

split-rows :
    (logs : List Value) → All IsPlain logs → map (split b',') (map row logs) ≡ map cells logs
split-rows [] h = refl
split-rows (log ∷ logs) h = ap₂ ◌∷◌ (split-row log h.0) (split-rows logs h.1)

titles-Lacks : Lacks 10 titles
titles-Lacks = omega arith

rows-Lacks_sign : (logs : List Value) → All IsPlain logs → All (Lacks b'#') (map row logs)
unfolding row
rows-Lacks_sign [] h = tt
rows-Lacks_sign (log ∷ logs) h =
    (Lacks-join b'#' "," (cells log) (omega arith) h.0.no_sign, rows-Lacks_sign logs h.1)

-- The content of the file behind its type.
content : (logs : List Value) → csv_content logs ≡ prefix <> join "\n" (titles ∷ map row logs)
unfolding csv_content csv_lines join row
content [] = refl
content (log ∷ logs) = append_assoc prefix titles _

-- The file that the browser saves holds one row for each log, in order, and reads back to the logs'
-- cells, if no cell holds a comma, a line break or a number sign.
pub read_rows-csv_content :
    (b : Browser) (logs : List Value)
    → All IsPlain logs
    → read_rows (b.saved (download_href b.encode_uri logs)) ≡ map cells logs
unfolding read_rows download_href
read_rows-csv_content b logs h =
    ap (λ s. read_rows (b.saved (b.encode_uri s))) (content logs)
    ∙ ap read_rows (
        b.documented (join "\n" (titles ∷ map row logs)) (
          Lacks-join b'#' "\n" (titles ∷ map row logs) (omega arith)
            (omega arith, rows-Lacks_sign logs h)))
    ∙ ap (λ ls. map (split b',') (tail ls))
        (split-join "\n" titles (map row logs) (titles-Lacks, rows-Lacks logs h))
    ∙ split-rows logs h

-- How many columns a reader finds in a list of cells.
pub column_count : List String → ℕ
column_count [] = 0
column_count (p ∷ ps) = length (split b',' p) + column_count ps
