-- ===== src/System/Laws.antt =====
-- What the wrappers leave open, and what `exeCmd` collects.
use mathlib.Core.List.{append_assoc, append-nil}
use network_demo.Base.{ℕ, suc, ◌≡◌, refl, ◌∙◌, sym, List, [], ◌∷◌, ◌++◌, Option, none, some}
use network_demo.Base.Text.{ℤ}
use network_demo.System.{
  Action, opened, closed, unmapped, mapped, told_error, set_affinity, Ended, returned, exited,
  handle_error, Files, mmap_file, exe_cmd, get_current_rss, read_lines, c_string,
}

-- How many descriptors are opened less those closed, counted over a log.
unfoldable pub open_count : List Action → ℕ
open_count [] = 0
open_count (opened fd ∷ log) = suc (open_count log)
open_count (closed fd ∷ log) = open_count log
open_count (unmapped a length ∷ log) = open_count log
open_count (mapped fd length ∷ log) = open_count log
open_count (told_error what ∷ log) = open_count log
open_count (set_affinity target mask ∷ log) = open_count log

unfoldable pub close_count : List Action → ℕ
close_count [] = 0
close_count (opened fd ∷ log) = close_count log
close_count (closed fd ∷ log) = suc (close_count log)
close_count (unmapped a length ∷ log) = close_count log
close_count (mapped fd length ∷ log) = close_count log
close_count (told_error what ∷ log) = close_count log
close_count (set_affinity target mask ∷ log) = close_count log

-- The log of a function that has returned; one that ends the program leaves nothing open.
unfoldable pub Balanced {ℓ} : {A : Type ℓ} → Ended A → Type 0
Balanced (returned a log) = open_count log ≡ close_count log
Balanced (exited log) = ◌≡◌ {A = ℕ} 0 0

mmap_file-Balanced :
    (o s m : Option ℕ)
    → Balanced (mmap_file (record { open_file = o; file_size = s; map_at = m }) [])
unfolding Balanced mmap_file handle_error open_count close_count
mmap_file-Balanced none s m = refl
mmap_file-Balanced (some fd) none m = refl
mmap_file-Balanced (some fd) (some size) none = refl
mmap_file-Balanced (some fd) (some size) (some addr) = refl

exe_cmd-Balanced :
    (p : Option ℕ) (lines : List (List ℕ)) (cmd : List ℕ) → Balanced (exe_cmd p lines cmd [])
unfolding Balanced exe_cmd open_count close_count
exe_cmd-Balanced none lines cmd = refl
exe_cmd-Balanced (some p) lines cmd = refl

get_current_rss-Balanced :
    (f : Option ℕ) (n : Option ℤ) (page_size : ℤ) → Balanced (get_current_rss f n page_size [])
unfolding Balanced get_current_rss open_count close_count
get_current_rss-Balanced none n page_size = refl
get_current_rss-Balanced (some f) none page_size = refl
get_current_rss-Balanced (some f) (some n) page_size = refl

-- Whatever the system answers, `mmap_file`, `exeCmd` and `getCurrentRSS` close each file that they
-- open before they return.
all_close :
    (files : Files) (pipe fp : Option ℕ) (lines : List (List ℕ)) (cmd : List ℕ) (scanned : Option ℤ)
    (page_size : ℤ)
    → Balanced (mmap_file files [])
      × Balanced (exe_cmd pipe lines cmd [])
      × Balanced (get_current_rss fp scanned page_size [])
all_close files pipe fp lines cmd scanned page_size = (
  mmap_file-Balanced files.open_file files.file_size files.map_at,
  exe_cmd-Balanced pipe lines cmd,
  get_current_rss-Balanced fp scanned page_size,
)

-- The texts of the lines in front of the first that is empty.
unfoldable pub collected : List (List ℕ) → List ℕ
collected [] = []
collected (line ∷ lines) =
    let rest = collected lines in elim (c_string line) [ [] ↦ [] | c ∷ cs ↦ (c ∷ cs) ++ rest ]

-- `exeCmd` gives back what the command prints, line after line, to the first line that is empty as a
-- C string.
read_lines-collected :
    (lines : List (List ℕ)) (ss : List ℕ) → read_lines lines ss ≡ ss ++ collected lines
unfolding read_lines collected
read_lines-collected [] ss = sym (append-nil ss)
read_lines-collected (line ∷ lines) ss =
    by_text (c_string line) (λ c cs. read_lines-collected lines (ss ++ (c ∷ cs)))
  where
    by_text :
        (text : List ℕ)
        → ((c : ℕ) (cs : List ℕ)
            → read_lines lines (ss ++ (c ∷ cs)) ≡ (ss ++ (c ∷ cs)) ++ collected lines)
        → elim text [ [] ↦ ss | c ∷ cs ↦ read_lines lines (ss ++ (c ∷ cs)) ]
          ≡ ss ++ elim text [ [] ↦ [] | c ∷ cs ↦ (c ∷ cs) ++ collected lines ]
    by_text [] h = sym (append-nil ss)
    by_text (c ∷ cs) h = h c cs ∙ append_assoc ss (c ∷ cs) (collected lines)
