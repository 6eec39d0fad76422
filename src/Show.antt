-- ===== src/Show.antt =====
-- The loop that scsi_swap_core_show, scsi_swap_log_show and scsi_swap_sim_show share: whole lines
-- go into a page of PAGE_SIZE bytes while the terminating null fits too.
use scsiswap.Base.{
  ℕ, ◌-◌, ◌<◌, List, [], ◌∷◌, ◌++◌, Bytes, length, leb, if◌then◌else◌, arith, length-append,
}

abbrev pub page_size : ℕ
page_size = 4096

-- The text written, for the lines to come and the bytes left in the page.
unfoldable pub show_lines : ℕ → List Bytes → Bytes
show_lines left [] = []
show_lines left (line ∷ lines) =
    let rest = show_lines (left - length line) lines in
    if leb left (length line) then [] else line ++ rest

-- The text of the lines is shorter than the room that is left, where there is any, so that its
-- terminating null stays inside the page.
pub show_lines_fits :
    (left : ℕ) (lines : List Bytes) → 0 < left → length (show_lines left lines) < left
unfolding show_lines
show_lines_fits left [] h = h
show_lines_fits left (line ∷ lines) h = ground (
  arith,
  length-append line (show_lines (left - length line) lines),
  show_lines_fits (left - length line) lines,
)
