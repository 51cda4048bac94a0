-- ===== src/Backup/Creator/Report.antt =====
-- What internal/backup/creator.go prints: formatBytes, reportProgress and printFinalProgress.
pub mod Units
use ib.Prelude.{
  ℕ, zero, suc, ◌+◌, ◌-◌, ◌*◌, ◌/◌, ◌%◌, ◌^◌, Str, codes, List, [], ◌∷◌, ◌++◌, Bool, true, false,
  Option, none, some, length, drop, get_elem?, is_empty, ltb, decimal, if◌then◌else◌,
}
use ib.Backup.Creator.{Progress}

-- fmt's %.1f of a quotient of two numbers, a duration of so many nanoseconds in whole seconds, and
-- the bytes per second, as an int64, of a number of bytes in so many nanoseconds.
pub record Printer : Type 0 where
  pub ratio : ℕ → ℕ → Str
  pub duration : ℕ → Str
  pub per_second : ℕ → ℕ → ℕ

-- The loop of formatBytes: the divisor, an int64, and the index of the unit; `none` is out of fuel.
size_loop : ℕ → ℕ → ℕ → ℕ → Option (ℕ × ℕ)
size_loop zero n div exp = none
size_loop (suc fuel) n div exp =
    let rest = size_loop fuel (n / 1024) (div * 1024 % 2 ^ 64) (exp + 1) in
    if ltb n 1024 then some (div, exp) else rest

abbrev pub units : Str
units = codes "KMGTPE"

-- A byte of `units`, `none` where the index is out of range and the program panics.
with_unit : (ℕ → ℕ → Str) → ℕ → ℕ → Option ℕ → Option Str
with_unit ratio b div none = none
with_unit ratio b div (some c) = some (ratio b div ++ (b' ' ∷ c ∷ codes "B"))

-- Of a number that is not negative. Seven rounds are enough for an int64.
unfoldable pub format_bytes : (ℕ → ℕ → Str) → ℕ → Option Str
unfolding size_loop with_unit decimal
format_bytes ratio b =
    if ltb b 1024 then some (decimal b ++ codes " B") else elim (size_loop 7 (b / 1024) 1024 0) [
      | none ↦ none
      | some (div, exp) ↦ with_unit ratio b div (get_elem? units exp)
    ]

module _ (pr : Printer) where
  -- A size in a line; a panic would end the program.
  size : ℕ → Str
  unfolding format_bytes
  size b = elim (format_bytes pr.ratio b) [ none ↦ codes "panic" | some text ↦ text ]

  -- A line that is printed only where a number is not 0.
  unless_zero : ℕ → Str → List Str
  unless_zero n line = if ltb 0 n then line ∷ [] else []

  display_path : Str → Str
  display_path path =
      if ltb 60 (length path) then codes "..." ++ drop (length path - 57) path else path

  counted : Str → ℕ → Str → Str
  unfolding decimal
  counted before n behind = before ++ (decimal n ++ behind)

  -- One tick of the reporter, after `elapsed` nanoseconds, with the bytes that were uploaded at the tick
  -- before. The bytes only grow.
  unfoldable pub report_progress : ℕ → Str → ℕ → Progress → ℕ × List Str
  unfolding size unless_zero display_path counted decimal
  report_progress elapsed current_file last p =
      let fresh = p.uploaded_bytes - last in
      let speed = pr.per_second fresh 5_000_000_000 in
      (
        p.uploaded_bytes,
        []
            ∷ (codes "["
                ++ (pr.duration elapsed
                    ++ (codes "] Progress: "
                        ++ (decimal p.processed_files
                            ++ (codes "/"
                                ++ (decimal p.total_files
                                    ++ (codes " files ("
                                        ++ (pr.ratio
                                              (if ltb 0 p.total_files
                                                then p.processed_files * 100
                                                else 0)
                                              (if ltb 0 p.total_files then p.total_files else 1)
                                            ++ codes "%)"))))))))
            ∷ (codes "  Uploaded: "
                ++ (size p.uploaded_bytes
                    ++ (counted (codes " (") p.blocks_uploaded (codes " blocks) | Dedup: ")
                        ++ (size p.skipped_bytes
                            ++ counted (codes " (") p.blocks_skipped (codes " blocks)")))))
            ∷ (unless_zero p.skipped_files (
                  counted (codes "  Unchanged files: ") p.skipped_files
                    (codes " (reused from previous backup)"))
                ++ (unless_zero p.error_files (
                      counted (codes "  Skipped files: ") p.error_files
                        (codes " (permission denied or unreadable)"))
                    ++ (unless_zero fresh (codes "  Speed: " ++ (size speed ++ codes "/s"))
                        ++ (if is_empty current_file
                            then []
                            else (codes "  Current: " ++ display_path current_file) ∷ [])))),
      )

  unfoldable pub print_final_progress : ℕ → Progress → List Str
  unfolding size unless_zero counted
  print_final_progress elapsed p =
      let actual = p.processed_files - p.skipped_files - p.error_files in
      []
      ∷ codes "=== Backup Complete ==="
      ∷ (codes "Duration: " ++ pr.duration elapsed)
      ∷ counted (codes "Files: ") p.processed_files
          (counted (codes "/") p.total_files (codes " processed"))
      ∷ (unless_zero p.skipped_files (
            counted (codes "  - ") p.skipped_files
              (codes " unchanged (reused from previous backup)"))
          ++ (unless_zero p.error_files
                (counted (codes "  - ") p.error_files (codes " skipped (permission denied)"))
              ++ (unless_zero actual (counted (codes "  - ") actual (codes " new/modified"))
                  ++ ((codes "Data: "
                        ++ (size p.uploaded_bytes
                            ++ (codes " uploaded, "
                                ++ (size p.skipped_bytes ++ codes " deduplicated"))))
                      ∷ counted (codes "Blocks: ") p.blocks_uploaded (
                          counted (codes " uploaded, ") p.blocks_skipped (codes " already existed"))
                      ∷ (if ltb 0 elapsed
                          then unless_zero p.uploaded_bytes (
                              codes "Average speed: "
                              ++ (size (pr.per_second p.uploaded_bytes elapsed) ++ codes "/s"))
                          else [])))))
