-- ===== src/Bufio.antt =====
-- `bufio.Scanner` with its default buffer of at most 65536 bytes and the split function `ScanLines`.
use mathlib.Core.List.{reverse}
use paysuper_billing_server.Base.{
  ℕ, ◌+◌, Bool, true, false, List, [], ◌∷◌, leb, ◌==◌, if◌then◌else◌,
}

-- A line comes without its line feed and one carriage return before it. Here it is reversed.
abbrev finish_line : List ℕ → List ℕ
finish_line [] = []
finish_line (c ∷ line) = if c == 13 then reverse line else reverse (c ∷ line)

-- `line` holds the `n` bytes of the current line, reversed. The result is the lines, and whether
-- the scanner has stopped at one that does not fit into its buffer.
pub scan_from : ℕ → List ℕ → List ℕ → List (List ℕ) × Bool
scan_from n [] [] = ([], false)
scan_from n (c ∷ line) [] = (finish_line (c ∷ line) ∷ [], false)
scan_from n line (b ∷ bytes) =
    let next = scan_from 0 [] bytes in
    let more = scan_from (n + 1) (b ∷ line) bytes in
    if b == 10
    then (finish_line line ∷ next.0, next.1)
    else if leb 65536 (n + 1)
    then ([], true)
    else more

unfoldable pub scan_lines : List ℕ → List (List ℕ) × Bool
unfolding scan_from
scan_lines bytes = scan_from 0 [] bytes
