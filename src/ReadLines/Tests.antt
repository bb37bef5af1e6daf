-- ===== src/ReadLines/Tests.antt =====
-- Runs of `read_lines`, and the theorems at concrete reads.
use projeto_rci.Base.{◌≡◌, refl, [], ◌∷◌, ◌<◌, ◌==◌, if◌then◌else◌, length, map, arith, List}
use projeto_rci.Node.{Text}
use projeto_rci.ReadLines.{received, rl_ok, rl_overflow, c_string, scan, read_lines, read_lines_at}
use projeto_rci.ReadLines.Split.{unsplit, AllNoNewline, NoNewline}
use projeto_rci.ReadLines.Laws.{read_lines-lt_size, read_lines-splits, read_lines-misses_line}

two_lines :
    read_lines 256 [] (received (1 ∷ 2 ∷ 10 ∷ 3 ∷ 10 ∷ 4 ∷ []))
    ≡ record { buffer = 4 ∷ []; handled = (1 ∷ 2 ∷ []) ∷ (3 ∷ []) ∷ []; result = rl_ok }
unfolding read_lines read_lines_at scan
two_lines = refl

read_lines-lt_size_example :
    length (read_lines 8 (1 ∷ 2 ∷ []) (received (10 ∷ 3 ∷ 10 ∷ []))).buffer < 8
read_lines-lt_size_example =
    read_lines-lt_size 8 (1 ∷ 2 ∷ []) 10 (3 ∷ 10 ∷ []) (omega arith) (omega arith)

read_lines-splits_example :
    (ls : List Text) × (rest : Text) × (unsplit ls rest ≡ 1 ∷ 10 ∷ 2 ∷ [])
    × AllNoNewline ls
    × NoNewline rest
    × (read_lines 256 [] (received (1 ∷ 10 ∷ 2 ∷ [])) ≡ (
        if length rest == 256
        then record { buffer = []; handled = map c_string ls; result = rl_overflow }
        else record { buffer = rest; handled = map c_string ls; result = rl_ok }))
read_lines-splits_example = read_lines-splits 256 1 (10 ∷ 2 ∷ [])

read_lines-misses_line_example :
    read_lines 256 (1 ∷ []) (received (2 ∷ 10 ∷ []))
    ≡ record { buffer = 1 ∷ 2 ∷ 10 ∷ []; handled = []; result = rl_ok }
read_lines-misses_line_example =
    read_lines-misses_line 256 1 [] (2 ∷ []) (omega arith, tt) (omega arith, tt) (omega arith)
