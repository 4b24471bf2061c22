-- ===== src/Region/Tests.antt =====
-- Regions and file names at concrete addresses.
use persimmon.Base.{◌≤◌, ◌≡◌, refl, arith, [], ◌∷◌, length, some}
use persimmon.Region.{Region, hex_len, write_digits, write_hex, make_file_name, file_name_buf_len}
use persimmon.Region.Names.{parse_file_name, make_file_name-parse}

abbrev two_pages : Region
two_pages = record { base = 4096; size = 8192; file_id = 171 }

abbrev second_page : Region
second_page = record { base = 8192; size = 4096; file_id = 0 }

-- mem_1000_ab
two_pages-file_name :
    make_file_name two_pages ≡ (109 ∷ 101 ∷ 109 ∷ 95 ∷ 49 ∷ 48 ∷ 48 ∷ 48 ∷ 95 ∷ 97 ∷ 98 ∷ 0 ∷ [])
unfolding make_file_name write_hex hex_len write_digits
two_pages-file_name = refl

make_file_name-parse_example :
    (parse_file_name (make_file_name two_pages) ≡ some (4096, 171))
    × (length (make_file_name two_pages) ≤ file_name_buf_len)
make_file_name-parse_example = make_file_name-parse two_pages (omega arith) (omega arith)
