-- ===== src/Page/PageHeader.antt =====
-- include/storage/page.hpp and src/storage/page.cpp. A page is the bytes of `Page::data`; the
-- header's fields stand at their packed offsets and overlap whatever else is written there. A
-- 16-bit sum is cut to 16 bits where the code stores it in a `uint16_t`.
use advance_db.Prelude.{ℕ, ◌%◌}
use advance_db.Bytes.{Bytes, read_u16, read_u32, write_u8, write_u16, write_u32, zeroed}

abbrev pub Page : Type 0
Page = Bytes

abbrev pub page_size : ℕ
page_size = 2048

-- sizeof(PageHeader)
abbrev pub header_size : ℕ
header_size = 40

-- static_cast<uint16_t>
abbrev pub cast_u16 : ℕ → ℕ
cast_u16 n = n % 65536

pub data PageType : Type 0 where
  header meta index data_page free : PageType

pub data PageLevel : Type 0 where
  none_level leaf internal : PageLevel

abbrev pub page_type_code : PageType → ℕ
page_type_code header = 0
page_type_code meta = 1
page_type_code index = 2
page_type_code data_page = 3
page_type_code free = 4

abbrev pub page_level_code : PageLevel → ℕ
page_level_code none_level = 0
page_level_code leaf = 1
page_level_code internal = 2

abbrev pub page_id : Page → ℕ
page_id p = read_u32 p 0

abbrev pub page_type : Page → ℕ
page_type p = read_u16 p 4

abbrev pub page_level : Page → ℕ
page_level p = read_u16 p 6

abbrev pub root_page : Page → ℕ
root_page p = read_u32 p 8

-- The four reserved bytes, read as the leftmost child's page id.
abbrev pub leftmost_child : Page → ℕ
leftmost_child p = read_u32 p 12

abbrev pub cell_count : Page → ℕ
cell_count p = read_u16 p 18

abbrev pub free_start : Page → ℕ
free_start p = read_u16 p 20

abbrev pub free_end : Page → ℕ
free_end p = read_u16 p 22

abbrev pub parent_page_id : Page → ℕ
parent_page_id p = read_u32 p 24

abbrev pub lsn : Page → ℕ
lsn p = read_u32 p 28

abbrev pub prev_page_id : Page → ℕ
prev_page_id p = read_u32 p 32

abbrev pub next_page_id : Page → ℕ
next_page_id p = read_u32 p 36

abbrev pub set_cell_count : Page → ℕ → Page
set_cell_count p v = write_u16 p 18 v

abbrev pub set_free_start : Page → ℕ → Page
set_free_start p v = write_u16 p 20 v

abbrev pub set_free_end : Page → ℕ → Page
set_free_end p v = write_u16 p 22 v

fill_reserved : Page → Page
fill_reserved p = write_u8 (write_u8 (write_u8 (write_u8 p 12 0) 13 0) 14 0) 15 0

-- The page is cleared first, so the old contents play no part.
unfoldable pub init_page : Page → ℕ → PageType → PageLevel → Page
unfolding fill_reserved
init_page old id type level =
    let p₀ = zeroed in
    let p₁ = write_u32 p₀ 0 id in
    let p₂ = write_u16 p₁ 4 (page_type_code type) in
    let p₃ = write_u16 p₂ 6 (page_level_code level) in
    let p₄ = fill_reserved p₃ in
    let p₅ = write_u16 p₄ 16 0 in
    let p₆ = set_cell_count p₅ 0 in
    let p₇ = set_free_start p₆ header_size in
    let p₈ = set_free_end p₇ page_size in
    let p₉ = write_u32 p₈ 24 0 in
    let p₁₀ = write_u32 p₉ 28 0 in let p₁₁ = write_u32 p₁₀ 32 0 in write_u32 p₁₁ 36 0
