-- ===== src/Record/Fresh.antt =====
-- The page that `init_page` makes: empty, well formed, and with the header that was asked for.
use advance_db.Prelude.{
  ℕ, ◌+◌, ◌*◌, ◌/◌, ◌%◌, ◌≡◌, refl, sym, subst, ap, ◌∙◌, ◌<◌, List, [], ◌∷◌, map, length, arith,
}
use advance_db.Bytes.{read_u8, read_u16, read_u32, write_u8, write_u16, write_u32}
use advance_db.Page.PageHeader.{
  Page, PageType, header, meta, index, data_page, free, PageLevel, none_level, leaf, internal,
  page_size, header_size, page_type_code, page_level_code, page_id, page_type, page_level,
  leftmost_child, cell_count, free_start, free_end, parent_page_id, prev_page_id, next_page_id,
  init_page,
}
use advance_db.Page.Directory.{slots, length-slots}
use advance_db.Record.View.{entry, view, IsPage, AllRecords, AllApart}
use advance_db.Record.Sorted.{IsSorted, keys}

nil_of_length : (xs : List ℕ) → length xs ≡ 0 → xs ≡ []
nil_of_length [] e = refl
nil_of_length (x ∷ xs) e = absurd (omega (arith, e))

cut_type :
    (t : PageType)
    → page_type_code t % 256 + 256 * (page_type_code t / 256 % 256) ≡ page_type_code t
cut_type header = refl
cut_type meta = refl
cut_type index = refl
cut_type data_page = refl
cut_type free = refl

cut_level :
    (l : PageLevel)
    → page_level_code l % 256 + 256 * (page_level_code l / 256 % 256) ≡ page_level_code l
cut_level none_level = refl
cut_level leaf = refl
cut_level internal = refl

module _ (old : Page) (id : ℕ) (type : PageType) (level : PageLevel) where
  abbrev page : Page
  page = init_page old id type level

  pub init_page-count : cell_count (init_page old id type level) ≡ 0
  unfolding init_page read_u16 read_u8 write_u8 write_u16 write_u32
  init_page-count = refl

  pub init_page-start : free_start (init_page old id type level) ≡ header_size
  unfolding init_page read_u16 read_u8 write_u8 write_u16 write_u32
  init_page-start = refl

  pub init_page-end : free_end (init_page old id type level) ≡ page_size
  unfolding init_page read_u16 read_u8 write_u8 write_u16 write_u32
  init_page-end = refl

  pub init_page-slots : slots (init_page old id type level) ≡ []
  init_page-slots = nil_of_length (slots page) (length-slots page ∙ init_page-count)

  pub init_page-IsPage : IsPage (init_page old id type level)
  init_page-IsPage = record {
    framed = record {
      records_start = omega (arith, init_page-start);
      no_overlap = omega (arith, init_page-start, init_page-end);
      directory = omega (arith, init_page-count, init_page-end);
    };
    placed = subst (λ ws. AllRecords page ws) (sym init_page-slots) tt;
    apart = subst (λ ws. AllApart page ws) (sym init_page-slots) tt;
    sorted = subst (λ ws. IsSorted (keys (map (entry page) ws))) (sym init_page-slots) tt;
  }

  pub init_page-view : view page ≡ []
  init_page-view = ap (λ ws. map (entry page) ws) init_page-slots

  -- The page that `init_page` makes for a 32-bit id is well formed and empty, whatever was
  -- there before; its header has the id, the type and the level asked for, and its links are
  -- zero.
  pub init_page-fresh :
      id < 4294967296
      → IsPage page
        × (view page ≡ [])
        × (page_id page ≡ id)
        × (page_type page ≡ page_type_code type)
        × (page_level page ≡ page_level_code level)
        × (leftmost_child page ≡ 0)
        × (parent_page_id page ≡ 0)
        × (prev_page_id page ≡ 0)
        × (next_page_id page ≡ 0)
  unfolding init_page read_u32 read_u16 read_u8 write_u8 write_u16 write_u32
  init_page-fresh h = (
    init_page-IsPage,
    init_page-view,
    omega (arith, h),
    cut_type type,
    cut_level level,
    refl,
    refl,
    refl,
    refl,
  )
