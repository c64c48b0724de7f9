-- ===== src/BufferPool/Pool.antt =====
-- src/storage/buffer_pool.cpp. A `Page*` into the pool is the number of its frame, `nullptr` and
-- `SIZE_MAX` are `none`. The hash map from page ids to frames is a function; the order in which
-- `flush_all` meets its entries is an argument. `lru` lists `lru_list_` from its back to its front.
use advance_db.Prelude.{
  ℕ, zero, suc, ◌+◌, ◌-◌, ◌%◌, Bool, true, false, Option, none, some, List, [], ◌∷◌, ◌++◌, ◌==◌,
  ltb, if◌then◌else◌,
}
use advance_db.Page.PageHeader.{Page, PageType, PageLevel, init_page}
use advance_db.BufferPool.Disk.{DiskManager}

abbrev pub invalid_page_id : ℕ
invalid_page_id = 4294967295

pub record Frame : Type 0 where
  pub page_id : ℕ
  pub pin_count : ℕ
  pub dirty : Bool
  pub page : Page

abbrev pub update {ℓ} : {A : Type ℓ} → (ℕ → A) → ℕ → A → ℕ → A
update f k v i = if i == k then v else f i

abbrev pub mem : ℕ → List ℕ → Bool
mem f [] = false
mem f (x ∷ xs) = if x == f then true else mem f xs

-- std::list::erase of the first occurrence, if there is one.
abbrev pub erase_first : ℕ → List ℕ → List ℕ
erase_first f [] = []
erase_first f (x ∷ xs) = if x == f then xs else x ∷ erase_first f xs

module _ (dm : DiskManager) where
  open dm use {Disk, read_page, write_page}

  pub record Pool : Type 0 where
    pub pool_size : ℕ
    pub frames : ℕ → Frame
    pub page_table : ℕ → Option ℕ
    pub lru : List ℕ
    pub disk : Disk

  unfoldable pub empty_frame : Page → Frame
  empty_frame p = record { page_id = invalid_page_id; pin_count = 0; dirty = false; page = p }

  -- lru_list_.push_back(0), push_back(1), …: the last one is the back.
  all_frames : ℕ → List ℕ
  all_frames zero = []
  all_frames (suc n) = n ∷ all_frames n

  unfoldable pub new_pool : ℕ → Page → Disk → Pool
  unfolding empty_frame all_frames
  new_pool size p d = record {
    pool_size = size;
    frames = λ i. empty_frame p;
    page_table = λ i. none;
    lru = all_frames size;
    disk = d;
  }

  unfoldable pub remove_from_lru : ℕ → Pool → Pool
  remove_from_lru f s = record s { lru = erase_first f s.lru }

  unfoldable pub mark_frame_used : ℕ → Pool → Pool
  unfolding remove_from_lru
  mark_frame_used f s = record s { lru = erase_first f s.lru ++ f ∷ [] }

  unfoldable pub set_frame : ℕ → Frame → Pool → Pool
  set_frame f x s = record s { frames = update s.frames f x }

  -- The first free frame among `f`, `f + 1`, …, `f + n - 1`.
  unfoldable pub free_frame : Pool → ℕ → ℕ → Option ℕ
  free_frame s zero f = none
  free_frame s (suc n) f =
      let rest = free_frame s n (f + 1) in
      if (s.frames f).page_id == invalid_page_id then some f else rest

  -- The loop over the list's back: pinned frames are dropped from the list on the way.
  unfoldable pub pop_unpinned : Pool → List ℕ → Option ℕ × List ℕ
  pop_unpinned s [] = (none, [])
  pop_unpinned s (f ∷ rest) =
      if (s.frames f).pin_count == 0 then (some f, rest) else pop_unpinned s rest

  unfoldable pub free_or_back : Pool → Option ℕ → Option ℕ × Pool
  free_or_back s (some f) = (some f, s)
  free_or_back s none = let (found, rest) = pop_unpinned s s.lru in (found, record s { lru = rest })

  unfoldable pub find_or_evict_frame : Pool → Option ℕ × Pool
  find_or_evict_frame s = free_or_back s (free_frame s s.pool_size 0)

  -- The end of `evict_frame`, once a dirty page is on the disk.
  unfoldable pub release : ℕ → Disk → Pool → Pool
  release f d s =
      let x = s.frames f in
      record s {
        page_table = update s.page_table x.page_id none;
        lru = erase_first f s.lru;
        frames =
            update s.frames f
              (record x { page_id = invalid_page_id; pin_count = 0; dirty = false });
        disk = d;
      }

  -- A failed write leaves the frame as it was.
  unfoldable pub evicted : ℕ → Pool → Bool × Disk → Bool × Pool
  evicted f s (true, d) = (true, release f d s)
  evicted f s (false, d) = (false, record s { disk = d })

  unfoldable pub evict_frame : ℕ → Pool → Bool × Pool
  evict_frame f s =
      let x = s.frames f in
      if x.page_id == invalid_page_id
      then (true, s)
      else if x.dirty
      then evicted f s (write_page s.disk x.page_id x.page)
      else (true, release f s.disk s)

  -- A page that is cached already is pinned once more.
  unfoldable pub pin : ℕ → Pool → Option ℕ × Pool
  pin f s =
      let x = s.frames f in
      (
        some f,
        mark_frame_used f (set_frame f (record x { pin_count = (x.pin_count + 1) % 4294967296 }) s),
      )

  -- The page `p` enters frame `f` as page `id`.
  unfoldable pub install : ℕ → ℕ → Bool → Page → Pool → Option ℕ × Pool
  install id f d p s = (
    some f,
    mark_frame_used f (record s {
      frames = update s.frames f (record { page_id = id; pin_count = 1; dirty = d; page = p });
      page_table = update s.page_table id (some f);
    }),
  )

  unfoldable pub emptied : ℕ → Bool × Pool → Option ℕ × Pool
  emptied f (true, s) = (some f, s)
  emptied f (false, s) = (none, s)

  unfoldable pub claim : Option ℕ × Pool → Option ℕ × Pool
  claim (none, s) = (none, s)
  claim (some f, s) =
      if (s.frames f).page_id == invalid_page_id then (some f, s) else emptied f (evict_frame f s)

  -- The frame for a page that is not cached: found, and emptied if it is in use.
  unfoldable pub take_frame : Pool → Option ℕ × Pool
  take_frame s = claim (find_or_evict_frame s)

  -- A failed read leaves the frame free; what it has stored there is never read.
  unfoldable pub load : ℕ → Option ℕ × Pool → Option ℕ × Pool
  load id (none, s) = (none, s)
  load id (some f, s) = elim (read_page s.disk id) [
    | none ↦ (none, s)
    | some p ↦ install id f false p s
  ]

  unfoldable pub fetch_page : ℕ → Pool → Option ℕ × Pool
  fetch_page id s = elim (s.page_table id) [ some f ↦ pin f s | none ↦ load id (take_frame s) ]

  unfoldable pub create : ℕ → PageType → PageLevel → Option ℕ × Pool → Option ℕ × Pool
  create id type level (none, s) = (none, s)
  create id type level (some f, s) = install id f true (init_page (s.frames f).page id type level) s

  unfoldable pub new_page : ℕ → PageType → PageLevel → Pool → Option ℕ × Pool
  new_page id type level s = elim (s.page_table id) [
    | some f ↦ pin f s
    | none ↦ create id type level (take_frame s)
  ]

  unfoldable pub unpin_frame : ℕ → Bool → Pool → Bool × Pool
  unpin_frame f dirty s =
      let x = s.frames f in
      if x.pin_count == 0 then (false, s) else (
        true,
        record s {
          frames =
              update s.frames f
                (record x { pin_count = x.pin_count - 1; dirty = if dirty then true else x.dirty });
          lru = if x.pin_count - 1 == 0 then (if mem f s.lru then s.lru else f ∷ s.lru) else s.lru;
        },
      )

  unfoldable pub unpin_page : ℕ → Bool → Pool → Bool × Pool
  unpin_page id dirty s = elim (s.page_table id) [
    | none ↦ (false, s)
    | some f ↦ unpin_frame f dirty s
  ]

  unfoldable pub delete_frame : ℕ → ℕ → Pool → Bool × Pool
  delete_frame id f s =
      let x = s.frames f in
      if ltb 0 x.pin_count then (false, s) else (
        true,
        record s {
          page_table = update s.page_table id none;
          lru = erase_first f s.lru;
          frames =
              update s.frames f
                (record x { page_id = invalid_page_id; pin_count = 0; dirty = false });
        },
      )

  unfoldable pub delete_page : ℕ → Pool → Bool × Pool
  delete_page id s = elim (s.page_table id) [ none ↦ (false, s) | some f ↦ delete_frame id f s ]

  unfoldable pub flushed : ℕ → Pool → Bool × Disk → Bool × Pool
  flushed f s (true, d) = (
    true,
    record s { disk = d; frames = update s.frames f (record (s.frames f) { dirty = false }) },
  )
  flushed f s (false, d) = (false, record s { disk = d })

  unfoldable pub flush_frame : ℕ → ℕ → Pool → Bool × Pool
  flush_frame id f s =
      let x = s.frames f in if x.dirty then flushed f s (write_page s.disk id x.page) else (true, s)

  unfoldable pub flush_page : ℕ → Pool → Bool × Pool
  flush_page id s = elim (s.page_table id) [ none ↦ (false, s) | some f ↦ flush_frame id f s ]

  -- The loop over the map's entries, in the order `ids` of their keys; failures are swallowed.
  unfoldable pub flush_all : List ℕ → Pool → Pool
  flush_all [] s = s
  flush_all (id ∷ ids) s = flush_all ids (flush_page id s).1

  count_frames : (Frame → Bool) → (ℕ → Frame) → ℕ → ℕ
  count_frames test frames zero = 0
  count_frames test frames (suc n) = (if test (frames n) then 1 else 0) + count_frames test frames n

  unfoldable pub get_pinned_count : Pool → ℕ
  unfolding count_frames
  get_pinned_count s = count_frames (λ x. ltb 0 x.pin_count) s.frames s.pool_size

  unfoldable pub get_free_frame_count : Pool → ℕ
  unfolding count_frames
  get_free_frame_count s = count_frames (λ x. x.page_id == invalid_page_id) s.frames s.pool_size
