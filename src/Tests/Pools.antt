-- ===== src/Tests/Pools.antt =====
-- A pool of two frames over a disk whose reads and writes never fail.
use advance_db.Prelude.{ℕ, not, ◌&&◌, ◌≤◌, ◌<◌, ◌||◌, ◌≡◌, refl, true, some, arith, false, ◌==◌}
use advance_db.Bytes.{zeroed}
use advance_db.Page.PageHeader.{Page, data_page, leaf, init_page}
use advance_db.BufferPool.Disk.{DiskManager}
use advance_db.BufferPool.Pool.{
  update, Pool, new_pool, fetch_page, new_page, unpin_page, flush_page, free_frame,
  find_or_evict_frame, free_or_back, take_frame, claim, load, install, mark_frame_used, flush_frame,
  flushed, unpin_frame, create, delete_page, delete_frame,
}
use advance_db.BufferPool.Coherence.{content, IsCoherent, Keeps, CanPin, new_pool-IsCoherent}
use advance_db.BufferPool.Fetch.{Holds, fetch_page-Keeps, fetch_page-Holds}
use advance_db.Bytes.{read_u8}
use advance_db.Table.Bits.{test_bit, is_allocated, set_allocated, clear_allocated}
use advance_db.Table.Allocation.{
  bitmap_bits, find_free, mark_free, allocate_in, allocate_page, free_page,
}
use advance_db.Table.Marks.{Stores, Frees, allocate_page-marks, free_page-clears}
use advance_db.BufferPool.NewPage.{KeepsOthers, new_page-fresh, delete_page-drops}
use advance_db.BufferPool.Flush.{flush_page-durable, unpin_page-IsCoherent}

abbrev pub ram : DiskManager
ram = record {
  Disk = ℕ → Page;
  read_page = λ d i. some (d i);
  write_page = λ d i p. (true, update d i p);
  read-write_self = λ d i p h w. ground arith;
  read-write_ne = λ d i j p h k n. ground arith;
}

abbrev start : Pool ram
start = new_pool ram 2 zeroed (λ i. zeroed)

-- Page 5 is fetched into frame 0.
abbrev one : Pool ram
one = (fetch_page ram 5 start).1

start-IsCoherent : IsCoherent ram start
start-IsCoherent = (new_pool-IsCoherent ram 2 zeroed (λ i. zeroed)).0

start-CanPin : (f : ℕ) → CanPin ram start f
unfolding new_pool
start-CanPin f = omega arith

one-IsCoherent : IsCoherent ram one
one-IsCoherent = (fetch_page-Keeps ram start 5 start-IsCoherent (omega arith) start-CanPin).coherent

one-CanPin : (f : ℕ) → CanPin ram one f
unfolding fetch_page take_frame claim load install mark_frame_used find_or_evict_frame free_or_back
    free_frame new_pool
one-CanPin f = ground arith

fetch_page-Keeps_example : Keeps ram one (fetch_page ram 6 one).1
fetch_page-Keeps_example = fetch_page-Keeps ram one 6 one-IsCoherent (omega arith) one-CanPin

fetched : (fetch_page ram 5 start).0 ≡ some 0
unfolding fetch_page take_frame claim load install mark_frame_used find_or_evict_frame free_or_back
    free_frame new_pool
fetched = refl

fetch_page-Holds_example : Holds ram 5 start 0 one
fetch_page-Holds_example =
    fetch_page-Holds ram start 5 0 start-IsCoherent (omega arith) start-CanPin fetched

-- The page is unpinned as dirty.
abbrev unpinned : Pool ram
unpinned = (unpin_page ram 5 true one).1

unpinned-IsCoherent : IsCoherent ram unpinned
unpinned-IsCoherent = (unpin_page-IsCoherent ram one 5 true one-IsCoherent).0

flush_done : (flush_page ram 5 unpinned).0 ≡ true
unfolding flush_page flush_frame flushed unpin_page unpin_frame fetch_page take_frame claim load
    install mark_frame_used find_or_evict_frame free_or_back free_frame new_pool
flush_done = refl

flush_page-durable_example :
    Keeps ram unpinned (flush_page ram 5 unpinned).1
    × (some ((flush_page ram 5 unpinned).1.disk 5) ≡ content ram unpinned 5)
flush_page-durable_example = flush_page-durable ram unpinned 5 unpinned-IsCoherent flush_done

unpin_page-IsCoherent_example :
    IsCoherent ram unpinned × ((i : ℕ) → content ram unpinned i ≡ content ram one i)
unpin_page-IsCoherent_example = unpin_page-IsCoherent ram one 5 true one-IsCoherent

created : (new_page ram 9 data_page leaf start).0 ≡ some 0
unfolding new_page create take_frame claim install mark_frame_used find_or_evict_frame free_or_back
    free_frame new_pool
created = refl

new_page-fresh_example :
    KeepsOthers ram 9 start (new_page ram 9 data_page leaf start).1
    × (content ram (new_page ram 9 data_page leaf start).1 9
        ≡ some (init_page zeroed 9 data_page leaf))
unfolding new_pool
new_page-fresh_example =
    new_page-fresh ram start 9 0 data_page leaf zeroed start-IsCoherent (omega arith) refl created

deleted : (delete_page ram 5 unpinned).0 ≡ true
unfolding delete_page delete_frame unpin_page unpin_frame fetch_page take_frame claim load install
    mark_frame_used find_or_evict_frame free_or_back free_frame new_pool
deleted = refl

delete_page-drops_example :
    KeepsOthers ram 5 unpinned (delete_page ram 5 unpinned).1
    × (content ram (delete_page ram 5 unpinned).1 5 ≡ some (unpinned.disk 5))
delete_page-drops_example = delete_page-drops ram unpinned 5 unpinned-IsCoherent deleted

allocated : (allocate_page ram start).0 ≡ some 3
unfolding allocate_page allocate_in mark_free find_free fetch_page take_frame claim load install
    mark_frame_used find_or_evict_frame free_or_back free_frame new_pool test_bit read_u8
allocated = refl

allocate_page-marks_example :
    (3 ≤ 3)
    × (3 < bitmap_bits)
    × (is_allocated zeroed 3 ≡ false)
    × ((j : ℕ) → is_allocated (set_allocated zeroed 3) j ≡ (j == 3 || is_allocated zeroed j))
    × Stores ram (set_allocated zeroed 3) start (allocate_page ram start).1
unfolding new_pool
allocate_page-marks_example =
    allocate_page-marks ram start zeroed 3 start-IsCoherent start-CanPin refl allocated

bitmap_fetched : (fetch_page ram 1 start).0 ≡ some 0
unfolding fetch_page take_frame claim load install mark_frame_used find_or_evict_frame free_or_back
    free_frame new_pool
bitmap_fetched = refl

free_page-clears_example :
    Frees ram 9 (clear_allocated zeroed 9) start (free_page ram 9 start)
    × ((j : ℕ)
        → is_allocated (clear_allocated zeroed 9) j ≡ (not (j == 9) && is_allocated zeroed j))
unfolding new_pool
free_page-clears_example =
    free_page-clears ram start zeroed 9 0 (omega arith) start-IsCoherent start-CanPin refl
      (λ e. absurd (omega (arith, e))) bitmap_fetched
