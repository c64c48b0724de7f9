-- ===== src/Btree/ScanChain.antt =====
-- A range scan hands out what a linear scan of the chain's entries hands out.
use advance_db.Prelude.{
  ℕ, zero, suc, ◌+◌, ◌-◌, ◌<◌, ◌≤◌, ◌≡◌, ◌≢◌, refl, sym, ap, ◌∙◌, Bool, true, false, Option, none,
  some, List, [], ◌∷◌, ◌++◌, append-nil, ◌==◌, if◌then◌else◌, arith, length, drop, ok, Result, inl,
  inr, Bool-cases, subst, Ordering,
}
use advance_db.Bytes.Blocks.{length-slice}
use advance_db.Page.PageHeader.{Page, cell_count, next_page_id}
use advance_db.BufferPool.Disk.{DiskManager, disk_pages}
use advance_db.BufferPool.Pool.{Pool}
use advance_db.BufferPool.Coherence.{content}
use advance_db.BufferPool.Counts.{Faultless}
use advance_db.BufferPool.Visit.{peek}
use advance_db.BufferPool.Ready.{IsReady}
use advance_db.Record.Cell.{record_header_size, key_size, value_size, BSearchResult, search_record}
use advance_db.Record.Compare.{lex, compare_keys-lex}
use advance_db.Record.Sorted.{Key, Entry, keys, position, position-le}
use advance_db.Record.View.{
  view, entry, offset_at, IsPage, slot_key-eq, slot_value-eq, get-view, length-view,
}
use advance_db.Record.Search.{search_record-position, length-keys}
use advance_db.Btree.Entry.{BtreeError}
use advance_db.Btree.Handle.{Handle, Arrival, find_leaf_page}
use advance_db.Btree.Split.{record_at}
use advance_db.Btree.SplitRead.{drop-get, drop-all}
use advance_db.Btree.Search.{HasTree, find_leaf_page-Arrives}
use advance_db.Btree.Reads.{Reads, Reads-refl, Reads-trans, peek-Reads}
use advance_db.Btree.Scan.{is_past, scan_slots, scan_chain, scan_from, btree_range_scan}

-- The key is above the end key, in the order of the bytes. An empty end key is no bound.
abbrev pub is_above : Key → Key → Bool
is_above [] k = false
is_above (b ∷ end) k = elim (lex k (b ∷ end)) [
  | Ordering.gt ↦ true
  | Ordering.eq ↦ false
  | Ordering.lt ↦ false
]

is_past-is_above : (end k : Key) → is_past end k ≡ is_above end k
unfolding is_past
is_past-is_above [] k = refl
is_past-is_above (b ∷ end) k =
    let filled : (length (b ∷ end) == 0) ≡ false = ground arith in
    rw (compare_keys-lex k (b ∷ end), filled) refl

-- The entries up to the end key; those with an empty value are passed over.
unfoldable pub up_to : Key → List Entry → List Entry
up_to end [] = []
up_to end (e ∷ es) =
    if length e.1 == 0 then up_to end es else if is_above end e.0 then [] else e ∷ up_to end es

-- Whether an entry is past the end key.
unfoldable pub ends : Key → List Entry → Bool
ends end [] = false
ends end (e ∷ es) =
    if length e.1 == 0 then ends end es else if is_above end e.0 then true else ends end es

up_to-ends :
    (end : Key) (xs ys : List Entry) → ends end xs ≡ true → up_to end (xs ++ ys) ≡ up_to end xs
unfolding up_to ends
up_to-ends end [] ys h = cc
up_to-ends end (x ∷ xs) ys h = ground (arith, up_to-ends end xs ys)

up_to-append :
    (end : Key) (xs ys : List Entry)
    → ends end xs ≡ false
    → up_to end (xs ++ ys) ≡ up_to end xs ++ up_to end ys
unfolding up_to ends
up_to-append end [] ys h = refl
up_to-append end (x ∷ xs) ys h = ground (arith, up_to-append end xs ys)

module _ (p : Page) (v : IsPage p) (end : Key) where
  record_at-valued :
      (i : ℕ)
      → i < cell_count p
      → record_at p i
        ≡ (if length (entry p (offset_at p i)).1 == 0 then none else some (entry p (offset_at p i)))
  unfolding record_at
  record_at-valued i h =
      let o = offset_at p i in
      let size = length-slice p (o + record_header_size + key_size p o) (value_size p o) in
      rw
        (
          slot_key-eq p v.framed v.placed i h,
          slot_value-eq p v.framed v.placed i h,
          size,
          record_at,
        )
        (elim (Bool-cases (value_size p o == 0)) [ inl e ↦ rw e refl | inr e ↦ rw e refl ])

  scan_slots-up_to :
      (n i : ℕ)
      → i + n ≡ cell_count p
      → scan_slots n p end i ≡ (up_to end (drop i (view p)), ends end (drop i (view p)))
  unfolding scan_slots up_to ends
  scan_slots-up_to zero i h = rw (drop-all (view p) i (omega (arith, length-view p))) refl
  scan_slots-up_to (suc n) i h =
      let here : i < cell_count p = omega arith in
      let e = entry p (offset_at p i) in
      let next : suc i ≡ i + 1 = omega arith in
      let ih = scan_slots-up_to n (i + 1) (omega arith) in
      let split : drop i (view p) ≡ e ∷ drop (i + 1) (view p) =
        drop-get (view p) i e (get-view p v.framed v.placed i here)
        ∙ ap (λ k. e ∷ drop k (view p)) next in
      rw (split, record_at-valued i here, scan_slots)
        (elim (Bool-cases (length e.1 == 0)) [
          | inl hollow ↦ rw (hollow, ih, up_to, ends) refl
          | inr valued ↦ elim (Bool-cases (is_above end e.0)) [
            | inl past ↦ rw (valued, is_past-is_above end e.0, past, up_to, ends) refl
            | inr more ↦ rw (valued, is_past-is_above end e.0, more, ih, up_to, ends) refl
          ]
        ])

page_eq : {a b : Page} → some a ≡ some b → a ≡ b
page_eq e = cc

module _ (dm : DiskManager) where
  arrived_page :
      {id id' : ℕ} {p p' : Page} {s s' : Pool dm} (r : Result BtreeError (Arrival dm))
      → r ≡ ok (some (id, p), s)
      → r ≡ ok (some (id', p'), s')
      → p ≡ p'
  arrived_page r e e' = cc

  arrived_pool :
      {id id' : ℕ} {p p' : Page} {s s' : Pool dm} (r : Result BtreeError (Arrival dm))
      → r ≡ ok (some (id, p), s)
      → r ≡ ok (some (id', p'), s')
      → s ≡ s'
  arrived_pool r e e' = cc

  -- The leaves that follow a page by their links, in order, to the page that has no next one.
  abbrev pub IsChain : (ℕ → Option Page) → Page → List Page → Type 0
  IsChain read p [] = next_page_id p ≡ 0
  IsChain read p (q ∷ qs) =
      (next_page_id p ≢ 0)
      × (next_page_id p < disk_pages)
      × (read (next_page_id p) ≡ some q)
      × IsPage q
      × IsChain read q qs

  IsChain-same :
      (read read' : ℕ → Option Page) (p : Page) (qs : List Page)
      → ((j : ℕ) → j < disk_pages → read' j ≡ read j)
      → IsChain read p qs
      → IsChain read' p qs
  IsChain-same read read' p [] same c = c
  IsChain-same read read' p (q ∷ qs) same (n, h, e, v, c) =
      (n, h, same (next_page_id p) h ∙ e, v, IsChain-same read read' q qs same c)

  abbrev pub chain_entries : List Page → List Entry
  chain_entries [] = []
  chain_entries (q ∷ qs) = view q ++ chain_entries qs

  -- What a scan hands out, and that it changes nothing.
  pub record Scans (s : Pool dm) (es : List Entry) (r : Result BtreeError (List Entry × Pool dm))
      : Type 0 where
    pub pool : Pool dm
    pub result : r ≡ ok (es, pool)
    pub reads : Reads dm s pool

  scan_chain-Scans :
      (rounds : ℕ) (p : Page) (end : Key) (start : ℕ) (s : Pool dm) (qs : List Page)
      → Faultless dm
      → IsReady dm s
      → IsPage p
      → start ≤ cell_count p
      → length qs < rounds
      → IsChain (content dm s) p qs
      → Scans s
          (up_to end (drop start (view p) ++ chain_entries qs))
          (scan_chain dm rounds p end start s)
  unfolding scan_chain
  scan_chain-Scans zero p end start s qs sound ready v inside enough c = absurd (omega arith)
  scan_chain-Scans (suc rounds) p end start s [] sound ready v inside enough c =
      let es = drop start (view p) in
      let slots = scan_slots-up_to p v end (cell_count p - start) start (omega arith) in
      let out : (scan_slots (cell_count p - start) p end start).0 ≡ up_to end es =
        ap (λ (r : List Entry × Bool). r.0) slots in
      let all : es ≡ es ++ [] = sym (append-nil es) in
      let last : (next_page_id p == 0) ≡ true = ground (arith, c) in
      record {
        pool = s;
        result = elim (Bool-cases (ends end es)) [
          | inl stop ↦
              rw (slots, stop, scan_chain) (ap (λ xs. ok (xs, s)) (out ∙ ap (up_to end) all))
          | inr more ↦
              rw (slots, more, last, scan_chain) (ap (λ xs. ok (xs, s)) (out ∙ ap (up_to end) all))
        ];
        reads = Reads-refl dm s ready;
      }
  scan_chain-Scans (suc rounds) p end start s (q ∷ qs) sound ready v inside enough
        (linked, h, e, vq, cq) =
      let es = drop start (view p) in
      let slots = scan_slots-up_to p v end (cell_count p - start) start (omega arith) in
      let out : (scan_slots (cell_count p - start) p end start).0 ≡ up_to end es =
        ap (λ (r : List Entry × Bool). r.0) slots in
      elim (Bool-cases (ends end es)) [
        | inl stop ↦ record {
          pool = s;
          result =
              rw (slots, stop, scan_chain)
                (ap (λ xs. ok (xs, s))
                  (out ∙ sym (up_to-ends end es (chain_entries (q ∷ qs)) stop)));
          reads = Reads-refl dm s ready;
        }
        | inr more ↦
            let (k, (q', got, held)) = peek-Reads dm s (next_page_id p) sound ready h in
            let same : q' ≡ q = page_eq (sym held ∙ e) in
            let t = (peek dm (next_page_id p) s).1 in
            let on : (next_page_id p == 0) ≡ false = ground (arith, linked) in
            let rest =
              scan_chain-Scans rounds q end 0 t qs sound k.ready vq (omega arith) (omega arith)
                (IsChain-same (content dm s) (content dm t) q qs k.same cq) in
            record {
              pool = rest.pool;
              result =
                  rw (slots, more, on, got ∙ ap some same, rest.result, scan_chain)
                    (ap (λ xs. ok (xs, rest.pool))
                      (ap (λ xs. xs ++ up_to end (view q ++ chain_entries qs)) out
                        ∙ sym (up_to-append end es (chain_entries (q ∷ qs)) more)));
              reads = Reads-trans dm s t rest.pool k rest.reads;
            }
      ]

  range_scan-reached :
      (rounds : ℕ) (start end : Key) (th : Handle dm) (id : ℕ) (p : Page) (s : Pool dm)
      → (th.root_page == 0) ≡ false
      → (length start == 0) ≡ false
      → find_leaf_page dm start th ≡ ok (some (id, p), s)
      → btree_range_scan dm rounds start end th
        ≡ scan_chain dm rounds p end (search_record p start).index s
  unfolding btree_range_scan scan_from
  range_scan-reached rounds start end th id p s root filled reached =
      rw (root, filled, reached) refl

  -- Over a disk that does not fail and a pool that is ready, `btree_range_scan` from a non-empty
  -- start key over a tree of at most 101 levels ends, when the leaf that the key leads to is
  -- followed by a chain of fewer leaves than the rounds allowed: the callback gets, in order, the
  -- entries of that leaf from the start key's position on and those of the chain, up to the first
  -- key above the end key or all if the end key is empty, without the entries with an empty value;
  -- no page changes, and the pool stays ready.
  pub btree_range_scan-Scans :
      (rounds : ℕ) (start end : Key) (th : Handle dm) (es : List Entry) (qs : List Page)
      → Faultless dm
      → IsReady dm th.pool
      → HasTree dm th es
      → 0 < length start
      → length qs < rounds
      → (id : ℕ) (p : Page) (s : Pool dm) → find_leaf_page dm start th ≡ ok (some (id, p), s)
      → IsChain (content dm th.pool) p qs
      → Scans th.pool
          (up_to end (drop (position start (keys (view p))).index (view p) ++ chain_entries qs))
          (btree_range_scan dm rounds start end th)
  btree_range_scan-Scans rounds start end th es qs sound ready t filled enough id p s reached c =
      let a = find_leaf_page-Arrives dm th start es sound ready t in
      let same : a.page ≡ p = arrived_page (find_leaf_page dm start th) a.result reached in
      let v : IsPage p = subst IsPage same a.formed in
      let at : s ≡ a.pool = arrived_pool (find_leaf_page dm start th) reached a.result in
      let root : (th.root_page == 0) ≡ false = ground (arith, t.root.positive) in
      let some_start : (length start == 0) ≡ false = ground (arith, filled) in
      let i = (position start (keys (view p))).index in
      let reads = subst (λ x. Reads dm th.pool x) (sym at) a.reads in
      let found : (search_record p start).index ≡ i =
        ap (λ (r : BSearchResult). r.index) (search_record-position p start v) in
      let scan =
        scan_chain-Scans rounds p end i s qs sound reads.ready v
          (omega (arith, position-le start (keys (view p)), length-keys p start v)) enough
          (IsChain-same (content dm th.pool) (content dm s) p qs reads.same c) in
      record {
        pool = scan.pool;
        result =
            range_scan-reached rounds start end th id p s root some_start reached
            ∙ ap (λ k. scan_chain dm rounds p end k s) found
            ∙ scan.result;
        reads = Reads-trans dm th.pool s scan.pool reads scan.reads;
      }
