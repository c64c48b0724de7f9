-- ===== src/Btree/InternalView.antt =====
-- What an internal page means: its separators with their children, and the child for a key.
use advance_db.Prelude.{
  ℕ, zero, suc, ◌+◌, ◌*◌, ◌<◌, ◌≤◌, ◌≡◌, ◌≢◌, refl, ◌∙◌, some, List, [], ◌∷◌, map, Ordering, arith,
  length, get_elem?, ok, true,
}
use advance_db.Page.PageHeader.{Page, header_size, cell_count, free_start, free_end, leftmost_child}
use advance_db.Page.SlotHelpers.{slot_ptr}
use advance_db.Page.Directory.{IsFramed, slots, length-slots}
use advance_db.Record.Compare.{lex, lex_trans}
use advance_db.Record.Sorted.{Key, IsSorted, below-get}
use advance_db.Record.View.{offset_at, get-read_words, get-map, length-map}
use advance_db.Btree.Entry.{
  is_internal, entry_size, entry_key_size, entry_key, child_page, internal_slot_key, entry_offset,
  entry_child, max_page,
}

abbrev pub Separator : Type 0
Separator = Key × ℕ

abbrev pub separators : List Separator → List Key
separators = map (λ e. e.0)

abbrev pub children : List Separator → List ℕ
children = map (λ e. e.1)

abbrev pub separator : Page → ℕ → Separator
separator p off = (entry_key p off, child_page p off)

abbrev pub internal_view : Page → List Separator
internal_view p = map (separator p) (slots p)

-- An entry between the header and `free_start`.
pub record IsEntry (p : Page) (off : ℕ) : Type 0 where
  pub behind_header : header_size ≤ off
  pub fits : off + entry_size + entry_key_size p off ≤ free_start p

abbrev pub AllEntries : Page → List ℕ → Type 0
AllEntries p [] = Unit
AllEntries p (o ∷ os) = IsEntry p o × AllEntries p os

-- A page id that the descent follows.
pub record IsChild (id : ℕ) : Type 0 where
  pub positive : 0 < id
  pub below : id < max_page

-- A well-formed internal page: header and directory in bounds, every slot at an entry, the
-- separators in strictly increasing order, and a leftmost child.
pub record IsInternal (p : Page) : Type 0 where
  pub level : is_internal p ≡ true
  pub framed : IsFramed p
  pub placed : AllEntries p (slots p)
  pub sorted : IsSorted (separators (internal_view p))
  pub leftmost : IsChild (leftmost_child p)

-- The child whose subtree a key belongs to: that of the last separator that is not above it.
unfoldable pub child_for : Key → ℕ → List Separator → ℕ
child_for k left [] = left
child_for k left (e ∷ es) = elim (lex k e.0) [
  | Ordering.lt ↦ left
  | Ordering.eq ↦ child_for k e.1 es
  | Ordering.gt ↦ child_for k e.1 es
]

-- How many keys are not above `k`.
unfoldable pub upper : Key → List Key → ℕ
upper k [] = 0
upper k (j ∷ js) = elim (lex k j) [
  | Ordering.lt ↦ 0
  | Ordering.eq ↦ suc (upper k js)
  | Ordering.gt ↦ suc (upper k js)
]

module _ (k : Key) where
  pub upper-le : (ks : List Key) → upper k ks ≤ length ks
  unfolding upper
  upper-le [] = omega arith
  upper-le (j ∷ js) = ground (arith, upper-le js)

  pub upper_of_lt :
      (ks : List Key) (i : ℕ) (j : Key)
      → get_elem? ks i ≡ some j
      → lex k j ≡ Ordering.lt
      → upper k ks ≤ i
  unfolding upper
  upper_of_lt [] i j e h = cc
  upper_of_lt (x ∷ ks) zero j e h = ground arith
  upper_of_lt (x ∷ ks) (suc i) j e h = ground (arith, upper_of_lt ks i j e h)

  pub upper_of_ge :
      (ks : List Key) (i : ℕ) (j : Key)
      → IsSorted ks
      → get_elem? ks i ≡ some j
      → lex k j ≢ Ordering.lt
      → i < upper k ks
  unfolding upper
  upper_of_ge [] i j s e h = cc
  upper_of_ge (x ∷ ks) zero j s e h = ground (arith, h)
  upper_of_ge (x ∷ ks) (suc i) j s e h =
      let step = lex_trans k x j in
      ground (arith, upper_of_ge ks i j s.1 e h, below-get x j ks i s.0 e, step, h)

  -- The scan ends at the entry before the bound.
  pub child_for-get :
      (left : ℕ) (es : List Separator) (i : ℕ) (e : Separator)
      → upper k (separators es) ≡ suc i
      → get_elem? es i ≡ some e
      → child_for k left es ≡ e.1
  unfolding upper child_for
  child_for-get left [] i e h g = cc
  child_for-get left (x ∷ []) zero e h g = ground arith
  child_for-get left (x ∷ y ∷ es) zero e h g = ground arith
  child_for-get left (x ∷ es) (suc i) e h g = ground (arith, child_for-get x.1 es i e)

  pub child_for-first :
      (left : ℕ) (es : List Separator) → upper k (separators es) ≡ 0 → child_for k left es ≡ left
  unfolding upper child_for
  child_for-first left [] h = refl
  child_for-first left (x ∷ es) h = ground arith

get-AllEntries :
    (p : Page) (ws : List ℕ) (i o : ℕ) → AllEntries p ws → get_elem? ws i ≡ some o → IsEntry p o
get-AllEntries p [] i o a e = cc
get-AllEntries p (w ∷ ws) zero o a e = ground (arith, a.0)
get-AllEntries p (w ∷ ws) (suc i) o a e = get-AllEntries p ws i o a.1 e

pub slot_ptr-framed :
    (p : Page) (i : ℕ) → IsFramed p → i < cell_count p → slot_ptr p i ≡ some (free_end p + i * 2)
unfolding slot_ptr
slot_ptr-framed p i f h = ground (arith, f.directory)

module _ (p : Page) (v : IsInternal p) (i : ℕ) (h : i < cell_count p) where
  pub IsEntry-offset_at : IsEntry p (offset_at p i)
  IsEntry-offset_at =
      get-AllEntries p (slots p) i _ v.placed (get-read_words p (free_end p) (cell_count p) i h)

  pub internal_slot_key-eq : internal_slot_key p i ≡ some (entry_key p (offset_at p i))
  unfolding internal_slot_key
  internal_slot_key-eq = rw (slot_ptr-framed p i v.framed h, internal_slot_key) (ground arith)

  pub entry_offset-eq : entry_offset p i ≡ ok (offset_at p i)
  unfolding entry_offset
  entry_offset-eq = rw (slot_ptr-framed p i v.framed h, entry_offset) refl

  pub entry_child-eq : entry_child p i ≡ ok (child_page p (offset_at p i))
  unfolding entry_child
  entry_child-eq = rw entry_offset-eq refl

  pub get-internal_view : get_elem? (internal_view p) i ≡ some (separator p (offset_at p i))
  get-internal_view =
      get-map (separator p) (slots p) i _ (get-read_words p (free_end p) (cell_count p) i h)

  pub get-separators :
      get_elem? (separators (internal_view p)) i ≡ some (entry_key p (offset_at p i))
  get-separators = get-map (λ (e : Separator). e.0) (internal_view p) i _ get-internal_view

pub length-separators : (p : Page) → length (separators (internal_view p)) ≡ cell_count p
length-separators p =
    length-map _ (internal_view p) ∙ length-map (separator p) (slots p) ∙ length-slots p
