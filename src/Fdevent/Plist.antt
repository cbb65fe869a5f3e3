-- ===== src/Fdevent/Plist.antt =====
-- adb/fdevent.c: list_pending, the doubly linked ring of the events that wait for their callback.
-- A node is an address; `next` and `prev` are the two fields of the nodes in memory.
pub mod Ring
use adb_wide.Base.{ℕ, Option, none, some, update, ◌==◌, if◌then◌else◌}

pub record Links : Type 0 where
  pub next : ℕ → ℕ
  pub prev : ℕ → ℕ

abbrev pub null : ℕ
null = 0

-- The address of `list_pending`.
abbrev pub list_pending : ℕ
list_pending = 1

abbrev pub set_next : ℕ → ℕ → Links → Links
set_next p v l = record l { next = update l.next p v }

abbrev pub set_prev : ℕ → ℕ → Links → Links
set_prev p v l = record l { prev = update l.prev p v }

unfoldable pub plist_enqueue : ℕ → Links → Links
plist_enqueue node l =
    let l1 = set_next node list_pending l in
    let l2 = set_prev node (l1.prev list_pending) l1 in
    let l3 = set_next (l2.prev node) node l2 in set_prev list_pending node l3

unfoldable pub plist_remove : ℕ → Links → Links
plist_remove node l =
    let l1 = set_next (l.prev node) (l.next node) l in
    let l2 = set_prev (l1.next node) (l1.prev node) l1 in set_prev node null (set_next node null l2)

-- The node taken from the front, if there is one, and the links after it.
unfoldable pub plist_dequeue : Links → Option ℕ × Links
plist_dequeue l =
    let node = l.next list_pending in
    let l1 = set_next list_pending (l.next node) l in
    let l2 = set_prev (l1.next list_pending) list_pending l1 in
    if node == list_pending
    then (none, l)
    else (some node, set_prev node null (set_next node null l2))
