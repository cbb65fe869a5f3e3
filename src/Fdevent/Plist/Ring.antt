-- ===== src/Fdevent/Plist/Ring.antt =====
-- adb/fdevent.c: the pending ring holds a queue of addresses, and its operations are the queue's.
use adb_wide.Base.{
  ℕ, ◌≡◌, ◌≢◌, List, [], ◌∷◌, ◌++◌, none, some, true, false, arith, ◌==◌, contains, erase, Distinct,
  contains-append, Bool-cases, ==_iff, inl, inr, contains_of_erase, Distinct-erase,
  Distinct-append_one,
}
use adb_wide.Fdevent.Plist.{
  Links, null, list_pending, set_next, set_prev, plist_enqueue, plist_remove, plist_dequeue,
}

-- From `a` the `next` fields lead through the nodes of the list to `b`, and `prev` leads back.
abbrev pub Segment : Links → ℕ → List ℕ → ℕ → Type 0
Segment l a [] b = (l.next a ≡ b) × (l.prev b ≡ a)
Segment l a (x ∷ xs) b = (l.next a ≡ x) × (l.prev x ≡ a) × Segment l x xs b

-- The ring through `list_pending` holds these nodes, oldest first, each once and none the list.
pub record IsRing (l : Links) (xs : List ℕ) : Type 0 where
  pub chain : Segment l list_pending xs list_pending
  pub apart : contains list_pending xs ≡ false
  pub distinct : Distinct xs

-- Writes to fields that the segment does not read leave it alone.
Segment-set_next :
    (l : Links) (p v a : ℕ) (xs : List ℕ) (b : ℕ)
    → contains p (a ∷ xs) ≡ false
    → Segment l a xs b
    → Segment (set_next p v l) a xs b
Segment-set_next l p v a [] b h s = ground arith
Segment-set_next l p v a (x ∷ xs) b h s = ground (arith, Segment-set_next l p v x xs b)

Segment-set_prev :
    (l : Links) (p v a : ℕ) (xs : List ℕ) (b : ℕ)
    → contains p (b ∷ xs) ≡ false
    → Segment l a xs b
    → Segment (set_prev p v l) a xs b
Segment-set_prev l p v a [] b h s = ground arith
Segment-set_prev l p v a (x ∷ xs) b h s = ground (arith, Segment-set_prev l p v x xs b)

-- A node that is neither the list's own nor in the queue may be cleared.
pub IsRing-clear :
    (l : Links) (node : ℕ) (xs : List ℕ)
    → node ≢ list_pending
    → contains node xs ≡ false
    → IsRing l xs
    → IsRing (set_prev node null (set_next node null l)) xs
IsRing-clear l node xs ne n r = record {
  chain =
      Segment-set_prev (set_next node null l) node null list_pending xs list_pending
        (ground (arith, n, ne))
        (Segment-set_next l node null list_pending xs list_pending (ground (arith, n, ne)) r.chain);
  apart = r.apart;
  distinct = r.distinct;
}

-- The node before the end is the start or on the way.
prev-contains :
    (l : Links) (a : ℕ) (xs : List ℕ) (b : ℕ)
    → Segment l a xs b
    → contains (l.prev b) (a ∷ xs) ≡ true
prev-contains l a [] b s = ground arith
prev-contains l a (x ∷ xs) b s = ground (arith, prev-contains l x xs b s.2)

-- What `plist_enqueue` makes of the links, for a list at `b`.
abbrev insert_before : ℕ → ℕ → Links → Links
insert_before b node l =
    set_prev b node (set_next (l.prev b) node (set_prev node (l.prev b) (set_next node b l)))

Segment-insert_before :
    (l : Links) (node a : ℕ) (xs : List ℕ) (b : ℕ)
    → contains node (a ∷ xs) ≡ false
    → contains b xs ≡ false
    → node ≢ b
    → Distinct xs
    → contains a xs ≡ false
    → Segment l a xs b
    → Segment (insert_before b node l) a (xs ++ node ∷ []) b
Segment-insert_before l node a [] b n hb ne d ha s = ground arith
Segment-insert_before l node a (x ∷ xs) b n hb ne d ha s =
    ground (arith, prev-contains l x xs b s.2, Segment-insert_before l node x xs b)

-- fdevent_plist_enqueue of a node that is neither the list's own nor in the queue puts it at the end
-- of the queue that the ring holds.
pub plist_enqueue-IsRing :
    (node : ℕ) (l : Links) (xs : List ℕ)
    → node ≢ list_pending
    → contains node xs ≡ false
    → IsRing l xs
    → IsRing (plist_enqueue node l) (xs ++ node ∷ [])
unfolding plist_enqueue
plist_enqueue-IsRing node l xs ne n r = record {
  chain = ground (arith, Segment-insert_before l node list_pending xs list_pending);
  apart = ground (arith, contains-append list_pending xs (node ∷ []));
  distinct = Distinct-append_one node xs n r.distinct;
}

-- What `plist_remove` does before it clears the node's own fields.
abbrev bypass : ℕ → Links → Links
bypass node l =
    let l1 = set_next (l.prev node) (l.next node) l in set_prev (l1.next node) (l1.prev node) l1

-- The neighbours of a node of a segment stand in the segment or at its ends.
neighbours :
    (l : Links) (node a : ℕ) (xs : List ℕ) (b : ℕ)
    → contains node xs ≡ true
    → Segment l a xs b
    → (contains (l.prev node) (a ∷ xs) ≡ true) × (contains (l.next node) (b ∷ xs) ≡ true)
neighbours l node a [] b n s = ground arith
neighbours l node a (x ∷ []) b n s = ground arith
neighbours l node a (x ∷ y ∷ ys) b n s = ground (arith, neighbours l node x (y ∷ ys) b)

Segment-remove_first :
    (l : Links) (a x : ℕ) (xs : List ℕ) (b : ℕ)
    → contains b (x ∷ xs) ≡ false
    → Distinct (x ∷ xs)
    → contains a (x ∷ xs) ≡ false
    → Segment l a (x ∷ xs) b
    → Segment (plist_remove x l) a xs b
unfolding plist_remove
Segment-remove_first l a x [] b hb d ha s = ground arith
Segment-remove_first l a x (z ∷ zs) b hb d ha s =
    let l1 = set_next a z l in
    let l2 = set_prev z a l1 in
    let l3 = set_next x null l2 in
    ground (
      arith,
      Segment-set_next l a z z zs b,
      Segment-set_prev l1 z a z zs b,
      Segment-set_next l2 x null z zs b,
      Segment-set_prev l3 x null z zs b,
    )

Segment-plist_remove :
    (l : Links) (node a : ℕ) (xs : List ℕ) (b : ℕ)
    → contains node xs ≡ true
    → contains b xs ≡ false
    → node ≢ b
    → Distinct xs
    → contains a xs ≡ false
    → Segment l a xs b
    → Segment (plist_remove node l) a (erase node xs) b
unfolding plist_remove
Segment-plist_remove l node a [] b n hb ne d ha s = ground arith
Segment-plist_remove l node a (x ∷ xs) b n hb ne d ha s = elim (Bool-cases (node == x)) [
  | inl same ↦
      let e : node ≡ x = (==_iff node x).0 same in
      rw same (rw e (Segment-remove_first l a x xs b hb d ha s))
  | inr other ↦
      rw other (ground (arith, neighbours l node x xs b, Segment-plist_remove l node x xs b))
]

-- fdevent_plist_remove of a node in the queue takes it out of the queue that the ring holds, and
-- leaves the order of the others.
pub plist_remove-IsRing :
    (node : ℕ) (l : Links) (xs : List ℕ)
    → contains node xs ≡ true
    → IsRing l xs
    → IsRing (plist_remove node l) (erase node xs)
plist_remove-IsRing node l xs n r = record {
  chain =
      Segment-plist_remove l node list_pending xs list_pending n r.apart (ground arith) r.distinct
        r.apart r.chain;
  apart = contains_of_erase list_pending node xs r.apart;
  distinct = Distinct-erase node xs r.distinct;
}

-- `plist_dequeue` returns nothing and changes nothing on an empty queue, and takes the oldest node else.
pub plist_dequeue-nil : (l : Links) → IsRing l [] → plist_dequeue l ≡ (none, l)
unfolding plist_dequeue
plist_dequeue-nil l r = ground arith

pub plist_dequeue-cons :
    (l : Links) (x : ℕ) (xs : List ℕ)
    → IsRing l (x ∷ xs)
    → plist_dequeue l ≡ (some x, plist_remove x l)
unfolding plist_dequeue plist_remove
plist_dequeue-cons l x xs r = ground arith
