-- ===== src/Core/Trie/Proofs/Insert.antt =====
-- `insert` sets the value at its key and changes no other.
use tessra.Prelude.{ℕ, zero, suc, ◌+◌, ◌*◌, ◌<◌, ◌≡◌, ◌≢◌, refl, sym, ap, ◌∙◌, arith, true}
use tessra.Prelude.{Bytes, Option, none, some, if◌then◌else◌, ◌==◌, ==_iff, All}
use tessra.Prelude.{Bool-cases, inl, inr, eqb, eqb_iff, eqb_refl, list_ord, nat_ord, length}
use native.Mathlib.Numerals.{add-one}
use tessra.Core.Result.{Result, ok}
use tessra.Core.State.{M, ret, ◌>>=◌, >>=-ok}
use tessra.Core.Id.{ObjectId, IsByte}
use tessra.Core.Trie.Node.{TrieValue, Slot, TrieNode, get_slot, set_slot, Sub, from_slot}
use tessra.Core.Trie.Ops.Store.{NodeStore}
use tessra.Core.Trie.Ops.{load_node, save_node, pair_node, new_slot, insert_in, insert}
use tessra.Core.Trie.Proofs.Keys.{IsKey, nib, nib-lt, nib-ext, nibble_at_lem}
use tessra.Core.Trie.Proofs.Meaning.{
  Through, IsTrie, find, Extends, load_node-ok, AnyKey, IsRoot, value_at,
}
use tessra.Core.Trie.Proofs.Meaning.{find_node, find_leaf, find-empty}
use tessra.Core.Trie.Proofs.Nodes.{
  IsNode, find_in, Extends-trans, Extends-save, save-IsTrie, find-save,
}
use tessra.Core.Trie.Proofs.Nodes.{set_slot-IsNode, find_in-set_slot, IsNode-later, find_in-later}
use tessra.Core.Trie.Proofs.Pair.{Agree, Agree-suc, eqb_ne, eqb-nib, pair_node-IsPair}

module _ (store : NodeStore) (len : ℕ) (key : Bytes) (value : TrieValue)
    (key_ok : IsKey len key) where
  open store use {State, load, save}

  -- Every key that satisfies `P` shares the first `d` nibbles of `key`, and `key` satisfies it.
  abbrev IsPath : ℕ → (Bytes → Type 0) → Type 0
  IsPath d P = P key × ((k : Bytes) → P k → Agree d k key)

  IsPath-suc : (d : ℕ) (P : Bytes → Type 0) → IsPath d P → IsPath (suc d) (Through P d (nib key d))
  IsPath-suc d P (p, a) = ((p, refl), λ k (q, e). Agree-suc d k key (a k q) e)

  abbrev updated : Option TrieValue → Bytes → Option TrieValue
  updated old j = if eqb key j then some value else old

  save_node-ret :
      (s : State) (t : TrieNode)
      → (save_node store t >>= λ i. ret (Slot.node i)) s ≡ ok (Slot.node (save s t).0, (save s t).1)
  unfolding save_node
  save_node-ret s t = refl

  -- The outcome of an insertion into a node, and into a slot.
  abbrev NodeUpdated :
      State → ℕ → ℕ → (Bytes → Type 0) → TrieNode → Result (TrieNode × State) → Type 0
  NodeUpdated s h d P t r =
      (t' : TrieNode) × (s' : State) × (r ≡ ok (t', s'))
      × Extends store len s s'
      × IsNode store len s' h d P t'
      × ((j : Bytes)
          → All IsByte j
          → find_in store len s' h d t' j ≡ updated (find_in store len s h d t j) j)

  abbrev SlotUpdated :
      State → ℕ → ℕ → (Bytes → Type 0) → Option Slot → Result (Slot × State) → Type 0
  SlotUpdated s h d P o r =
      (slot : Slot) × (s' : State) × (r ≡ ok (slot, s'))
      × Extends store len s s'
      × IsTrie store len s' h d P (from_slot (some slot))
      × ((j : Bytes)
          → All IsByte j
          → find store len s' h d (from_slot (some slot)) j
            ≡ updated (find store len s h d (from_slot o) j) j)

  new_slot-same :
      (s : State) (h d : ℕ) (P : Bytes → Type 0) (k : Bytes) (v : TrieValue)
      (deeper : TrieNode → M State TrieNode)
      → k ≡ key
      → IsKey len k × P k
      → SlotUpdated s h d P (some (Slot.leaf k v)) (ok (Slot.leaf k value, s))
  unfolding from_slot
  new_slot-same s h d P k v deeper same w = (
    Slot.leaf k value,
    s,
    refl,
    λ i t l. l,
    w,
    λ j b. ground (
      arith,
      find_leaf store len s h d k value j,
      find_leaf store len s h d k v j,
      ap (λ x. eqb x j) same,
    ),
  )

  new_slot-split :
      (s : State) (h d : ℕ) (P : Bytes → Type 0) (k : Bytes) (v : TrieValue)
      → h + suc d ≡ len * 2
      → IsPath (suc d) P
      → IsKey len k × P k
      → k ≢ key
      → SlotUpdated s h (suc d) P (some (Slot.leaf k v)) (
          (pair_node store (length k * 2 + 1) (suc d) k v key value >>= λ child.
          save_node store child >>= λ i. ret (Slot.node i))
            s)
  unfolding from_slot
  new_slot-split s zero d P k v e (p, a) (w, q) ne =
      absurd (ne (nib-ext k key (omega arith) λ i c. a k q i (omega arith)))
  new_slot-split s (suc h) d P k v e (p, a) (w, q) ne =
      let (child, s', r, x, (n, val)) =
        pair_node-IsPair store len k key v value w key_ok ne s (length k * 2 + 1) h (suc d) P
          (omega arith) (omega arith) q p (a k q) in
      (
        Slot.node (save s' child).0,
        (save s' child).1,
        >>=-ok (pair_node store (length k * 2 + 1) (suc d) k v key value)
              (λ child. save_node store child >>= λ i. ret (Slot.node i)) r
            ∙ save_node-ret s' child,
        Extends-trans store len s s' (save s' child).1 x (Extends-save store len s' child),
        save-IsTrie store len s' h (suc d) P child n,
        λ j b.
            find-save store len s' h (suc d) P child j n b
            ∙ ground (
              arith,
              val j b,
              find_leaf store len s (suc h) (suc d) k v j,
              eqb_iff k j,
              eqb_iff key j,
              eqb_ne k key ne,
            ),
      )

  new_slot-leaf :
      (s : State) (h d : ℕ) (P : Bytes → Type 0) (k : Bytes) (v : TrieValue)
      (deeper : TrieNode → M State TrieNode)
      → h + suc d ≡ len * 2
      → IsPath (suc d) P
      → IsKey len k × P k
      → SlotUpdated s h
          (suc d)
          P
          (some (Slot.leaf k v))
          (new_slot store d key value (some (Slot.leaf k v)) deeper s)
  unfolding new_slot
  new_slot-leaf s h d P k v deeper e path (w, q) = elim (Bool-cases (eqb k key)) [
    | inl same ↦ rw same (new_slot-same s h (suc d) P k v deeper ((eqb_iff k key).0 same) (w, q))
    | inr other ↦
        rw (other, lengths, add-one d)
          (new_slot-split s h d P k v e path (w, q) λ q. cc (eqb_refl key))
  ]
    where
      lengths : (length k == length key) ≡ true
      lengths = (==_iff (length k) (length key)).1 (omega arith)

  new_slot-child :
      (s : State) (h d : ℕ) (P : Bytes → Type 0) (t : TrieNode) (i : ObjectId)
      (deeper : TrieNode → M State TrieNode)
      → load s i ≡ ok t
      → NodeUpdated s h (suc d) P t (deeper t s)
      → SlotUpdated s
          (suc h)
          (suc d)
          P
          (some (Slot.node i))
          (new_slot store d key value (some (Slot.node i)) deeper s)
  unfolding new_slot from_slot
  new_slot-child s h d P t i deeper l (t', s', r, x, w, v) = (
    Slot.node (save s' t').0,
    (save s' t').1,
    >>=-ok (load_node store i)
          (λ child. deeper child >>= λ c. save_node store c >>= λ j. ret (Slot.node j))
          (load_node-ok store len i l)
        ∙ >>=-ok (deeper t) (λ c. save_node store c >>= λ j. ret (Slot.node j)) r
        ∙ save_node-ret s' t',
    Extends-trans store len s s' (save s' t').1 x (Extends-save store len s' t'),
    save-IsTrie store len s' h (suc d) P t' w,
    λ j b.
        find-save store len s' h (suc d) P t' j w b
        ∙ v j b
        ∙ ap (λ o. updated o j) (sym (find_node store len h (suc d) i j l)),
  )

  -- The new slot of an insertion, at whatever the old slot holds.
  new_slot-SlotUpdated :
      (s : State) (h d : ℕ) (P : Bytes → Type 0) (o : Option Slot)
      (deeper : TrieNode → M State TrieNode)
      → h + suc d ≡ len * 2
      → IsPath (suc d) P
      → IsTrie store len s h (suc d) P (from_slot o)
      → ((g : ℕ) (t : TrieNode)
          → suc g + suc d ≡ len * 2
          → IsNode store len s g (suc d) P t
          → NodeUpdated s g (suc d) P t (deeper t s))
      → SlotUpdated s h (suc d) P o (new_slot store d key value o deeper s)
  unfolding from_slot
  new_slot-SlotUpdated s h d P none deeper e (p, a) w ih = (
    Slot.leaf key value,
    s,
    unfold new_slot in refl,
    λ i t l. l,
    (key_ok, p),
    λ j b.
        find_leaf store len s h (suc d) key value j
        ∙ ap (λ o. updated o j) (sym (find-empty store len s h (suc d) j)),
  )
  new_slot-SlotUpdated s h d P (some (Slot.leaf k v)) deeper e path w ih =
      new_slot-leaf s h d P k v deeper e path w
  new_slot-SlotUpdated s zero d P (some (Slot.node i)) deeper e path w ih = absurd w
  new_slot-SlotUpdated s (suc h) d P (some (Slot.node i)) deeper e path (t, l, shape, below) ih =
      new_slot-child s h d P t i deeper l (ih h t e (shape, below))

  insert_in-step :
      (s : State) (f d : ℕ) (t : TrieNode)
      → d < len * 2
      → insert_in store (suc f) t d key value s
        ≡ (new_slot store d key value
                (get_slot t (nib key d))
                (λ c. insert_in store f c (suc d) key value)
              >>= λ slot. ret (set_slot t (nib key d) (some slot)))
            s
  unfolding insert_in
  insert_in-step s f d t b = rw (nibble_at_lem key d (omega arith), add-one d)

  insert_in-NodeUpdated :
      (s : State) (f h d : ℕ) (P : Bytes → Type 0) (t : TrieNode)
      → suc h + d ≡ len * 2
      → h < f
      → IsPath d P
      → IsNode store len s h d P t
      → NodeUpdated s h d P t (insert_in store f t d key value s)
  insert_in-NodeUpdated s zero h d P t e b path w = absurd (omega arith)
  insert_in-NodeUpdated s (suc f) h d P t e b path w =
      let (slot, s', r, x, v, val) =
        new_slot-SlotUpdated s h d (Through P d (nib key d)) (get_slot t (nib key d))
          (λ c. insert_in store f c (suc d) key value) (omega arith) (IsPath-suc d P path)
          (w.1 (nib key d) (nib-lt key d key_ok.1))
          (λ g c e' w'.
            insert_in-NodeUpdated s f g (suc d) (Through P d (nib key d)) c (omega arith)
              (omega arith) (IsPath-suc d P path) w') in
      (
        set_slot t (nib key d) (some slot),
        s',
        insert_in-step s f d t (omega arith)
            ∙ >>=-ok
                (new_slot store d key value (get_slot t (nib key d))
                  (λ c. insert_in store f c (suc d) key value))
                (λ slot. ret (set_slot t (nib key d) (some slot))) r,
        x,
        set_slot-IsNode store len s' h d P t (nib key d) (some slot) (nib-lt key d key_ok.1)
            (IsNode-later store len s s' h d P t x w) v,
        λ j c.
            find_in-set_slot store len s' h d t (nib key d) (some slot) j (nib-lt key d key_ok.1)
              w.0
            ∙ ground
                (arith, val j c, find_in-later store len s s' h d P t j x w c, eqb-nib key j d),
      )

  root_height :
      (s : State) (h : ℕ) (i : ObjectId) → IsTrie store len s h 0 AnyKey (Sub.node i) → 0 < h
  root_height s zero i w = absurd w
  root_height s (suc h) i w = omega arith

  insert-at :
      (s : State) (root : ObjectId) (h : ℕ)
      → h ≡ len * 2
      → IsTrie store len s h 0 AnyKey (Sub.node root)
      → (root' : ObjectId) × (s' : State) × (insert store root key value s ≡ ok (root', s'))
        × Extends store len s s'
        × IsTrie store len s' h 0 AnyKey (Sub.node root')
        × ((j : Bytes)
            → All IsByte j
            → find store len s' h 0 (Sub.node root') j
              ≡ updated (find store len s h 0 (Sub.node root) j) j)
  unfolding insert
  insert-at s root zero e w = absurd w
  insert-at s root (suc h) e (t, l, shape, below) =
      let (t', s', r, x, w', v) =
        insert_in-NodeUpdated s (length key * 2 + 1) h 0 AnyKey t (omega arith) (omega arith)
          (tt, λ k q i b. absurd (omega arith)) (shape, below) in
      (
        (save s' t').0,
        (save s' t').1,
        >>=-ok (load_node store root)
              (λ t. insert_in store (length key * 2 + 1) t 0 key value >>= λ t'. save_node store t')
              (load_node-ok store len root l)
            ∙ >>=-ok (insert_in store (length key * 2 + 1) t 0 key value) (λ t'. save_node store t')
                r
            ∙ unfold save_node in refl,
        Extends-trans store len s s' (save s' t').1 x (Extends-save store len s' t'),
        save-IsTrie store len s' h 0 AnyKey t' w',
        λ j b.
            find-save store len s' h 0 AnyKey t' j w' b
            ∙ v j b
            ∙ ap (λ o. updated o j) (sym (find_node store len h 0 root j l)),
      )

  -- `insert` ends with a root at which the key has the new value and every other key of bytes the
  -- value it had; the new trie is well formed, and no node of an older one is lost.
  pub insert-value_at :
      (s : State) (root : ObjectId) (j : Bytes)
      → IsRoot store len s root
      → All IsByte j
      → (root' : ObjectId) × (s' : State) × (insert store root key value s ≡ ok (root', s'))
        × Extends store len s s'
        × IsRoot store len s' root'
        × (value_at store len s' root' j
            ≡ (if eqb key j then some value else value_at store len s root j))
  insert-value_at s root j w b =
      let (root', s', r, x, w', v) = insert-at s root (len * 2) refl w in
      (root', s', r, x, w', v j b)
