-- ===== src/Core/Trie/Proofs/Meaning.antt =====
-- The map that a trie stands for, and the tries that are well formed.
use tessra.Prelude.{ℕ, zero, suc, ◌+◌, ◌*◌, ◌<◌, ◌≡◌, refl, sym, ap, ◌∙◌, arith, false}
use tessra.Prelude.{Bytes, Option, none, some, if◌then◌else◌, eqb}
use tessra.Prelude.{list_ord, nat_ord, length, leb, All, subst}
use native.Mathlib.Numerals.{add-one}
use tessra.Core.Result.{Result, ok, err, ok-injective}
use tessra.Core.State.{M, lift, >>=-ok}
use tessra.Core.Id.{ObjectId, IsByte}
use tessra.Core.Trie.Node.{TrieValue, Slot, TrieNode, get_slot, Sub, empty, from_slot}
use tessra.Core.Trie.Ops.Store.{NodeStore}
use tessra.Core.Trie.Ops.{load_node, get_at, get_loop, get}
use tessra.Core.Trie.Proofs.Slots.{IsShaped}
use tessra.Core.Trie.Proofs.Keys.{IsKey, nib, nibble_at_lem, nib-lt}

-- What a key that passed through slot `i` at depth `d` satisfies.
abbrev pub Through : (Bytes → Type 0) → ℕ → ℕ → Bytes → Type 0
Through P d i k = P k × (nib k d ≡ i)

-- Every key of a trie.
abbrev pub AnyKey : Bytes → Type 0
AnyKey k = Unit

module _ (store : NodeStore) (len : ℕ) where
  open store use {State, load}

  -- A subtree whose keys satisfy `P`, at depth `d` and of height at most `h`.
  abbrev pub IsTrie : State → ℕ → ℕ → (Bytes → Type 0) → Sub → Type 0
  IsTrie s h d P empty = Unit
  IsTrie s h d P (Sub.leaf k v) = IsKey len k × P k
  IsTrie s zero d P (Sub.node i) = ⊥
  IsTrie s (suc h) d P (Sub.node i) =
      (t : TrieNode) × (load s i ≡ ok t)
      × IsShaped t
      × ((n : ℕ) → n < 16 → IsTrie s h (suc d) (Through P d n) (from_slot (get_slot t n)))

  -- The value at a key.
  abbrev pub child_of : Result TrieNode → ℕ → Sub
  child_of (ok t) n = from_slot (get_slot t n)
  child_of (err e) n = empty

  unfoldable pub find : State → ℕ → ℕ → Sub → Bytes → Option TrieValue
  find s h d empty key = none
  find s h d (Sub.leaf k v) key = if eqb k key then some v else none
  find s zero d (Sub.node i) key = none
  find s (suc h) d (Sub.node i) key = find s h (suc d) (child_of (load s i) (nib key d)) key

  pub find_leaf :
      (s : State) (h d : ℕ) (k : Bytes) (v : TrieValue) (key : Bytes)
      → find s h d (Sub.leaf k v) key ≡ (if eqb k key then some v else none)
  unfolding find
  find_leaf s h d k v key = refl

  pub find-empty : (s : State) (h d : ℕ) (key : Bytes) → find s h d empty key ≡ none
  unfolding find
  find-empty s h d key = refl

  -- A later state of the store holds all that an earlier one held.
  abbrev pub Extends : State → State → Type 0
  Extends s s' = (i : ObjectId) (t : TrieNode) → load s i ≡ ok t → load s' i ≡ ok t

  pub IsTrie-later :
      (s s' : State) (h d : ℕ) (P : Bytes → Type 0) (sub : Sub)
      → Extends s s'
      → IsTrie s h d P sub
      → IsTrie s' h d P sub
  IsTrie-later s s' h d P empty x w = w
  IsTrie-later s s' h d P (Sub.leaf k v) x w = w
  IsTrie-later s s' zero d P (Sub.node i) x w = w
  IsTrie-later s s' (suc h) d P (Sub.node i) x (t, l, shape, below) = (
    t,
    x i t l,
    shape,
    λ n b. IsTrie-later s s' h (suc d) (Through P d n) (from_slot (get_slot t n)) x (below n b),
  )

  pub find_node :
      {s : State} {t : TrieNode} (h d : ℕ) (i : ObjectId) (key : Bytes)
      → load s i ≡ ok t
      → find s (suc h) d (Sub.node i) key
        ≡ find s h (suc d) (from_slot (get_slot t (nib key d))) key
  unfolding find
  find_node {s} h d i key l = ap (λ r. find s h (suc d) (child_of r (nib key d)) key) l

  pub find-later :
      (s s' : State) (h d : ℕ) (P : Bytes → Type 0) (sub : Sub) (key : Bytes)
      → Extends s s'
      → IsTrie s h d P sub
      → All IsByte key
      → find s' h d sub key ≡ find s h d sub key
  unfolding find
  find-later s s' h d P empty key x w b = refl
  find-later s s' h d P (Sub.leaf k v) key x w b = refl
  find-later s s' zero d P (Sub.node i) key x w b = refl
  find-later s s' (suc h) d P (Sub.node i) key x (t, l, shape, below) b =
      find_node h d i key (x i t l)
      ∙ find-later s s' h (suc d) (Through P d (nib key d)) (from_slot (get_slot t (nib key d))) key
          x (below (nib key d) (nib-lt key d b)) b
      ∙ sym (find_node h d i key l)

  pub load_node-ok :
      {s : State} {t : TrieNode} (i : ObjectId) → load s i ≡ ok t → load_node store i s ≡ ok (t, s)
  unfolding load_node
  load_node-ok {s} i l = ap (λ r. lift r s) l

  get_at-find :
      (s : State) (h d : ℕ) (P : Bytes → Type 0) (slot : Option Slot) (key : Bytes)
      (deeper : TrieNode → M State (Option TrieValue))
      → IsTrie s h d P (from_slot slot)
      → ((t : TrieNode) (i : ObjectId)
          → load s i ≡ ok t
          → IsTrie s h d P (Sub.node i)
          → deeper t s ≡ ok (find s h d (Sub.node i) key, s))
      → get_at store key slot deeper s ≡ ok (find s h d (from_slot slot) key, s)
  unfolding get_at from_slot
  get_at-find s h d P none key deeper w ih = unfold find in refl
  get_at-find s h d P (some (Slot.leaf k v)) key deeper w ih = unfold find in refl
  get_at-find s zero d P (some (Slot.node i)) key deeper w ih = absurd w
  get_at-find s (suc h) d P (some (Slot.node i)) key deeper (t, l, shape, below) ih =
      >>=-ok (load_node store i) deeper (load_node-ok i l) ∙ ih t i l (t, l, shape, below)

  get_loop-find :
      (s : State) (f h d : ℕ) (P : Bytes → Type 0) (t : TrieNode) (i : ObjectId) (key : Bytes)
      → load s i ≡ ok t
      → IsTrie s h d P (Sub.node i)
      → IsKey len key
      → h + d ≡ len * 2
      → h < f
      → get_loop store f t d key s ≡ ok (find s h d (Sub.node i) key, s)
  unfolding get_loop
  get_loop-find s zero h d P t i key l w k e b = absurd (omega arith)
  get_loop-find s (suc f) zero d P t i key l w k e b = absurd w
  get_loop-find s (suc f) (suc h) d P t i key l (t', l', shape, below) k e b =
      rw (within, nibble_at_lem key d (omega arith), find_node h d i key l)
        (get_at-find s h (suc d) (Through P d (nib key d)) (get_slot t (nib key d)) key _ slot_ok
          λ t i l w. rw (add-one d) (
            get_loop-find s f h (suc d) (Through P d (nib key d)) t i key l w k (omega arith)
              (omega arith)))
    where
      within : leb (length key * 2) d ≡ false
      within = ground arith

      slot_ok : IsTrie s h (suc d) (Through P d (nib key d)) (from_slot (get_slot t (nib key d)))
      slot_ok =
          subst
            (λ x. IsTrie s h (suc d) (Through P d (nib key d)) (from_slot (get_slot x (nib key d))))
            (ok-injective (sym l' ∙ l)) (below (nib key d) (nib-lt key d k.1))

  -- The trie at `root`: keys of `len` bytes have twice as many nibbles.
  abbrev pub IsRoot : State → ObjectId → Type 0
  IsRoot s root = IsTrie s (len * 2) 0 AnyKey (Sub.node root)

  -- The value at `key` in the trie at `root`.
  abbrev pub value_at : State → ObjectId → Bytes → Option TrieValue
  value_at s root key = find s (len * 2) 0 (Sub.node root) key

  root_node :
      (s : State) (h : ℕ) (P : Bytes → Type 0) (i : ObjectId)
      → IsTrie s h 0 P (Sub.node i)
      → (t : TrieNode) × (load s i ≡ ok t)
  root_node s zero P i w = absurd w
  root_node s (suc h) P i (t, l, shape, below) = (t, l)

  -- `get` returns the value at the key, and ends.
  pub get-value_at :
      (s : State) (root : ObjectId) (key : Bytes)
      → IsRoot s root
      → IsKey len key
      → get store root key s ≡ ok (value_at s root key, s)
  unfolding get
  get-value_at s root key w (len_eq, bytes) =
      let (t, l) = root_node s (len * 2) AnyKey root w in
      >>=-ok (load_node store root) (λ t. get_loop store (length key * 2 + 1) t 0 key)
        (load_node-ok root l)
      ∙ get_loop-find s (length key * 2 + 1) (len * 2) 0 AnyKey t root key l w (len_eq, bytes)
          (omega arith) (omega arith)
