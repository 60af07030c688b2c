-- ===== src/Core/Trie/Proofs/Nodes.antt =====
-- Nodes in hand: what they mean before they are saved, and after a slot is written.
use tessra.Prelude.{ℕ, suc, ◌<◌, ◌≡◌, refl, ◌∙◌, true, false}
use tessra.Prelude.{Bytes, Option, none, if◌then◌else◌, ◌==◌, ==_iff, subst, All}
use tessra.Prelude.{Bool-cases, inl, inr, ◌⊎◌}
use tessra.Core.Id.{IsByte}
use tessra.Core.Trie.Node.{
  TrieValue, Slot, TrieNode, empty_node, get_slot, set_slot, Sub, from_slot,
}
use tessra.Core.Trie.Ops.Store.{NodeStore}
use tessra.Core.Trie.Proofs.Slots.{
  IsShaped, get_slot-set_slot, set_slot-IsShaped, empty_node-IsShaped,
}
use tessra.Core.Trie.Proofs.Slots.{get_slot-empty_node}
use tessra.Core.Trie.Proofs.Keys.{nib, nib-lt}
use tessra.Core.Trie.Proofs.Meaning.{
  Through, IsTrie, find, Extends, IsTrie-later, find-later, find_node,
}

module _ (store : NodeStore) (len : ℕ) where
  open store use {State, load, save, save_id, load_saved, load_kept}

  -- A node at depth `d`, each of whose slots holds a trie of height at most `h`.
  abbrev pub IsNode : State → ℕ → ℕ → (Bytes → Type 0) → TrieNode → Type 0
  IsNode s h d P t =
      IsShaped t
      × ((n : ℕ) → n < 16 → IsTrie store len s h (suc d) (Through P d n) (from_slot (get_slot t n)))

  abbrev pub find_in : State → ℕ → ℕ → TrieNode → Bytes → Option TrieValue
  find_in s h d t key = find store len s h (suc d) (from_slot (get_slot t (nib key d))) key

  pub Extends-trans :
      (s s' s'' : State)
      → Extends store len s s'
      → Extends store len s' s''
      → Extends store len s s''
  Extends-trans s s' s'' x y i t l = y i t (x i t l)

  pub Extends-save : (s : State) (t : TrieNode) → Extends store len s (save s t).1
  Extends-save s t i m l = load_kept s t m i l

  -- A saved node is a trie, with the node's values.
  pub save-IsTrie :
      (s : State) (h d : ℕ) (P : Bytes → Type 0) (t : TrieNode)
      → IsNode s h d P t
      → IsTrie store len (save s t).1 (suc h) d P (Sub.node (save s t).0)
  save-IsTrie s h d P t (shape, below) = (
    t,
    load_saved s t,
    shape,
    λ n b.
        IsTrie-later store len s (save s t).1 h (suc d) (Through P d n) (from_slot (get_slot t n))
          (Extends-save s t) (below n b),
  )

  pub find-save :
      (s : State) (h d : ℕ) (P : Bytes → Type 0) (t : TrieNode) (key : Bytes)
      → IsNode s h d P t
      → All IsByte key
      → find store len (save s t).1 (suc h) d (Sub.node (save s t).0) key ≡ find_in s h d t key
  find-save s h d P t key (shape, below) b =
      find_node store len h d (save s t).0 key (load_saved s t)
      ∙ find-later store len s (save s t).1 h (suc d) (Through P d (nib key d))
          (from_slot (get_slot t (nib key d))) key (Extends-save s t)
          (below (nib key d) (nib-lt key d b)) b

  pub empty_node-IsNode : (s : State) (h d : ℕ) (P : Bytes → Type 0) → IsNode s h d P empty_node
  empty_node-IsNode s h d P =
      (empty_node-IsShaped, λ n b. rw (get_slot-empty_node n) (unfold from_slot in tt))

  pub find_in-empty_node : (s : State) (h d : ℕ) (key : Bytes) → find_in s h d empty_node key ≡ none
  find_in-empty_node s h d key =
      rw (get_slot-empty_node (nib key d)) (unfold from_slot find in refl)

  -- Writing a slot.
  pub set_slot-IsNode :
      (s : State) (h d : ℕ) (P : Bytes → Type 0) (t : TrieNode) (n : ℕ) (o : Option Slot)
      → n < 16
      → IsNode s h d P t
      → IsTrie store len s h (suc d) (Through P d n) (from_slot o)
      → IsNode s h d P (set_slot t n o)
  set_slot-IsNode s h d P t n o b (shape, below) w = (
    set_slot-IsShaped t n o shape b,
    λ m c. rw (get_slot-set_slot t n m o shape b) (slot m c (Bool-cases (n == m))),
  )
    where
      slot :
          (m : ℕ)
          → m < 16
          → ((n == m) ≡ true) ⊎ ((n == m) ≡ false)
          → IsTrie store len s h
              (suc d)
              (Through P d m)
              (from_slot (if n == m then o else get_slot t m))
      slot m c (inl e) = rw e (
          subst (λ k. IsTrie store len s h (suc d) (Through P d k) (from_slot o)) ((==_iff n m).0 e)
            w)
      slot m c (inr e) = rw e (below m c)

  pub find_in-set_slot :
      (s : State) (h d : ℕ) (t : TrieNode) (n : ℕ) (o : Option Slot) (key : Bytes)
      → n < 16
      → IsShaped t
      → find_in s h d (set_slot t n o) key ≡ (
          if n == nib key d
          then find store len s h (suc d) (from_slot o) key
          else find_in s h d t key)
  find_in-set_slot s h d t n o key b shape =
      rw (get_slot-set_slot t n (nib key d) o shape b) (split (Bool-cases (n == nib key d)))
    where
      split :
          ((n == nib key d) ≡ true) ⊎ ((n == nib key d) ≡ false)
          → find store len s h
              (suc d)
              (from_slot (if n == nib key d then o else get_slot t (nib key d)))
              key
            ≡ (if n == nib key d
                then find store len s h (suc d) (from_slot o) key
                else find_in s h d t key)
      split (inl e) = rw e
      split (inr e) = rw e

  -- An earlier node in a later state of the store.
  pub IsNode-later :
      (s s' : State) (h d : ℕ) (P : Bytes → Type 0) (t : TrieNode)
      → Extends store len s s'
      → IsNode s h d P t
      → IsNode s' h d P t
  IsNode-later s s' h d P t x (shape, below) = (
    shape,
    λ n b.
        IsTrie-later store len s s' h (suc d) (Through P d n) (from_slot (get_slot t n)) x
          (below n b),
  )

  pub find_in-later :
      (s s' : State) (h d : ℕ) (P : Bytes → Type 0) (t : TrieNode) (key : Bytes)
      → Extends store len s s'
      → IsNode s h d P t
      → All IsByte key
      → find_in s' h d t key ≡ find_in s h d t key
  find_in-later s s' h d P t key x (shape, below) b =
      find-later store len s s' h (suc d) (Through P d (nib key d))
        (from_slot (get_slot t (nib key d))) key x (below (nib key d) (nib-lt key d b)) b
