-- ===== src/Core/Trie/Proofs/Pair.antt =====
-- Two leaves under one node: `pair_node`.
use tessra.Prelude.{ℕ, zero, suc, ◌+◌, ◌*◌, ◌<◌, ◌≡◌, ◌≢◌, refl, sym, ap, ◌∙◌, arith, true, false}
use tessra.Prelude.{Bytes, Option, none, some, if◌then◌else◌, ◌==◌, ==_iff, All}
use tessra.Prelude.{Bool-cases, inl, inr, eqb, eqb_iff, list_ord, nat_ord, length, leb}
use native.Mathlib.Numerals.{add-one}
use tessra.Core.Result.{ok}
use tessra.Core.State.{M, >>=-ok}
use tessra.Core.Id.{IsByte}
use tessra.Core.Trie.Node.{TrieValue, Slot, TrieNode, empty_node, set_slot, from_slot}
use tessra.Core.Trie.Ops.Store.{NodeStore}
use tessra.Core.Trie.Ops.{save_node, pair_at, pair_node}
use tessra.Core.Trie.Proofs.Slots.{empty_node-IsShaped}
use tessra.Core.Trie.Proofs.Keys.{IsKey, nib, nib-lt, nib-ext, nibble_at_lem}
use tessra.Core.Trie.Proofs.Meaning.{Through, Extends, find_leaf}
use tessra.Core.Trie.Proofs.Nodes.{
  IsNode, find_in, Extends-trans, Extends-save, save-IsTrie, find-save,
}
use tessra.Core.Trie.Proofs.Nodes.{
  empty_node-IsNode, find_in-empty_node, set_slot-IsNode, find_in-set_slot,
}

-- The first `d` nibbles of two keys agree.
abbrev pub Agree : ℕ → Bytes → Bytes → Type 0
Agree d k j = (i : ℕ) → i < d → nib k i ≡ nib j i

pub Agree-suc : (d : ℕ) (k j : Bytes) → Agree d k j → nib k d ≡ nib j d → Agree (suc d) k j
Agree-suc d k j h e i b = elim (Bool-cases (i == d)) [
  | inl same ↦ rw ((==_iff i d).0 same) e
  | inr other ↦ h i (ground arith)
]

pub eqb_ne : (k j : Bytes) → k ≢ j → eqb k j ≡ false
eqb_ne k j n = elim (Bool-cases (eqb k j)) [ inl e ↦ absurd (n ((eqb_iff k j).0 e)) | inr e ↦ e ]

-- Different nibbles belong to different keys.
pub eqb-nib : (k key : Bytes) (d : ℕ) → eqb k key ≡ true → nib k d ≡ nib key d
eqb-nib k key d h = ap (λ x. nib x d) ((eqb_iff k key).0 h)

module _ (store : NodeStore) (len : ℕ) where
  open store use {State, load, save, save_id, load_saved, load_kept}

  -- What two leaves under one node mean.
  abbrev pub pair_value : Bytes → TrieValue → Bytes → TrieValue → Bytes → Option TrieValue
  pair_value k1 v1 k2 v2 key = if eqb k1 key then some v1 else if eqb k2 key then some v2 else none

  abbrev pub IsPair :
      State → ℕ → ℕ → (Bytes → Type 0) → Bytes → TrieValue → Bytes → TrieValue → TrieNode → Type 0
  IsPair s h d P k1 v1 k2 v2 t =
      IsNode store len s h d P t
      × ((key : Bytes)
          → All IsByte key
          → find_in store len s h d t key ≡ pair_value k1 v1 k2 v2 key)

  module _ (k1 k2 : Bytes) (v1 v2 : TrieValue) (w1 : IsKey len k1) (w2 : IsKey len k2)
      (ne : k1 ≢ k2) where
    IsPair-apart :
        (s : State) (h d : ℕ) (P : Bytes → Type 0)
        → P k1
        → P k2
        → nib k1 d ≢ nib k2 d
        → IsPair s h d P k1 v1 k2 v2 (
            set_slot
              (set_slot empty_node (nib k1 d) (some (Slot.leaf k1 v1)))
              (nib k2 d)
              (some (Slot.leaf k2 v2)))
    unfolding from_slot
    IsPair-apart s h d P p1 p2 differ = (
      set_slot-IsNode store len s h d P first (nib k2 d) (some (Slot.leaf k2 v2)) (nib-lt k2 d w2.1)
          first-IsNode (w2, (p2, refl)),
      λ key b.
          find_in-set_slot store len s h d first (nib k2 d) (some (Slot.leaf k2 v2)) key
            (nib-lt k2 d w2.1) first-IsNode.0
          ∙ ground (
            arith,
            find_in-set_slot store len s h d empty_node (nib k1 d) (some (Slot.leaf k1 v1)) key
                (nib-lt k1 d w1.1) empty_node-IsShaped,
            find_in-empty_node store len s h d key,
            find_leaf store len s h (suc d) k1 v1 key,
            find_leaf store len s h (suc d) k2 v2 key,
            eqb-nib k1 key d,
            eqb-nib k2 key d,
          ),
    )
      where
        first : TrieNode
        first = set_slot empty_node (nib k1 d) (some (Slot.leaf k1 v1))

        first-IsNode : IsNode store len s h d P first
        first-IsNode =
            set_slot-IsNode store len s h d P empty_node (nib k1 d) (some (Slot.leaf k1 v1))
              (nib-lt k1 d w1.1) (empty_node-IsNode store len s h d P) (w1, (p1, refl))

    IsPair-below :
        (s : State) (h d : ℕ) (P : Bytes → Type 0) (child : TrieNode)
        → nib k1 d ≡ nib k2 d
        → IsPair s h (suc d) (Through P d (nib k1 d)) k1 v1 k2 v2 child
        → IsPair
            (save s child).1
            (suc h)
            d
            P
            k1
            v1
            k2
            v2
            (set_slot empty_node (nib k1 d) (some (Slot.node (save s child).0)))
    unfolding from_slot
    IsPair-below s h d P child same (w, v) = (
      set_slot-IsNode store len (save s child).1 (suc h) d P empty_node (nib k1 d)
          (some (Slot.node (save s child).0)) (nib-lt k1 d w1.1)
          (empty_node-IsNode store len (save s child).1 (suc h) d P)
          (save-IsTrie store len s h (suc d) (Through P d (nib k1 d)) child w),
      λ key b.
          find_in-set_slot store len (save s child).1 (suc h) d empty_node (nib k1 d)
            (some (Slot.node (save s child).0)) key (nib-lt k1 d w1.1) empty_node-IsShaped
          ∙ ground (
            arith,
            find_in-empty_node store len (save s child).1 (suc h) d key,
            find-save store len s h (suc d) (Through P d (nib k1 d)) child key w b,
            v key b,
            eqb-nib k1 key d,
            eqb-nib k2 key d,
          ),
    )

    pair_node-step :
        (s : State) (f d : ℕ)
        → d < len * 2
        → pair_node store (suc f) d k1 v1 k2 v2 s
          ≡ pair_at store
              (nib k1 d)
              k1
              v1
              (nib k2 d)
              k2
              v2
              (pair_node store f (suc d) k1 v1 k2 v2)
              s
    unfolding pair_node
    pair_node-step s f d b =
        rw (within, nibble_at_lem k1 d (omega arith), nibble_at_lem k2 d (omega arith), add-one d)
      where
        within : leb (length k1 * 2) d ≡ false
        within = ground arith

    pair_at-same :
        (s s' : State) (n m : ℕ) (deeper : M State TrieNode) (child : TrieNode)
        → (n == m) ≡ true
        → deeper s ≡ ok (child, s')
        → pair_at store n k1 v1 m k2 v2 deeper s
          ≡ ok (set_slot empty_node n (some (Slot.node (save s' child).0)), (save s' child).1)
    unfolding pair_at save_node
    pair_at-same s s' n m deeper child same e = rw same (>>=-ok deeper _ e)

    pair_at-apart :
        (s : State) (n m : ℕ) (deeper : M State TrieNode)
        → (n == m) ≡ false
        → pair_at store n k1 v1 m k2 v2 deeper s
          ≡ ok (
            set_slot (set_slot empty_node n (some (Slot.leaf k1 v1))) m (some (Slot.leaf k2 v2)),
            s,
          )
    unfolding pair_at
    pair_at-apart s n m deeper other = rw other

    -- `pair_node` makes the node that holds the two leaves. Keys that agree on all their nibbles
    -- would be equal.
    pub pair_node-IsPair :
        (s : State) (f h d : ℕ) (P : Bytes → Type 0)
        → suc h + d ≡ len * 2
        → h < f
        → P k1
        → P k2
        → Agree d k1 k2
        → (t : TrieNode) × (s' : State) × (pair_node store f d k1 v1 k2 v2 s ≡ ok (t, s'))
          × Extends store len s s'
          × IsPair s' h d P k1 v1 k2 v2 t
    pair_node-IsPair s zero h d P e b p1 p2 a = absurd (omega arith)
    pair_node-IsPair s (suc f) zero d P e b p1 p2 a = elim (Bool-cases (nib k1 d == nib k2 d)) [
      | inl same ↦ absurd (ne (nib-ext k1 k2 (omega arith) λ i c. all_agree same i (omega arith)))
      | inr other ↦ (
        _,
        s,
        pair_node-step s f d (omega arith) ∙ pair_at-apart s _ _ _ other,
        λ i t l. l,
        IsPair-apart s zero d P p1 p2 (λ q. ground arith),
      )
    ]
      where
        all_agree : (nib k1 d == nib k2 d) ≡ true → Agree (suc d) k1 k2
        all_agree same = Agree-suc d k1 k2 a ((==_iff (nib k1 d) (nib k2 d)).0 same)
    pair_node-IsPair s (suc f) (suc h) d P e b p1 p2 a = elim (Bool-cases (nib k1 d == nib k2 d)) [
      | inl same ↦
          let q = (==_iff (nib k1 d) (nib k2 d)).0 same in
          let (child, s', r, x, w) =
            pair_node-IsPair s f h (suc d) (Through P d (nib k1 d)) (omega arith) (omega arith)
              (p1, refl) (p2, sym q) (Agree-suc d k1 k2 a q) in
          (
            _,
            (save s' child).1,
            pair_node-step s f d (omega arith)
                ∙ pair_at-same s s' (nib k1 d) (nib k2 d) (pair_node store f (suc d) k1 v1 k2 v2)
                    child same r,
            Extends-trans store len s s' (save s' child).1 x (Extends-save store len s' child),
            IsPair-below s' h d P child q w,
          )
      | inr other ↦ (
        _,
        s,
        pair_node-step s f d (omega arith) ∙ pair_at-apart s _ _ _ other,
        λ i t l. l,
        IsPair-apart s (suc h) d P p1 p2 (λ q. ground arith),
      )
    ]
