-- ===== src/Core/Trie/Proofs/Slots.antt =====
-- A node is an array of sixteen slots that may be empty: `set_slot` writes it and `get_slot` reads it.
use tessra.Prelude.{ℕ, zero, suc, ◌<◌, ◌≡◌, refl, ap, arith, Bool, true, false, List, [], ◌∷◌}
use tessra.Prelude.{Option, none, some, get_elem?, if◌then◌else◌, ◌==◌, length, replicate}
use tessra.Core.Trie.Node.{
  Slot, TrieNode, empty_node, has_bit, rank, write_bit, insert_at, remove_at,
}
use tessra.Core.Trie.Node.{write_at, get_slot, set_slot}

abbrev count : List Bool → ℕ
count [] = 0
count (b ∷ bs) = if b then suc (count bs) else count bs

-- One bit for each nibble, and one slot for each bit that is set.
abbrev pub IsShaped : TrieNode → Type 0
IsShaped t = (length t.bitmap ≡ 16) × (length t.slots ≡ count t.bitmap)

read : List Bool → List Slot → ℕ → Option Slot
read bs ss n = if has_bit bs n then get_elem? ss (rank bs n) else none

read-replace :
    (bs : List Bool) (ss : List Slot) (n m : ℕ) (s : Slot)
    → has_bit bs n ≡ true
    → length ss ≡ count bs
    → read bs (write_at ss (rank bs n) s) m ≡ (if n == m then some s else read bs ss m)
unfolding read has_bit rank write_at
read-replace [] ss n m s h e = cc
read-replace (true ∷ bs) [] n m s h e = absurd (omega arith)
read-replace (true ∷ bs) (x ∷ ss) zero zero s h e = refl
read-replace (true ∷ bs) (x ∷ ss) zero (suc m) s h e = ground arith
read-replace (true ∷ bs) (x ∷ ss) (suc n) zero s h e = ground arith
read-replace (true ∷ bs) (x ∷ ss) (suc n) (suc m) s h e = ground (arith, read-replace bs ss n m s)
read-replace (false ∷ bs) ss zero m s h e = cc
read-replace (false ∷ bs) ss (suc n) zero s h e = ground arith
read-replace (false ∷ bs) ss (suc n) (suc m) s h e = ground (arith, read-replace bs ss n m s)

read-insert :
    (bs : List Bool) (ss : List Slot) (n m : ℕ) (s : Slot)
    → has_bit bs n ≡ false
    → n < length bs
    → length ss ≡ count bs
    → read (write_bit true bs n) (insert_at ss (rank bs n) s) m
      ≡ (if n == m then some s else read bs ss m)
unfolding read has_bit rank write_bit insert_at
read-insert [] ss n m s h l e = absurd (omega arith)
read-insert (true ∷ bs) ss zero m s h l e = cc
read-insert (true ∷ bs) [] (suc n) m s h l e = absurd (omega arith)
read-insert (true ∷ bs) (x ∷ ss) (suc n) zero s h l e = ground arith
read-insert (true ∷ bs) (x ∷ ss) (suc n) (suc m) s h l e = ground (arith, read-insert bs ss n m s)
read-insert (false ∷ bs) ss zero zero s h l e = ground arith
read-insert (false ∷ bs) ss zero (suc m) s h l e = ground arith
read-insert (false ∷ bs) ss (suc n) zero s h l e = ground arith
read-insert (false ∷ bs) ss (suc n) (suc m) s h l e = ground (arith, read-insert bs ss n m s)

read-remove :
    (bs : List Bool) (ss : List Slot) (n m : ℕ)
    → has_bit bs n ≡ true
    → length ss ≡ count bs
    → read (write_bit false bs n) (remove_at ss (rank bs n)) m
      ≡ (if n == m then none else read bs ss m)
unfolding read has_bit rank write_bit remove_at
read-remove [] ss n m h e = cc
read-remove (true ∷ bs) [] n m h e = absurd (omega arith)
read-remove (true ∷ bs) (x ∷ ss) zero zero h e = refl
read-remove (true ∷ bs) (x ∷ ss) zero (suc m) h e = ground arith
read-remove (true ∷ bs) (x ∷ ss) (suc n) zero h e = ground arith
read-remove (true ∷ bs) (x ∷ ss) (suc n) (suc m) h e = ground (arith, read-remove bs ss n m)
read-remove (false ∷ bs) ss zero m h e = cc
read-remove (false ∷ bs) ss (suc n) zero h e = ground arith
read-remove (false ∷ bs) ss (suc n) (suc m) h e = ground (arith, read-remove bs ss n m)

shape-replace :
    (bs : List Bool) (ss : List Slot) (i : ℕ) (s : Slot) → length (write_at ss i s) ≡ length ss
unfolding write_at
shape-replace bs [] i s = refl
shape-replace bs (x ∷ ss) zero s = refl
shape-replace bs (x ∷ ss) (suc i) s = ap suc (shape-replace bs ss i s)

length-write_bit : (v : Bool) (bs : List Bool) (n : ℕ) → length (write_bit v bs n) ≡ length bs
unfolding write_bit
length-write_bit v [] n = refl
length-write_bit v (b ∷ bs) zero = refl
length-write_bit v (b ∷ bs) (suc n) = ap suc (length-write_bit v bs n)

count-set :
    (bs : List Bool) (n : ℕ)
    → has_bit bs n ≡ false
    → n < length bs
    → count (write_bit true bs n) ≡ suc (count bs)
unfolding has_bit write_bit
count-set [] n h l = absurd (omega arith)
count-set (b ∷ bs) zero h l = ground arith
count-set (b ∷ bs) (suc n) h l = ground (arith, count-set bs n)

count-clear :
    (bs : List Bool) (n : ℕ) → has_bit bs n ≡ true → suc (count (write_bit false bs n)) ≡ count bs
unfolding has_bit write_bit
count-clear [] n h = cc
count-clear (b ∷ bs) zero h = ground arith
count-clear (b ∷ bs) (suc n) h = ground (arith, count-clear bs n)

length-insert_at : (ss : List Slot) (i : ℕ) (s : Slot) → length (insert_at ss i s) ≡ suc (length ss)
unfolding insert_at
length-insert_at ss zero s = refl
length-insert_at [] (suc i) s = refl
length-insert_at (x ∷ ss) (suc i) s = ap suc (length-insert_at ss i s)

length-remove_at :
    (ss : List Slot) (i : ℕ) → i < length ss → suc (length (remove_at ss i)) ≡ length ss
unfolding remove_at
length-remove_at [] i h = absurd (omega arith)
length-remove_at (x ∷ ss) zero h = refl
length-remove_at (x ∷ ss) (suc i) h = ap suc (length-remove_at ss i (omega arith))

rank-lt-count : (bs : List Bool) (n : ℕ) → has_bit bs n ≡ true → rank bs n < count bs
unfolding has_bit rank
rank-lt-count [] n h = cc
rank-lt-count (b ∷ bs) zero h = ground arith
rank-lt-count (b ∷ bs) (suc n) h = ground (arith, rank-lt-count bs n)

-- A slot that is written is read back, every other slot is unchanged, and the node keeps its shape:
-- a slot for each bit that is set.
pub get_slot-set_slot :
    (t : TrieNode) (n m : ℕ) (o : Option Slot)
    → IsShaped t
    → n < 16
    → get_slot (set_slot t n o) m ≡ (if n == m then o else get_slot t m)
unfolding get_slot set_slot read
get_slot-set_slot t n m (some s) (l, e) h =
    ground (arith, read-replace t.bitmap t.slots n m s, read-insert t.bitmap t.slots n m s)
get_slot-set_slot t n m none (l, e) h = ground (arith, read-remove t.bitmap t.slots n m)

pub set_slot-IsShaped :
    (t : TrieNode) (n : ℕ) (o : Option Slot) → IsShaped t → n < 16 → IsShaped (set_slot t n o)
unfolding set_slot
set_slot-IsShaped t n (some s) (l, e) h = ground (
  arith,
  shape-replace t.bitmap t.slots (rank t.bitmap n) s,
  length-write_bit true t.bitmap n,
  count-set t.bitmap n,
  length-insert_at t.slots (rank t.bitmap n) s,
)
set_slot-IsShaped t n none (l, e) h = ground (
  arith,
  length-write_bit false t.bitmap n,
  count-clear t.bitmap n,
  rank-lt-count t.bitmap n,
  length-remove_at t.slots (rank t.bitmap n),
)

pub empty_node-IsShaped : IsShaped empty_node
unfolding empty_node
empty_node-IsShaped = (refl, refl)

pub get_slot-empty_node : (n : ℕ) → get_slot empty_node n ≡ none
unfolding get_slot empty_node
get_slot-empty_node n = rw (no_bit 16 n)
  where
    no_bit : (w n : ℕ) → has_bit (replicate w false) n ≡ false
    no_bit zero n = refl
    no_bit (suc w) zero = refl
    no_bit (suc w) (suc n) = no_bit w n
