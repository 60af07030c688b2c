-- ===== src/Core/Trie/InMemory.antt =====
-- The in-memory object store as the store of a trie's nodes: the interface filled by the theorems of
-- Core/Store/Laws.
use tessra.Prelude.{◌≡◌, refl, sym, ap, ◌∙◌, Bytes, Option, none, some}
use tessra.Prelude.{lookup, eqb, eqb_iff, eqb_refl, list_ord, nat_ord, Bool-cases, inl, inr}
use tessra.Core.Result.{Result, ok, err, Error}
use tessra.Core.Id.{ObjectId}
use tessra.Core.Hash.{object_id}
use tessra.Core.Hash.Domains.{IsTag, IsInjective, object_id-injective}
use tessra.Core.Store.{MemoryStore, Codec, put_object, get_object, checked}
use tessra.Core.Store.Laws.{IsAddressed, put_bytes-IsAddressed, get-put}
use tessra.Core.Trie.Node.{TrieNode}
use tessra.Core.Trie.Ops.Store.{NodeStore}

-- The codec is any whose decoder reads what its encoder wrote.
module _ (blake3 : Bytes → Bytes) (inj : IsInjective blake3) (c : Codec TrieNode)
    (is_tag : IsTag c.tag) (round_trip : (n : TrieNode) → c.decode (c.encode n) ≡ ok n) where
  abbrev State : Type 0
  State = (s : MemoryStore) × IsAddressed blake3 s

  abbrev load : State → ObjectId → Result TrieNode
  load s i = get_object blake3 c s.0 i

  pub put_object-IsAddressed :
      (s : State) (n : TrieNode) → IsAddressed blake3 (put_object blake3 c s.0 n).1
  unfolding put_object
  put_object-IsAddressed s n = put_bytes-IsAddressed blake3 inj s.0 c.tag (c.encode n) is_tag s.1

  abbrev id_of : TrieNode → ObjectId
  id_of n = object_id blake3 c.tag (c.encode n)

  abbrev save : State → TrieNode → ObjectId × State
  save s n = (id_of n, ((put_object blake3 c s.0 n).1, put_object-IsAddressed s n))

  pub load_saved : (s : State) (n : TrieNode) → load (save s n).1 (save s n).0 ≡ ok n
  load_saved s n = get-put blake3 inj c is_tag s.0 n (id_of n) s.1 ∙ rw (eqb_refl) (round_trip n)

  -- What is stored under a node's ID is that node.
  checked-ok :
      (s : State) (n m : TrieNode) (o : Option Bytes)
      → lookup (id_of n) s.0 ≡ o
      → checked blake3 c (id_of n) o ≡ ok m
      → c.decode (c.encode n) ≡ ok m
  unfolding checked
  checked-ok s n m none e h = cc
  checked-ok s n m (some b) e h = elim (Bool-cases (eqb (object_id blake3 c.tag b) (id_of n))) [
    | inl hit ↦
        ap c.decode (
          sym
            (object_id-injective blake3 c.tag c.tag b (c.encode n) inj is_tag is_tag
              ((eqb_iff (object_id blake3 c.tag b) (id_of n)).0 hit)).1)
        ∙ (rw hit at h)
    | inr miss ↦ absurd (wrong (rw miss at h))
  ]
    where
      wrong : err Error.store ≡ ok m → ⊥
      wrong h = cc

  pub load_kept :
      (s : State) (n m : TrieNode) (i : ObjectId) → load s i ≡ ok m → load (save s n).1 i ≡ ok m
  unfolding checked get_object
  load_kept s n m i h =
      get-put blake3 inj c is_tag s.0 n i s.1 ∙ elim (Bool-cases (eqb (id_of n) i)) [
        | inl hit ↦ rw hit (same ((eqb_iff (id_of n) i).0 hit))
        | inr miss ↦ rw miss h
      ]
    where
      same : id_of n ≡ i → c.decode (c.encode n) ≡ ok m
      same e =
          checked-ok s n m (lookup (id_of n) s.0) refl (ap (λ i. get_object blake3 c s.0 i) e ∙ h)

  abbrev pub in_memory : NodeStore
  in_memory = record {
    State = State;
    load = load;
    save = save;
    id_of = id_of;
    save_id = λ s n. refl;
    load_saved = load_saved;
    load_kept = load_kept;
  }
