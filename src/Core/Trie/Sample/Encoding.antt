-- ===== src/Core/Trie/Sample/Encoding.antt =====
-- A plain encoding of a node, for the concrete runs: every list behind its length.
use tessra.Prelude.{
  ℕ, zero, suc, ◌≡◌, refl, sym, ap, ◌∙◌, arith, Bool, true, false, List, [], ◌∷◌, ◌++◌,
}
use tessra.Prelude.{Bytes, codes, length, append_assoc, append-nil}
use tessra.Core.Result.{Result, ok}
use tessra.Core.Hash.Domains.{IsTag}
use tessra.Core.Store.{Codec}
use tessra.Core.Trie.Node.{TrieValue, Slot, TrieNode}

module _ {A : Type 0} (enc : A → Bytes) (dec : Bytes → A × Bytes) where
  abbrev enc_all : List A → Bytes
  enc_all [] = []
  enc_all (x ∷ xs) = enc x ++ enc_all xs

  abbrev enc_list : List A → Bytes
  enc_list xs = length xs ∷ enc_all xs

  abbrev dec_many : ℕ → Bytes → List A × Bytes
  dec_many zero b = ([], b)
  dec_many (suc n) b = let (x, b') = dec b in let (xs, b'') = dec_many n b' in (x ∷ xs, b'')

  abbrev dec_list : Bytes → List A × Bytes
  dec_list [] = ([], [])
  dec_list (n ∷ b) = dec_many n b

  dec_many-enc_all :
      ((x : A) (b : Bytes) → dec (enc x ++ b) ≡ (x, b))
      → (xs : List A) (b : Bytes) → dec_many (length xs) (enc_all xs ++ b) ≡ (xs, b)
  dec_many-enc_all h [] b = refl
  dec_many-enc_all h (x ∷ xs) b =
      rw (append_assoc (enc x) (enc_all xs) b, h x (enc_all xs ++ b), dec_many-enc_all h xs b)

  dec_list-enc_list :
      ((x : A) (b : Bytes) → dec (enc x ++ b) ≡ (x, b))
      → (xs : List A) (b : Bytes) → dec_list (enc_list xs ++ b) ≡ (xs, b)
  dec_list-enc_list h xs b = dec_many-enc_all h xs b

abbrev enc_byte : ℕ → Bytes
enc_byte n = n ∷ []

abbrev dec_byte : Bytes → ℕ × Bytes
dec_byte [] = (0, [])
dec_byte (n ∷ b) = (n, b)

abbrev enc_bytes : Bytes → Bytes
enc_bytes = enc_list enc_byte dec_byte

abbrev dec_bytes : Bytes → Bytes × Bytes
dec_bytes = dec_list enc_byte dec_byte

bytes_lem : (x b : Bytes) → dec_bytes (enc_bytes x ++ b) ≡ (x, b)
bytes_lem x b = dec_list-enc_list enc_byte dec_byte (λ x b. refl) x b

abbrev enc_bit : Bool → Bytes
enc_bit false = 0 ∷ []
enc_bit true = 1 ∷ []

abbrev bit : ℕ → Bool
bit zero = false
bit (suc n) = true

abbrev dec_bit : Bytes → Bool × Bytes
dec_bit [] = (false, [])
dec_bit (n ∷ b) = (bit n, b)

bit_lem : (x : Bool) (b : Bytes) → dec_bit (enc_bit x ++ b) ≡ (x, b)
bit_lem false b = refl
bit_lem true b = refl

abbrev enc_value : TrieValue → Bytes
enc_value (TrieValue.id i) = 0 ∷ enc_bytes i
enc_value (TrieValue.conflict v) = 1 ∷ enc_list enc_bytes dec_bytes v
enc_value TrieValue.set = 2 ∷ []

abbrev dec_value : Bytes → TrieValue × Bytes
dec_value [] = (TrieValue.set, [])
dec_value (zero ∷ b) = let (i, b') = dec_bytes b in (TrieValue.id i, b')
dec_value (suc zero ∷ b) =
    let (v, b') = dec_list enc_bytes dec_bytes b in (TrieValue.conflict v, b')
dec_value (suc (suc n) ∷ b) = (TrieValue.set, b)

value_lem : (x : TrieValue) (b : Bytes) → dec_value (enc_value x ++ b) ≡ (x, b)
value_lem (TrieValue.id i) b = rw (bytes_lem i b)
value_lem (TrieValue.conflict v) b = rw (dec_list-enc_list enc_bytes dec_bytes bytes_lem v b)
value_lem TrieValue.set b = refl

abbrev enc_slot : Slot → Bytes
enc_slot (Slot.leaf k v) = 0 ∷ (enc_bytes k ++ enc_value v)
enc_slot (Slot.node i) = 1 ∷ enc_bytes i

abbrev dec_slot : Bytes → Slot × Bytes
dec_slot [] = (Slot.node [], [])
dec_slot (zero ∷ b) =
    let (k, b') = dec_bytes b in let (v, b'') = dec_value b' in (Slot.leaf k v, b'')
dec_slot (suc n ∷ b) = let (i, b') = dec_bytes b in (Slot.node i, b')

slot_lem : (x : Slot) (b : Bytes) → dec_slot (enc_slot x ++ b) ≡ (x, b)
slot_lem (Slot.leaf k v) b =
    ap (λ l. dec_slot (0 ∷ l)) (append_assoc (enc_bytes k) (enc_value v) b)
    ∙ rw (bytes_lem k (enc_value v ++ b), value_lem v b)
slot_lem (Slot.node i) b = rw (bytes_lem i b)

abbrev encode : TrieNode → Bytes
encode t = enc_list enc_bit dec_bit t.bitmap ++ enc_list enc_slot dec_slot t.slots

abbrev decode : Bytes → Result TrieNode
decode b =
    let (bitmap, b') = dec_list enc_bit dec_bit b in
    let (slots, b'') = dec_list enc_slot dec_slot b' in
    ok (record { bitmap = bitmap; slots = slots })

abbrev pub codec : Codec TrieNode
codec = record { tag = codes "trie-node"; encode = encode; decode = decode }

slots_lem : (x : List Slot) → dec_list enc_slot dec_slot (enc_list enc_slot dec_slot x) ≡ (x, [])
slots_lem x =
    ap (dec_list enc_slot dec_slot) (sym (append-nil (enc_list enc_slot dec_slot x)))
    ∙ dec_list-enc_list enc_slot dec_slot slot_lem x []

pub decode-encode : (t : TrieNode) → decode (encode t) ≡ ok t
decode-encode t = rw (
  dec_list-enc_list enc_bit dec_bit bit_lem t.bitmap (enc_list enc_slot dec_slot t.slots),
  slots_lem t.slots,
)

pub codec-IsTag : IsTag (codes "trie-node")
codec-IsTag = omega arith
