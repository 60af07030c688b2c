-- ===== src/Core/Hash/Domains.antt =====
-- Domain separation, and that the streaming hasher is the one-shot hash.
use tessra.Prelude.{ℕ, ◌≡◌, ◌≢◌, refl, sym, ap, ◌∙◌, List, [], ◌∷◌, ◌++◌, Bytes, codes, All}
use tessra.Prelude.{append_assoc, append-nil}
use tessra.Core.Hash.{object_id, DomainHasher, hasher_new, hasher_update, hasher_finalize}
use mathlib.Core.List.{foldl}

abbrev pub newline : ℕ
newline = 10

-- A tag that holds no newline.
abbrev pub IsTag : Bytes → Type 0
IsTag t = All (λ c. c ≢ newline) t

abbrev pub IsInjective : (Bytes → Bytes) → Type 0
IsInjective f = (a b : Bytes) → f a ≡ f b → a ≡ b

split_at_newline :
    (t t' b b' : Bytes)
    → IsTag t
    → IsTag t'
    → t ++ newline ∷ b ≡ t' ++ newline ∷ b'
    → (t ≡ t') × (b ≡ b')
split_at_newline [] [] b b' h h' e = (refl, cc)
split_at_newline [] (c ∷ t') b b' h (hc, h') e = absurd (hc (cc))
split_at_newline (c ∷ t) [] b b' (hc, h) h' e = absurd (hc (cc))
split_at_newline (c ∷ t) (c' ∷ t') b b' (hc, h) (hc', h') e =
    let (same, rest) = split_at_newline t t' b b' h h' (cc) in (cc, rest)

-- Where the hash has no collision, objects of different types, or with different bytes, have
-- different IDs. A tag holds no newline.
pub object_id-injective :
    (blake3 : Bytes → Bytes) (t t' b b' : Bytes)
    → IsInjective blake3
    → IsTag t
    → IsTag t'
    → object_id blake3 t b ≡ object_id blake3 t' b'
    → (t ≡ t') × (b ≡ b')
unfolding object_id
object_id-injective blake3 t t' b b' inj h h' e =
    let whole = inj _ _ e in split_at_newline t t' b b' h h' (cc)

fed-foldl :
    (pieces : List Bytes) (h : DomainHasher)
    → (foldl hasher_update h pieces).fed ≡ foldl ◌++◌ h.fed pieces
unfolding hasher_update
fed-foldl [] h = refl
fed-foldl (p ∷ pieces) h = fed-foldl pieces (hasher_update h p)

foldl-append_front :
    (front rest : Bytes) (pieces : List Bytes)
    → foldl ◌++◌ (front ++ rest) pieces ≡ front ++ foldl ◌++◌ rest pieces
foldl-append_front front rest [] = refl
foldl-append_front front rest (p ∷ pieces) =
    rw (append_assoc front rest p) (foldl-append_front front (rest ++ p) pieces)

-- Feeding the pieces of a text one by one gives the ID of the whole text.
hasher_stream :
    (blake3 : Bytes → Bytes) (tag : Bytes) (pieces : List Bytes)
    → hasher_finalize blake3 (foldl hasher_update (hasher_new tag) pieces)
      ≡ object_id blake3 tag (foldl ◌++◌ [] pieces)
unfolding object_id hasher_new hasher_finalize
hasher_stream blake3 tag pieces = ap blake3 (
    fed-foldl pieces (hasher_new tag)
    ∙ ap (λ l. foldl ◌++◌ l pieces) (sym (append-nil prefix))
    ∙ foldl-append_front prefix [] pieces
    ∙ ap (λ l. codes "tessra:" ++ l) (append_assoc tag (codes "\n") (foldl ◌++◌ [] pieces)))
  where
    prefix : Bytes
    prefix = codes "tessra:" ++ (tag ++ codes "\n")
