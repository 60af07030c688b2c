-- ===== src/Core/Store/Runs.antt =====
-- The store at concrete objects.
use tessra.Prelude.{
  ℕ, ap, ◌≡◌, ◌≢◌, arith, [], ◌∷◌, Bytes, codes, none, some, if◌then◌else◌, eqb, list_ord, nat_ord,
}
use tessra.Prelude.{lookup}
use tessra.Core.Result.{ok}
use tessra.Core.Hash.{object_id}
use tessra.Core.Hash.Domains.{IsTag, IsInjective}
use tessra.Core.Store.{Codec, put_object, get_object}
use tessra.Core.Store.Laws.{IsAddressed, get-put}

-- The identity stands for a hash without collisions, and a blob is its own encoding.
abbrev plain_hash : Bytes → Bytes
plain_hash b = b

plain_hash-IsInjective : IsInjective plain_hash
plain_hash-IsInjective a b e = e

abbrev blob_codec : Codec Bytes
blob_codec = record { tag = codes "blob"; encode = λ b. b; decode = λ b. ok b }

blob-IsTag : IsTag (codes "blob")
blob-IsTag = omega arith

tree-IsTag : IsTag (codes "tree")
tree-IsTag = omega arith

none-some : {b : Bytes} → none ≡ some b → ⊥
none-some e = cc

nothing_stored : IsAddressed plain_hash []
unfolding lookup
nothing_stored id b e = absurd (none-some e)

abbrev hello : Bytes
hello = codes "hello"

get-put_example :
    get_object plain_hash blob_codec (put_object plain_hash blob_codec [] hello).1 (codes "x") ≡ (
      if eqb (object_id plain_hash (codes "blob") hello) (codes "x")
      then ok hello
      else get_object plain_hash blob_codec [] (codes "x"))
get-put_example =
    get-put plain_hash plain_hash-IsInjective blob_codec blob-IsTag [] hello (codes "x")
      nothing_stored

abbrev first : Bytes → ℕ
first [] = 0
first (b ∷ bs) = b

letters_apart : ◌≢◌ {A = ℕ} b't' b'b'
letters_apart e = omega arith

apart : codes "tree" ≢ codes "blob"
apart e = letters_apart (ap first e)
