-- ===== src/Storage/Redb/Heads.antt =====
-- The heads that are kept in one value of the database.
use tessra.Prelude.{
  ℕ, zero, suc, ◌≡◌, refl, ap, ◌∙◌, arith, List, [], ◌∷◌, ◌++◌, Bytes, codes, All, length, eqb_refl,
  append_assoc, list_ord, nat_ord,
}
use tessra.Core.Id.{ObjectId}
use tessra.Core.Id.Slices.{object_from_slice-ok}
use tessra.Storage.Redb.Tables.{Table, Database}
use tessra.Storage.Redb.{RedbStore, chunks, ids_of, joined_ids, heads, set_heads}

chunks-append :
    (acc bs rest : Bytes) (room : ℕ)
    → length bs ≡ suc room
    → chunks acc room (bs ++ rest) ≡ (acc ++ bs) ∷ chunks [] 31 rest
unfolding chunks
chunks-append acc [] rest room h = cc
chunks-append acc (b ∷ []) rest zero h = refl
chunks-append acc (b ∷ c ∷ bs) rest zero h = absurd (omega arith)
chunks-append acc (b ∷ bs) rest (suc room) h =
    chunks-append (acc ++ (b ∷ [])) bs rest room (omega arith)
    ∙ ap (λ x. x ∷ chunks [] 31 rest) (append_assoc acc (b ∷ []) bs)

ids_of-chunks :
    (hs : List ObjectId) → All (λ h. length h ≡ 32) hs → ids_of (chunks [] 31 (joined_ids hs)) ≡ hs
unfolding ids_of joined_ids chunks
ids_of-chunks [] all = refl
ids_of-chunks (h ∷ hs) (size, all) =
    ap ids_of (chunks-append [] h (joined_ids hs) 31 size)
    ∙ rw (object_from_slice-ok h size) (ap (λ l. h ∷ l) (ids_of-chunks hs all))

-- Heads that are kept are read back in order, where each has 32 bytes.
pub heads-set_heads :
    (lossy : Bytes → Bytes) (d : Database) (s : RedbStore d) (hs : List ObjectId)
    → All (λ h. length h ≡ 32) hs
    → heads lossy d (set_heads lossy d s hs) ≡ hs
unfolding heads set_heads
heads-set_heads lossy d s hs all =
    rw
      (
        d.get_insert s.db Table.meta (codes "heads") (joined_ids hs) (codes "heads"),
        eqb_refl (codes "heads"),
      )
      (ids_of-chunks hs all)
