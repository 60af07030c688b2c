-- ===== src/Storage/Pack.antt =====
-- crates/tessra-store/src/pack.rs: the pack format. BLAKE3 is a parameter; a writer is the list of the
-- bytes written, and a reader the bytes that are left.
pub mod Varint
pub mod RoundTrip
pub mod Termination
pub mod Contents
pub mod Importing
pub mod Runs
use tessra.Prelude.{
  ℕ, zero, suc, ◌+◌, ◌-◌, ◌*◌, ◌/◌, ◌%◌, ◌^◌, ltb, leb, ◌==◌, Bool, true, false, ◌&&◌, ◌||◌, not,
  List, [], ◌∷◌, ◌++◌, Bytes, codes, length, take, drop, eqb, Option, none, some, if◌then◌else◌,
  list_ord, nat_ord,
}
use tessra.Core.Result.{Result, ok, err, ◌>>=◌, Error}
use tessra.Core.Id.{ObjectId}
use tessra.Core.Hash.{object_id}
use tessra.Core.Store.{MemoryStore, put_bytes}

abbrev pub magic : Bytes
magic = codes "GVPK"

abbrev pub version : ℕ
version = 1

pub record Record : Type 0 where
  pub id : ObjectId
  pub tag : Bytes
  pub bytes : Bytes

-- The loop of `write_varint`, on fuel: ten rounds write every u64.
unfoldable pub write_varint_loop : ℕ → ℕ → Bytes
write_varint_loop zero n = []
write_varint_loop (suc rounds) n =
    let rest = write_varint_loop rounds (n / 128) in
    if n / 128 == 0 then (n % 128) ∷ [] else (n % 128 + 128) ∷ rest

unfoldable pub write_varint : ℕ → Bytes
unfolding write_varint_loop
write_varint n = write_varint_loop 10 n

-- The loop of `read_varint`. The bits of `n` are below `shift`, so that `|=` adds; a shift drops what
-- passes 64 bits.
unfoldable pub read_varint_loop : ℕ → ℕ → Bytes → Result (ℕ × Bytes)
read_varint_loop n shift [] = err Error.io
read_varint_loop n shift (b ∷ r) =
    let n' = n + b % 128 * 2 ^ shift % 2 ^ 64 in
    let rest = read_varint_loop n' (shift + 7) r in
    if b / 128 % 2 == 0 then ok (n', r) else if ltb 63 (shift + 7) then err Error.io else rest

unfoldable pub read_varint : Bytes → Result (ℕ × Bytes)
unfolding read_varint_loop
read_varint r = read_varint_loop 0 0 r

-- `read_exact` on a slice.
unfoldable pub read_exact : ℕ → Bytes → Result (Bytes × Bytes)
read_exact zero r = ok ([], r)
read_exact (suc n) [] = err Error.io
read_exact (suc n) (b ∷ r) = read_exact n r >>= λ (bs, rest). ok (b ∷ bs, rest)

-- The range of most bytes after the first one of a character.
abbrev pub tail : ℕ × ℕ
tail = (128, 191)

-- `String::from_utf8`: the ranges of the bytes that a first byte asks for after it.
unfoldable pub continuation : ℕ → Option (List (ℕ × ℕ))
continuation b =
    if ltb b 128
    then some []
    else if leb 194 b && leb b 223
    then some (tail ∷ [])
    else if b == 224
    then some ((160, 191) ∷ tail ∷ [])
    else if b == 237
    then some ((128, 159) ∷ tail ∷ [])
    else if leb 225 b && leb b 239
    then some (tail ∷ tail ∷ [])
    else if b == 240
    then some ((144, 191) ∷ tail ∷ tail ∷ [])
    else if leb 241 b && leb b 243
    then some (tail ∷ tail ∷ tail ∷ [])
    else if b == 244
    then some ((128, 143) ∷ tail ∷ tail ∷ [])
    else none

unfoldable pub is_utf8_after : List (ℕ × ℕ) → Bytes → Bool
unfolding continuation
is_utf8_after [] [] = true
is_utf8_after (range ∷ ranges) [] = false
is_utf8_after [] (b ∷ bs) = elim (continuation b) [
  | none ↦ false
  | some ranges ↦ is_utf8_after ranges bs
]
is_utf8_after ((low, high) ∷ ranges) (b ∷ bs) = leb low b && leb b high && is_utf8_after ranges bs

unfoldable pub is_utf8 : Bytes → Bool
unfolding is_utf8_after
is_utf8 bs = is_utf8_after [] bs

unfoldable pub write_record : Record → Bytes
unfolding write_varint
write_record r =
    r.id ++ (write_varint (length r.tag) ++ (r.tag ++ (write_varint (length r.bytes) ++ r.bytes)))

unfoldable pub write_records : List Record → Bytes
unfolding write_record
write_records [] = []
write_records (r ∷ rs) = write_record r ++ write_records rs

-- What is hashed: `body` of `write`.
unfoldable pub write_body : List Record → Bytes
unfolding write_records
write_body rs = magic ++ (version ∷ write_records rs)

module _ (blake3 : Bytes → Bytes) where
  unfoldable pub write : List Record → Bytes
  unfolding write_body
  write records = write_body records ++ blake3 (write_body records)

  -- The checks on a record that was read.
  unfoldable pub check_record : ObjectId → Bytes → Bytes → Bytes → Result (Record × Bytes)
  check_record id tag stored rest =
      if eqb (object_id blake3 tag stored) id
      then ok (record { id = id; tag = tag; bytes = stored }, rest)
      else err Error.pack

  unfoldable pub check_tag : Bytes → Result Bytes
  unfolding is_utf8
  check_tag tag = if is_utf8 tag then ok tag else err Error.pack

  -- One round of the loop of `read`.
  unfoldable pub read_record : Bytes → Result (Record × Bytes)
  unfolding read_exact read_varint check_tag check_record
  read_record cur = read_exact 32 cur >>= λ (id, cur1). read_varint cur1 >>= λ (tag_len, cur2).
      read_exact tag_len cur2 >>= λ (raw, cur3). check_tag raw >>= λ tag.
      read_varint cur3 >>= λ (len, cur4).
      read_exact len cur4 >>= λ (stored, cur5). check_record id tag stored cur5

  -- The loop of `read`, on fuel: a round takes at least the 32 bytes of an ID.
  unfoldable pub read_records : ℕ → Bytes → Result (List Record)
  unfolding read_record
  read_records fuel [] = ok []
  read_records zero (b ∷ cur) = err Error.stuck
  read_records (suc fuel) (b ∷ cur) =
      read_record (b ∷ cur) >>= λ (r, rest). read_records fuel rest >>= λ rs. ok (r ∷ rs)

  unfoldable pub read_body : Bytes → Bytes → Result (List Record)
  unfolding read_records
  read_body body trailer =
      if not (eqb (blake3 body) trailer)
      then err Error.pack
      else if not (eqb (take 5 body) (magic ++ version ∷ []))
      then err Error.pack
      else read_records (length body) (drop 5 body)

  unfoldable pub read : Bytes → Result (List Record)
  unfolding read_body
  read bytes =
      if ltb (length bytes) (4 + 1 + 32)
      then err Error.pack
      else read_body (take (length bytes - 32) bytes) (drop (length bytes - 32) bytes)

  unfoldable pub put_records : MemoryStore → List Record → MemoryStore
  unfolding put_bytes
  put_records s [] = s
  put_records s (r ∷ rs) = put_records (put_bytes blake3 s r.tag r.bytes).1 rs

  unfoldable pub import : MemoryStore → Bytes → Result (ℕ × MemoryStore)
  unfolding read put_records
  import s bytes = read bytes >>= λ records. ok (length records, put_records s records)
