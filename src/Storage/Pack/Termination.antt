-- ===== src/Storage/Pack/Termination.antt =====
-- The reader of packs ends: the length of the body is enough rounds for its loop.
use tessra.Prelude.{
  ℕ, zero, suc, ◌+◌, ◌≤◌, ◌<◌, ◌≡◌, ◌≢◌, refl, ap, arith, [], ◌∷◌, ◌++◌, Bytes, length, take, drop,
  eqb, ltb, ◌==◌, ◌%◌, ◌/◌, ◌*◌, ◌^◌, list_ord, nat_ord, Bool-cases, inl, inr,
}
use tessra.Core.Result.{Result, ok, err, ◌>>=◌, Error, ok-injective, >>=-eq-ok}
use tessra.Core.Id.{ObjectId}
use tessra.Core.Hash.{object_id}
use tessra.Storage.Pack.{
  Record, read_exact, read_varint, read_varint_loop, check_record, check_tag, is_utf8, read_record,
  read_records, read_body, read, magic, version,
}

-- The code's own result: the rounds did not run out.
abbrev pub Ends : {T : Type 0} → Result T → Type 0
Ends r = r ≢ err Error.stuck

>>=-Ends :
    {T U : Type 0} (r : Result T) (rest : T → Result U)
    → Ends r
    → ((t : T) → r ≡ ok t → Ends (rest t))
    → Ends (r >>= rest)
>>=-Ends (err x) rest h k = λ e. h (cc)
>>=-Ends (ok t) rest h k = k t refl

ok-Ends : {T : Type 0} (t : T) → Ends (ok t)
ok-Ends t e = cc

io-Ends : {T : Type 0} → Ends {T = T} (err Error.io)
io-Ends e = cc

pack-Ends : {T : Type 0} → Ends {T = T} (err Error.pack)
pack-Ends e = cc

read_exact-Ends : (n : ℕ) (cur : Bytes) → Ends (read_exact n cur)
unfolding read_exact
read_exact-Ends zero cur = ok-Ends _
read_exact-Ends (suc n) [] = io-Ends
read_exact-Ends (suc n) (b ∷ cur) =
    >>=-Ends (read_exact n cur) _ (read_exact-Ends n cur) (λ t e. ok-Ends _)

read_exact-size :
    (n : ℕ) (cur xs rest : Bytes) → read_exact n cur ≡ ok (xs, rest) → length cur ≡ n + length rest
unfolding read_exact
read_exact-size zero cur xs rest e =
    let same : cur ≡ rest = ap (λ p. p.1) (ok-injective e) in omega (arith, ap length same)
read_exact-size (suc n) [] xs rest e = absurd (cc)
read_exact-size (suc n) (b ∷ cur) xs rest e =
    let (t, e0, e1) = >>=-eq-ok (read_exact n cur) _ e in
    let same : t.1 ≡ rest = ap (λ p. p.1) (ok-injective e1) in
    omega (arith, read_exact-size n cur t.0 t.1 e0, ap length same)

read_varint_loop-Ends : (cur : Bytes) (n shift : ℕ) → Ends (read_varint_loop n shift cur)
unfolding read_varint_loop
read_varint_loop-Ends [] n shift = io-Ends
read_varint_loop-Ends (b ∷ cur) n shift = elim (Bool-cases (b / 128 % 2 == 0)) [
  | inl done ↦ rw (done) (ok-Ends _)
  | inr more ↦ elim (Bool-cases (ltb 63 (shift + 7))) [
    | inl long ↦ rw (more, long) io-Ends
    | inr fits ↦ rw (more, fits) (read_varint_loop-Ends cur _ (shift + 7))
  ]
]

read_varint_loop-size :
    (cur : Bytes) (n shift m : ℕ) (rest : Bytes)
    → read_varint_loop n shift cur ≡ ok (m, rest)
    → length rest ≤ length cur
unfolding read_varint_loop
read_varint_loop-size [] n shift m rest e = absurd (cc)
read_varint_loop-size (b ∷ cur) n shift m rest e =
    let n' = n + b % 128 * 2 ^ shift % 2 ^ 64 in
    elim (Bool-cases (b / 128 % 2 == 0)) [
      | inl done ↦
          let same : cur ≡ rest = ap (λ p. p.1) (ok-injective (rw (done) at e)) in
          omega (arith, ap length same)
      | inr more ↦ elim (Bool-cases (ltb 63 (shift + 7))) [
        | inl long ↦ absurd (cc (rw (more, long) at e))
        | inr fits ↦
            let onward = read_varint_loop-size cur n' (shift + 7) m rest (rw (more, fits) at e) in
            omega (arith, onward)
      ]
    ]

read_varint-Ends : (cur : Bytes) → Ends (read_varint cur)
unfolding read_varint
read_varint-Ends cur = read_varint_loop-Ends cur 0 0

read_varint-size :
    (cur : Bytes) (m : ℕ) (rest : Bytes) → read_varint cur ≡ ok (m, rest) → length rest ≤ length cur
unfolding read_varint
read_varint-size cur m rest e = read_varint_loop-size cur 0 0 m rest e

module _ (blake3 : Bytes → Bytes) where
  check_tag-Ends : (tag : Bytes) → Ends (check_tag blake3 tag)
  unfolding check_tag
  check_tag-Ends tag = elim (Bool-cases (is_utf8 tag)) [
    | inl passed ↦ rw (passed) (ok-Ends _)
    | inr failed ↦ rw (failed) pack-Ends
  ]

  check_record-Ends :
      (id : ObjectId) (tag bytes rest : Bytes) → Ends (check_record blake3 id tag bytes rest)
  unfolding check_record
  check_record-Ends id tag bytes rest = elim (Bool-cases (eqb (object_id blake3 tag bytes) id)) [
    | inl passed ↦ rw (passed) (ok-Ends _)
    | inr failed ↦ rw (failed) pack-Ends
  ]

  check_record-left :
      (id : ObjectId) (tag bytes rest : Bytes) (r : Record) (left : Bytes)
      → check_record blake3 id tag bytes rest ≡ ok (r, left)
      → rest ≡ left
  unfolding check_record
  check_record-left id tag bytes rest r left e =
      elim (Bool-cases (eqb (object_id blake3 tag bytes) id)) [
        | inl passed ↦ ap (λ p. p.1) (ok-injective (rw (passed) at e))
        | inr failed ↦ absurd (cc (rw (failed) at e))
      ]

  read_record-Ends : (cur : Bytes) → Ends (read_record blake3 cur)
  unfolding read_record
  read_record-Ends cur = >>=-Ends (read_exact 32 cur) _ (read_exact-Ends 32 cur) (λ t1 _.
      >>=-Ends (read_varint t1.1) _ (read_varint-Ends t1.1) (λ t2 _.
        >>=-Ends (read_exact t2.0 t2.1) _ (read_exact-Ends t2.0 t2.1) (λ t3 _.
          >>=-Ends (check_tag blake3 t3.0) _ (check_tag-Ends t3.0) (λ t4 _.
            >>=-Ends (read_varint t3.1) _ (read_varint-Ends t3.1) (λ t5 _.
              >>=-Ends (read_exact t5.0 t5.1) _ (read_exact-Ends t5.0 t5.1)
                (λ t6 _. check_record-Ends t1.0 t4 t6.0 t6.1))))))

  read_record-size :
      (cur : Bytes) (r : Record) (left : Bytes)
      → read_record blake3 cur ≡ ok (r, left)
      → length left < length cur
  unfolding read_record
  read_record-size cur r left e =
      let (t1, s1, e1) = >>=-eq-ok (read_exact 32 cur) _ e in
      let (t2, s2, e2) = >>=-eq-ok (read_varint t1.1) _ e1 in
      let (t3, s3, e3) = >>=-eq-ok (read_exact t2.0 t2.1) _ e2 in
      let (t4, _, e4) = >>=-eq-ok (check_tag blake3 t3.0) _ e3 in
      let (t5, s5, e5) = >>=-eq-ok (read_varint t3.1) _ e4 in
      let (t6, s6, e6) = >>=-eq-ok (read_exact t5.0 t5.1) _ e5 in
      omega (
        arith,
        read_exact-size 32 cur t1.0 t1.1 s1,
        read_varint-size t1.1 t2.0 t2.1 s2,
        read_exact-size t2.0 t2.1 t3.0 t3.1 s3,
        read_varint-size t3.1 t5.0 t5.1 s5,
        read_exact-size t5.0 t5.1 t6.0 t6.1 s6,
        ap length (check_record-left t1.0 t4 t6.0 t6.1 r left e6),
      )

  read_records-Ends :
      (fuel : ℕ) (cur : Bytes) → length cur ≤ fuel → Ends (read_records blake3 fuel cur)
  unfolding read_records
  read_records-Ends fuel [] h = ok-Ends _
  read_records-Ends zero (b ∷ cur) h = absurd (omega arith)
  read_records-Ends (suc fuel) (b ∷ cur) h =
      >>=-Ends (read_record blake3 (b ∷ cur)) _ (read_record-Ends (b ∷ cur)) (λ t e.
        >>=-Ends (read_records blake3 fuel t.1) _
          (read_records-Ends fuel t.1 (omega (arith, read_record-size (b ∷ cur) t.0 t.1 e)))
          (λ ts _. ok-Ends _))

  length-drop : (n : ℕ) (xs : Bytes) → length (drop n xs) ≤ length xs
  length-drop zero xs = omega arith
  length-drop (suc n) [] = omega arith
  length-drop (suc n) (x ∷ xs) = omega (arith, length-drop n xs)

  read_body-Ends : (body trailer : Bytes) → Ends (read_body blake3 body trailer)
  unfolding read_body
  read_body-Ends body trailer = elim (Bool-cases (eqb (blake3 body) trailer)) [
    | inr other ↦ rw (other) pack-Ends
    | inl same ↦ elim (Bool-cases (eqb (take 5 body) (magic ++ version ∷ []))) [
      | inr other ↦ rw (same, other) pack-Ends
      | inl known ↦
          rw (same, known) (read_records-Ends (length body) (drop 5 body) (length-drop 5 body))
    ]
  ]

  -- `read` ends on any bytes: the rounds of its loop do not run out.
  pub read-Ends : (bytes : Bytes) → read blake3 bytes ≢ err Error.stuck
  unfolding read
  read-Ends bytes = elim (Bool-cases (ltb (length bytes) 37)) [
    | inl short ↦ rw (short) pack-Ends
    | inr long ↦ rw (long) (read_body-Ends _ _)
  ]
