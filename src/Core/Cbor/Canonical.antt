-- ===== src/Core/Cbor/Canonical.antt =====
-- Canonical form: it is reached in one step, and `decode` accepts nothing else.
use tessra.Prelude.{
  ℕ, ◌≡◌, ◌≢◌, refl, sym, ap, ◌∙◌, subst, arith, false, List, [], ◌∷◌, Bytes, All, eqb, eqb_iff,
  ordering, list_ord, nat_ord, sort_by, Bool-cases, inl, inr, sort_by-All, sort_by-of_ascending,
  sort_by-IsAscending,
}
use Prim.Native.Nat.Ordering.{gt}
use tessra.Core.Result.{ok, ◌>>=◌, >>=-eq-ok, ok-injective}
use tessra.Core.Value.{Value, Values, Entries}
use tessra.Core.Cbor.{
  Ciborium, Object, Keyed, by_bytes, has_duplicate, unkeyed, map_of, canonicalize, canonicalize_all,
  keyed, canonical_bytes, read_canonical, require_bytes, decode,
}

swap_cmp : (a b : Bytes) → ordering a b ≡ gt → ordering b a ≢ gt
swap_cmp a b h = λ k. ground (arith, (list_ord {A = ℕ}).cmp_swap a b)

trans_cmp : (a b c : Bytes) → ordering a b ≢ gt → ordering b c ≢ gt → ordering a c ≢ gt
trans_cmp a b c h k = ground (
  arith,
  (list_ord {A = ℕ}).cmp_iff a b,
  (list_ord {A = ℕ}).cmp_iff b c,
  (list_ord {A = ℕ}).cmp_trans a b c,
)

pub by_bytes-swap : (a b : Keyed) → by_bytes a b ≡ gt → by_bytes b a ≢ gt
by_bytes-swap a b h = swap_cmp a.bytes b.bytes h

pub by_bytes_trans : (a b c : Keyed) → by_bytes a b ≢ gt → by_bytes b c ≢ gt → by_bytes a c ≢ gt
by_bytes_trans a b c h k = trans_cmp a.bytes b.bytes c.bytes h k

-- Sorting by key twice is sorting once.
sort_by_idem : (ks : List Keyed) → sort_by by_bytes (sort_by by_bytes ks) ≡ sort_by by_bytes ks
sort_by_idem ks =
    sort_by-of_ascending by_bytes (sort_by by_bytes ks)
      (sort_by-IsAscending by_bytes by_bytes-swap by_bytes_trans ks)

pub map_of-ok :
    (ks : List Keyed) (w : Value)
    → map_of ks ≡ ok w
    → (w ≡ Value.map (unkeyed ks)) × (has_duplicate ks ≡ false)
unfolding map_of
map_of-ok ks w e = elim (Bool-cases (has_duplicate ks)) [
  | inl twice ↦ absurd (cc (rw twice at e))
  | inr once ↦ (sym (ok-injective (rw once at e)), once)
]

module _ (c : Ciborium) where
  -- An entry whose key and value are canonical, with the bytes of the key.
  abbrev pub IsSettled : Keyed → Type 0
  IsSettled a =
      (canonicalize c a.key ≡ ok a.key)
      × (canonicalize c a.value ≡ ok a.value)
      × (c.write a.key ≡ ok a.bytes)

  keyed-unkeyed : (ks : List Keyed) → All IsSettled ks → keyed c (unkeyed ks) ≡ ok ks
  unfolding keyed unkeyed
  keyed-unkeyed [] h = refl
  keyed-unkeyed (a ∷ ks) (h, hs) = rw (h.0, h.1, h.2, keyed-unkeyed ks hs) refl

  map-canonical :
      (ks : List Keyed) (w : Value)
      → All IsSettled ks
      → map_of (sort_by by_bytes ks) ≡ ok w
      → canonicalize c w ≡ ok w
  map-canonical ks w h e =
      let (same, once) = map_of-ok (sort_by by_bytes ks) w e in
      rw same (
        settled (sort_by by_bytes ks) (sort_by-All by_bytes IsSettled ks h)
          (ap map_of (sort_by_idem ks) ∙ e ∙ ap ok same))
    where
      settled :
          (ks : List Keyed)
          → All IsSettled ks
          → map_of (sort_by by_bytes ks) ≡ ok (Value.map (unkeyed ks))
          → canonicalize c (Value.map (unkeyed ks)) ≡ ok (Value.map (unkeyed ks))
      settled ks h e = unfold canonicalize in rw (keyed-unkeyed ks h) e

  mutual
    unfolding canonicalize canonicalize_all keyed

    canonicalize_idem' : (v w : Value) → canonicalize c v ≡ ok w → canonicalize c w ≡ ok w
    canonicalize_idem' (Value.map es) w e =
        let (ks, k, e1) = >>=-eq-ok (keyed c es) (λ ks. map_of (sort_by by_bytes ks)) e in
        map-canonical ks w (keyed-IsSettled es ks k) e1
    canonicalize_idem' (Value.array vs) w e =
        let (ws, k, e1) = >>=-eq-ok (canonicalize_all c vs) (λ ws. ok (Value.array ws)) e in
        subst (λ x. canonicalize c x ≡ ok x) (ok-injective e1)
          (rw (canonicalize_all_idem vs ws k) refl)
    canonicalize_idem' (Value.float f) w e = cc
    canonicalize_idem' (Value.tag n v) w e = cc
    canonicalize_idem' (Value.integer n) w e =
        subst (λ x. canonicalize c x ≡ ok x) (ok-injective e) refl
    canonicalize_idem' (Value.negative n) w e =
        subst (λ x. canonicalize c x ≡ ok x) (ok-injective e) refl
    canonicalize_idem' (Value.bytes b) w e =
        subst (λ x. canonicalize c x ≡ ok x) (ok-injective e) refl
    canonicalize_idem' (Value.text t) w e =
        subst (λ x. canonicalize c x ≡ ok x) (ok-injective e) refl
    canonicalize_idem' (Value.boolean b) w e =
        subst (λ x. canonicalize c x ≡ ok x) (ok-injective e) refl
    canonicalize_idem' Value.null w e = subst (λ x. canonicalize c x ≡ ok x) (ok-injective e) refl

    canonicalize_all_idem :
        (vs ws : Values) → canonicalize_all c vs ≡ ok ws → canonicalize_all c ws ≡ ok ws
    canonicalize_all_idem Values.nothing ws e =
        subst (λ x. canonicalize_all c x ≡ ok x) (ok-injective e) refl
    canonicalize_all_idem (Values.item v vs) ws e =
        let (w, k, e1) =
          >>=-eq-ok (canonicalize c v) (λ w. canonicalize_all c vs >>= λ ws. ok (Values.item w ws))
            e in
        let (us, j, e2) = >>=-eq-ok (canonicalize_all c vs) (λ ws. ok (Values.item w ws)) e1 in
        subst (λ x. canonicalize_all c x ≡ ok x) (ok-injective e2)
          (rw (canonicalize_idem' v w k, canonicalize_all_idem vs us j) refl)

    keyed-IsSettled : (es : Entries) (ks : List Keyed) → keyed c es ≡ ok ks → All IsSettled ks
    keyed-IsSettled Entries.no_entry ks e = subst (λ l. All IsSettled l) (ok-injective e) tt
    keyed-IsSettled (Entries.entry k v es) ks e =
        let (k', a, e1) = >>=-eq-ok (canonicalize c k) _ e in
        let (v', b, e2) = >>=-eq-ok (canonicalize c v) _ e1 in
        let (kb, d, e3) = >>=-eq-ok (c.write k') _ e2 in
        let (rest, f, e4) = >>=-eq-ok (keyed c es) _ e3 in
        subst (λ l. All IsSettled l) (ok-injective e4)
          ((canonicalize_idem' k k' a, canonicalize_idem' v v' b, d), keyed-IsSettled es rest f)

  -- The canonical form of a value is its own canonical form.
  pub canonicalize_idem : (v w : Value) → canonicalize c v ≡ ok w → canonicalize c w ≡ ok w
  canonicalize_idem v w e = canonicalize_idem' v w e

  IsSettled-entries : (es : Entries) (ks : List Keyed) → keyed c es ≡ ok ks → All IsSettled ks
  IsSettled-entries es ks e = keyed-IsSettled es ks e

  -- The library reads back what it wrote.
  abbrev pub ReadsBack : Type 0
  ReadsBack = (v : Value) (b : Bytes) → c.write v ≡ ok b → c.read b ≡ ok v

  require_bytes-ok : (a b : Bytes) → require_bytes a b ≡ ok tt → a ≡ b
  unfolding require_bytes
  require_bytes-ok a b e = elim (Bool-cases (eqb a b)) [
    | inl same ↦ (eqb_iff a b).0 same
    | inr other ↦ absurd (cc (rw other at e))
  ]

  read_canonical-ok :
      (bytes : Bytes) (v : Value)
      → ReadsBack
      → read_canonical c bytes ≡ ok v
      → (c.read bytes ≡ ok v) × (canonicalize c v ≡ ok v) × (c.write v ≡ ok bytes)
  unfolding read_canonical canonical_bytes
  read_canonical-ok bytes v back e =
      let (u, r, e1) = >>=-eq-ok (c.read bytes) _ e in
      let (b, k, e2) = >>=-eq-ok (canonical_bytes c u) _ e1 in
      let (t, h, e3) = >>=-eq-ok (require_bytes b bytes) _ e2 in
      let (w, m, n) = >>=-eq-ok (canonicalize c u) _ k in
      let wrote : c.write w ≡ ok bytes = n ∙ ap ok (require_bytes-ok b bytes h) in
      let same : w ≡ v = ok-injective (sym (back w bytes wrote) ∙ r ∙ e3) in
      (
        r ∙ e3,
        subst (λ x. canonicalize c x ≡ ok x) same (canonicalize_idem u w m),
        subst (λ x. c.write x ≡ ok bytes) same wrote,
      )

  -- Where the library reads back what it writes, `decode` accepts only bytes that are written for a
  -- value in canonical form, and no other bytes that it accepts read as that value.
  pub decode-canonical :
      {T : Type 0} (o : Object T) (a : Bytes) (x : T)
      → ReadsBack
      → decode c o a ≡ ok x
      → (v : Value) × (c.read a ≡ ok v)
        × (canonicalize c v ≡ ok v)
        × (c.write v ≡ ok a)
        × ((b : Bytes) (y : T) → decode c o b ≡ ok y → c.read b ≡ ok v → b ≡ a)
  unfolding decode
  decode-canonical o a x back e =
      let (v, r, e1) = >>=-eq-ok (read_canonical c a) _ e in
      let (at_a, is_form, wrote) = read_canonical-ok a v back r in
      (
        v,
        at_a,
        is_form,
        wrote,
        λ b y f same.
            let (u, q, f1) = >>=-eq-ok (read_canonical c b) _ f in
            let (at_b, form, wrote_b) = read_canonical-ok b u back q in
            let equal : u ≡ v = ok-injective (sym at_b ∙ same) in
            ok-injective (sym wrote_b ∙ ap c.write equal ∙ wrote),
      )
