-- ===== src/Core/Cbor/RoundTrip.antt =====
-- An object is decoded from its encoding.
use tessra.Prelude.{
  ◌<◌, ◌^◌, ltb, ◌≡◌, refl, sym, ap, ◌∙◌, subst, arith, Bool, true, false, List, [], ◌∷◌, ◌++◌,
  Bytes, codes, All, All-append, All-imp, none, some, filter, eqb, eqb_refl, list_ord, nat_ord,
  sort_by, insert_sorted, append-nil, sort_by-All, filter-sort_by,
}
use tessra.Core.Result.{ok, >>=-eq-ok, ok-injective}
use tessra.Core.Value.{Value, Entries}
use tessra.Core.Hash.{object_id}
use tessra.Core.Cbor.{
  Ciborium, Object, Encoded, Keyed, Field, Opened, by_bytes, unkeyed, map_of, push_entry, field,
  as_u64, open_entries, entries_of, entries_to_encode, require_tag, require_version, require_bytes,
  canonicalize, keyed, canonical_bytes, read_canonical, envelope, encode, open_object, decode,
}
use tessra.Core.Cbor.Canonical.{
  by_bytes-swap, by_bytes_trans, map_of-ok, canonicalize_idem, ReadsBack,
}
use tessra.Core.Cbor.Envelope.{
  kind, is_own, is_tag_entry, is_version_entry, is_fine, own, tag_after, version_after, opened,
  open_entries-unkeyed, tag_after-filter, version_after-filter,
}

filter_none : (p : Keyed → Bool) (ks : List Keyed) → All (λ a. p a ≡ false) ks → filter p ks ≡ []
unfolding filter
filter_none p [] h = refl
filter_none p (a ∷ ks) (h, hs) = rw h (filter_none p ks hs)

filter-All : (p : Keyed → Bool) (ks : List Keyed) → All (λ a. p a ≡ true) ks → filter p ks ≡ ks
unfolding filter
filter-All p [] h = refl
filter-All p (a ∷ ks) (h, hs) = rw h (ap (λ l. a ∷ l) (filter-All p ks hs))

filter-append :
    (p : Keyed → Bool) (xs ys : List Keyed) → filter p (xs ++ ys) ≡ filter p xs ++ filter p ys
unfolding filter
filter-append p [] ys = refl
filter-append p (x ∷ xs) ys = ground (arith, filter-append p xs ys)

own-not_tag : (f : Field) → is_own f ≡ true → is_tag_entry f ≡ false
own-not_tag (Field.is_tag t) h = cc
own-not_tag (Field.is_version r) h = refl
own-not_tag Field.is_other h = refl

own-not_version : (f : Field) → is_own f ≡ true → is_version_entry f ≡ false
own-not_version (Field.is_tag t) h = refl
own-not_version (Field.is_version r) h = cc
own-not_version Field.is_other h = refl

own-fine : (f : Field) → is_own f ≡ true → is_fine f ≡ true
own-fine (Field.is_tag t) h = cc
own-fine (Field.is_version r) h = cc
own-fine Field.is_other h = refl

module _ (c : Ciborium) {T : Type 0} (o : Object T) where
  keyed-entry :
      (j w j' w' : Value) (jb : Bytes) (es : Entries) (ks : List Keyed)
      → canonicalize c j ≡ ok j'
      → canonicalize c w ≡ ok w'
      → c.write j' ≡ ok jb
      → keyed c es ≡ ok ks
      → keyed c (Entries.entry j w es) ≡ ok (record { bytes = jb; key = j'; value = w' } ∷ ks)
  unfolding keyed
  keyed-entry j w j' w' jb es ks a b d g = rw (a, b, d, g) refl

  keyed-push :
      (es : Entries) (k v : Value) (all : List Keyed)
      → canonicalize c k ≡ ok k
      → canonicalize c v ≡ ok v
      → keyed c (push_entry k v es) ≡ ok all
      → (ks : List Keyed) × (kb : Bytes) × (keyed c es ≡ ok ks)
        × (all ≡ ks ++ record { bytes = kb; key = k; value = v } ∷ [])
  unfolding keyed push_entry
  keyed-push Entries.no_entry k v all hk hv e =
      let (k', a, e1) = >>=-eq-ok (canonicalize c k) _ e in
      let (v', b, e2) = >>=-eq-ok (canonicalize c v) _ e1 in
      let (kb, d, e3) = >>=-eq-ok (c.write k') _ e2 in
      let same_key : k' ≡ k = ok-injective (sym a ∙ hk) in
      let same_value : v' ≡ v = ok-injective (sym b ∙ hv) in
      (
        [],
        kb,
        refl,
        sym (ok-injective e3)
            ∙ ap (λ x. record { bytes = kb; key = x; value = v' } ∷ []) same_key
            ∙ ap (λ x. record { bytes = kb; key = k; value = x } ∷ []) same_value,
      )
  keyed-push (Entries.entry j w es) k v all hk hv e =
      let (j', a, e1) = >>=-eq-ok (canonicalize c j) _ e in
      let (w', b, e2) = >>=-eq-ok (canonicalize c w) _ e1 in
      let (jb, d, e3) = >>=-eq-ok (c.write j') _ e2 in
      let (rest, f, e4) = >>=-eq-ok (keyed c (push_entry k v es)) _ e3 in
      let (ks, kb, g, same) = keyed-push es k v rest hk hv f in
      (
        record { bytes = jb; key = j'; value = w' } ∷ ks,
        kb,
        keyed-entry j w j' w' jb es ks a b d g,
        sym (ok-injective e4) ∙ ap (λ l. record { bytes = jb; key = j'; value = w' } ∷ l) same,
      )

  -- What serde does at a type: its fields are named otherwise than the envelope, and they are read back
  -- in the order of their keys.
  abbrev pub IsSerde : T → Type 0
  IsSerde x =
      (es : Entries) (ks : List Keyed)
      → o.serialize x ≡ ok (Value.map es)
      → keyed c es ≡ ok ks
      → All (λ a. own a ≡ true) ks
        × (o.deserialize (Value.map (unkeyed (sort_by by_bytes ks))) ≡ ok x)

  abbrev tag_entry : Bytes → Keyed
  tag_entry kb = record { bytes = kb; key = Value.text (codes "t"); value = Value.text o.tag }

  abbrev version_entry : Bytes → Keyed
  version_entry kb = record {
    bytes = kb;
    key = Value.text (codes "v");
    value = Value.integer o.version;
  }

  tag_kind : (kb : Bytes) → kind (tag_entry kb) ≡ Field.is_tag o.tag
  unfolding field eqb
  tag_kind kb = refl

  version_kind :
      (kb : Bytes) → o.version < 2 ^ 64 → kind (version_entry kb) ≡ Field.is_version (ok o.version)
  unfolding field as_u64 eqb
  version_kind kb h = let small : ltb o.version (2 ^ 64) ≡ true = ground arith in rw small refl

  module _ (ks : List Keyed) (tb vb : Bytes) (owned : All (λ a. own a ≡ true) ks)
      (h : o.version < 2 ^ 64) where
    abbrev all_entries : List Keyed
    all_entries = (ks ++ tag_entry tb ∷ []) ++ version_entry vb ∷ []

    abbrev in_order : List Keyed
    in_order = sort_by by_bytes all_entries

    kept :
        (p : Keyed → Bool) (t v : List Keyed)
        → filter p ks ≡ []
        → filter p (tag_entry tb ∷ []) ≡ t
        → filter p (version_entry vb ∷ []) ≡ v
        → filter p in_order ≡ sort_by by_bytes (t ++ v)
    kept p t v none_kept in_t in_v =
        filter-sort_by by_bytes by_bytes-swap by_bytes_trans p all_entries
        ∙ ap (sort_by by_bytes) (
            filter-append p (ks ++ tag_entry tb ∷ []) (version_entry vb ∷ [])
            ∙ rw (filter-append p ks (tag_entry tb ∷ []), none_kept, in_t, in_v) refl)

    tag_found : tag_after none in_order ≡ some o.tag
    tag_found =
        tag_after-filter none in_order
        ∙ ap (tag_after none) (
            kept (λ a. is_tag_entry (kind a)) (tag_entry tb ∷ []) []
              (filter_none (λ a. is_tag_entry (kind a)) ks
                (All-imp (λ a k. own-not_tag (kind a) k) ks owned))
              (unfold filter in rw (tag_kind tb) refl)
              (unfold filter in rw (version_kind vb h) refl))
        ∙ (unfold sort_by insert_sorted in rw (tag_kind tb) refl)

    version_found : version_after none in_order ≡ some o.version
    version_found =
        version_after-filter none in_order
        ∙ ap (version_after none) (
            kept (λ a. is_version_entry (kind a)) [] (version_entry vb ∷ [])
              (filter_none (λ a. is_version_entry (kind a)) ks
                (All-imp (λ a k. own-not_version (kind a) k) ks owned))
              (unfold filter in rw (tag_kind tb) refl)
              (unfold filter in rw (version_kind vb h) refl))
        ∙ (unfold sort_by insert_sorted in rw (version_kind vb h) refl)

    own_kept : filter own in_order ≡ sort_by by_bytes ks
    own_kept =
        filter-sort_by by_bytes by_bytes-swap by_bytes_trans own all_entries
        ∙ ap (sort_by by_bytes) (
            filter-append own (ks ++ tag_entry tb ∷ []) (version_entry vb ∷ [])
            ∙ rw
                (
                  filter-append own ks (tag_entry tb ∷ []),
                  filter-All own ks owned,
                  own_tag,
                  own_version,
                )
                (append-nil (ks ++ []) ∙ append-nil ks))
      where
        own_tag : filter own (tag_entry tb ∷ []) ≡ []
        own_tag = unfold filter in rw (tag_kind tb) refl

        own_version : filter own (version_entry vb ∷ []) ≡ []
        own_version = unfold filter in rw (version_kind vb h) refl

    All-fine : All (λ a. is_fine (kind a) ≡ true) in_order
    All-fine =
        sort_by-All by_bytes (λ a. is_fine (kind a) ≡ true) all_entries
          (All-append _ (ks ++ tag_entry tb ∷ []) (version_entry vb ∷ [])
            (All-append _ ks (tag_entry tb ∷ []) (All-imp (λ a k. own-fine (kind a) k) ks owned)
              (ap is_fine (tag_kind tb), tt))
            (ap is_fine (version_kind vb h), tt))

    envelope_opened :
        open_entries none none Entries.no_entry (unkeyed in_order)
        ≡ ok (opened (some o.tag) (some o.version) (sort_by by_bytes ks))
    unfolding unkeyed
    envelope_opened =
        open_entries-unkeyed none none [] in_order All-fine
        ∙ ap (λ t. ok (opened t (version_after none in_order) (filter own in_order))) tag_found
        ∙ ap (λ v. ok (opened (some o.tag) v (filter own in_order))) version_found
        ∙ ap (λ l. ok (opened (some o.tag) (some o.version) l)) own_kept

    object_opened :
        (x : T)
        → o.deserialize (Value.map (unkeyed (sort_by by_bytes ks))) ≡ ok x
        → open_object c o (opened (some o.tag) (some o.version) (sort_by by_bytes ks)) ≡ ok x
    unfolding open_object require_tag require_version
    object_opened x e =
        let known : ltb o.version o.version ≡ false = ground arith in rw (eqb_refl o.tag, known) e

  -- The canonical form of the envelope of an object is read back.
  read_back :
      (w : Value) (bytes : Bytes)
      → ReadsBack c
      → canonicalize c w ≡ ok w
      → c.write w ≡ ok bytes
      → read_canonical c bytes ≡ ok w
  unfolding read_canonical canonical_bytes require_bytes
  read_back w bytes back form wrote = rw (back w bytes wrote, form, wrote, eqb_refl bytes) refl

  entries_to_encode-ok : (v : Value) (es : Entries) → entries_to_encode v ≡ ok es → v ≡ Value.map es
  unfolding entries_to_encode
  entries_to_encode-ok (Value.map es) es' e = ap Value.map (ok-injective e)
  entries_to_encode-ok (Value.array vs) es' e = cc
  entries_to_encode-ok (Value.float f) es' e = cc
  entries_to_encode-ok (Value.tag n v) es' e = cc
  entries_to_encode-ok (Value.integer n) es' e = cc
  entries_to_encode-ok (Value.negative n) es' e = cc
  entries_to_encode-ok (Value.bytes b) es' e = cc
  entries_to_encode-ok (Value.text t) es' e = cc
  entries_to_encode-ok (Value.boolean b) es' e = cc
  entries_to_encode-ok Value.null es' e = cc

  decode-of_form :
      (w : Value) (bytes : Bytes) (x : T) (ks : List Keyed)
      → read_canonical c bytes ≡ ok w
      → w ≡ Value.map (unkeyed ks)
      → ((d : Opened) × (open_entries none none Entries.no_entry (unkeyed ks) ≡ ok d)
          × (open_object c o d ≡ ok x))
      → decode c o bytes ≡ ok x
  unfolding decode entries_of
  decode-of_form w bytes x ks r same (d, e, f) = rw (r, same, e) f

  -- Where the library reads back what it writes and serde reads back an object's own entries, `decode`
  -- gives back an object of a version below 2^64 from what `encode` wrote for it, whose ID is that of the
  -- bytes.
  pub decode-encode :
      (blake3 : Bytes → Bytes) (x : T) (enc : Encoded)
      → ReadsBack c
      → IsSerde x
      → o.version < 2 ^ 64
      → encode c o blake3 x ≡ ok enc
      → (decode c o enc.bytes ≡ ok x) × (enc.id ≡ object_id blake3 o.tag enc.bytes)
  unfolding encode canonical_bytes envelope canonicalize
  decode-encode blake3 x enc back serde small e =
      let (v, sv, e1) = >>=-eq-ok (o.serialize x) _ e in
      let (es, me, e2) = >>=-eq-ok (entries_to_encode v) _ e1 in
      let (bytes, cb, e3) = >>=-eq-ok (canonical_bytes c (envelope c o es)) _ e2 in
      let (w, cw, wrote) = >>=-eq-ok (canonicalize c (envelope c o es)) _ cb in
      let (all, ka, e4) =
        >>=-eq-ok
          (keyed c (
            push_entry (Value.text (codes "v")) (Value.integer o.version)
              (push_entry (Value.text (codes "t")) (Value.text o.tag) es)))
          (λ ks. map_of (sort_by by_bytes ks)) cw in
      let (some_ks, vb, ks_some, all_same) =
        keyed-push (push_entry (Value.text (codes "t")) (Value.text o.tag) es)
          (Value.text (codes "v")) (Value.integer o.version) all refl refl ka in
      let (ks, tb, ks_es, some_same) =
        keyed-push es (Value.text (codes "t")) (Value.text o.tag) some_ks refl refl ks_some in
      let (owned, des) = serde es ks (sv ∙ ap ok (entries_to_encode-ok v es me)) ks_es in
      let order : all ≡ all_entries ks tb vb owned small =
        all_same ∙ ap (λ l. l ++ version_entry vb ∷ []) some_same in
      let (form, once) = map_of-ok (sort_by by_bytes all) w e4 in
      let enc_bytes : bytes ≡ enc.bytes = ap (λ r. r.bytes) (ok-injective e3) in
      (
        subst (λ b. decode c o b ≡ ok x) enc_bytes
            (decode-of_form w bytes x (in_order ks tb vb owned small)
              (read_back w bytes back (canonicalize_idem c (envelope c o es) w cw) wrote)
              (form ∙ ap (λ l. Value.map (unkeyed (sort_by by_bytes l))) order)
              (
                opened (some o.tag) (some o.version) (sort_by by_bytes ks),
                envelope_opened ks tb vb owned small,
                object_opened ks tb vb owned small x des,
              )),
        sym (ap (λ r. r.id) (ok-injective e3)) ∙ ap (object_id blake3 o.tag) enc_bytes,
      )
