-- ===== src/Core/Cbor/Envelope.antt =====
-- An object is decoded from its encoding.
use tessra.Prelude.{
  ℕ, ◌≡◌, refl, sym, ap, ◌∙◌, Bool, true, false, List, [], ◌∷◌, ◌++◌, Bytes, All, Option, some,
  filter, list_ord, nat_ord, append-nil, append_assoc,
}
use tessra.Core.Result.{ok, err}
use tessra.Core.Value.{Entries}
use tessra.Core.Cbor.{Keyed, Field, Opened, unkeyed, push_entry, field, open_entries}

abbrev pub kind : Keyed → Field
kind a = field a.key a.value

-- An entry of the object itself, the tag, the version, and no version that is out of range.
abbrev pub is_own : Field → Bool
is_own Field.is_other = true
is_own _ = false

abbrev pub is_tag_entry : Field → Bool
is_tag_entry (Field.is_tag t) = true
is_tag_entry _ = false

abbrev pub is_version_entry : Field → Bool
is_version_entry (Field.is_version r) = true
is_version_entry _ = false

abbrev pub is_fine : Field → Bool
is_fine (Field.is_version (err e)) = false
is_fine _ = true

abbrev pub own : Keyed → Bool
own a = is_own (field a.key a.value)

abbrev pub next_tag : Option Bytes → Field → Option Bytes
next_tag t (Field.is_tag u) = some u
next_tag t _ = t

abbrev pub next_version : Option ℕ → Field → Option ℕ
next_version v (Field.is_version (ok n)) = some n
next_version v _ = v

abbrev pub tag_after : Option Bytes → List Keyed → Option Bytes
tag_after t [] = t
tag_after t (a ∷ ks) = tag_after (next_tag t (kind a)) ks

abbrev pub version_after : Option ℕ → List Keyed → Option ℕ
version_after v [] = v
version_after v (a ∷ ks) = version_after (next_version v (kind a)) ks

unkeyed-push :
    (ks : List Keyed) (a : Keyed) → push_entry a.key a.value (unkeyed ks) ≡ unkeyed (ks ++ a ∷ [])
unfolding unkeyed push_entry
unkeyed-push [] a = refl
unkeyed-push (b ∷ ks) a = ap (Entries.entry b.key b.value) (unkeyed-push ks a)

abbrev pub opened : Option Bytes → Option ℕ → List Keyed → Opened
opened t v ks = record { tag = t; version = v; rest = unkeyed ks }

-- The loop of `decode`, entry by entry.
pub open_entries-unkeyed :
    (t : Option Bytes) (v : Option ℕ) (acc ks : List Keyed)
    → All (λ a. is_fine (kind a) ≡ true) ks
    → open_entries t v (unkeyed acc) (unkeyed ks)
      ≡ ok (opened (tag_after t ks) (version_after v ks) (acc ++ filter own ks))
unfolding open_entries unkeyed filter
open_entries-unkeyed t v acc [] h = ap (λ l. ok (opened t v l)) (sym (append-nil acc))
open_entries-unkeyed t v acc (a ∷ ks) (h, hs) =
    go (kind a) refl h (λ t v acc. open_entries-unkeyed t v acc ks hs)
  where
    go :
        (f : Field)
        → kind a ≡ f
        → is_fine f ≡ true
        → ((t : Option Bytes) (v : Option ℕ) (acc : List Keyed)
            → open_entries t v (unkeyed acc) (unkeyed ks)
              ≡ ok (opened (tag_after t ks) (version_after v ks) (acc ++ filter own ks)))
        → open_entries t v (unkeyed acc) (unkeyed (a ∷ ks))
          ≡ ok (
              opened (tag_after t (a ∷ ks)) (version_after v (a ∷ ks)) (acc ++ filter own (a ∷ ks)))
    go (Field.is_tag u) e f ih = rw (open_entries, e) (ih (some u) v acc)
    go (Field.is_version (ok n)) e f ih = rw (open_entries, e) (ih t (some n) acc)
    go (Field.is_version (err x)) e f ih = cc
    go Field.is_other e f ih =
        rw (open_entries, e, unkeyed-push acc a)
          (ih t v (acc ++ a ∷ [])
            ∙ ap (λ l. ok (opened (tag_after t ks) (version_after v ks) l))
                (append_assoc acc (a ∷ []) (filter own ks)))

-- The tag and the version depend on their own entries only.
pub tag_after-filter :
    (t : Option Bytes) (ks : List Keyed)
    → tag_after t ks ≡ tag_after t (filter (λ a. is_tag_entry (kind a)) ks)
unfolding filter
tag_after-filter t [] = refl
tag_after-filter t (a ∷ ks) = go (kind a) refl (λ t. tag_after-filter t ks)
  where
    go :
        (f : Field)
        → kind a ≡ f
        → ((t : Option Bytes)
            → tag_after t ks ≡ tag_after t (filter (λ a. is_tag_entry (kind a)) ks))
        → tag_after t (a ∷ ks) ≡ tag_after t (filter (λ a. is_tag_entry (kind a)) (a ∷ ks))
    go (Field.is_tag u) e ih = rw e (rw e (ih (some u)))
    go (Field.is_version r) e ih = rw e (ih t)
    go Field.is_other e ih = rw e (ih t)

pub version_after-filter :
    (v : Option ℕ) (ks : List Keyed)
    → version_after v ks ≡ version_after v (filter (λ a. is_version_entry (kind a)) ks)
unfolding filter
version_after-filter v [] = refl
version_after-filter v (a ∷ ks) = go (kind a) refl (λ v. version_after-filter v ks)
  where
    go :
        (f : Field)
        → kind a ≡ f
        → ((v : Option ℕ)
            → version_after v ks ≡ version_after v (filter (λ a. is_version_entry (kind a)) ks))
        → version_after v (a ∷ ks)
          ≡ version_after v (filter (λ a. is_version_entry (kind a)) (a ∷ ks))
    go (Field.is_tag u) e ih = rw e (ih v)
    go (Field.is_version (ok n)) e ih = rw e (rw e (ih (some n)))
    go (Field.is_version (err x)) e ih = rw e (rw e (ih v))
    go Field.is_other e ih = rw e (ih v)
