-- ===== src/Lotus/Mapping/Target/Items.antt =====
-- The elements of an array before and after one is changed: the updates in `setChildTargetFieldValueWithIndex` of
-- lotus/pkg/mapping/mapping.go.
use meadow.Prelude.{
  ℕ, ◌==◌, ==_iff, Bool, true, false, ◌&&◌, String, Option, none, some, str_eq, if◌then◌else◌,
  ◌>>=◌, ◌≡◌, refl, inl, inr, Bool-cases, Ensures, >>=-Ensures, >>=-Ensures_both, eq_iff, arith,
}
use meadow.Lotus.Mapping.Paths.{PathToField}
use meadow.Lotus.Mapping.Target.{
  TargetInfo, TargetFieldValue, TargetFieldValues, target, no_targets, and_target, info_of, blank,
  upsert, is_item_at, change_fields, in_item,
}

module _ {F : Type 0} where
  abbrev pub items_of : TargetFieldValue F → TargetFieldValues F
  items_of (target i its fs) = its

  abbrev pub fields_of : TargetFieldValue F → TargetFieldValues F
  fields_of (target i its fs) = fs

  -- The first value that has the key.
  unfoldable pub find : (TargetInfo F → Bool) → TargetFieldValues F → Option (TargetFieldValue F)
  find has_key no_targets = none
  find has_key (and_target t ts) = if has_key (info_of t) then some t else find has_key ts

  -- What a change keeps: which field a value is of, and its index.
  abbrev pub SameKey : TargetFieldValue F → TargetFieldValue F → Type 0
  SameKey t u =
      ((info_of u).field_id ≡ (info_of t).field_id) × ((info_of u).index ≡ (info_of t).index)

  apart :
      (id other_id : String) (n other_n : ℕ) (i : TargetInfo F)
      → is_item_at id n i ≡ true
      → str_eq id other_id && (n == other_n) ≡ false
      → is_item_at other_id other_n i ≡ false
  apart id other_id n other_n i e d = ground (arith, e, d, eq_iff i.field_id id)

  pub find-upsert :
      (id other_id : String) (n other_n : ℕ)
      (change : TargetFieldValue F → Option (TargetFieldValue F)) (ts : TargetFieldValues F)
      → ((t : TargetFieldValue F)
          → is_item_at id n (info_of t) ≡ true
          → Ensures (SameKey t) (change t))
      → str_eq id other_id && (n == other_n) ≡ false
      → Ensures
          (λ after.
            find (is_item_at other_id other_n) after ≡ find (is_item_at other_id other_n) ts)
          (upsert (is_item_at id n) (blank id n) change ts)
  unfolding find upsert
  find-upsert id other_id n other_n change no_targets keeps d =
      >>=-Ensures_both (SameKey (blank id n))
        (λ after. find (is_item_at other_id other_n) after ≡ none) (change (blank id n)) _
        (keeps (blank id n) (ground (arith, eq_iff id id, ==_iff n n)))
        (λ t k. ground (arith, k.0, k.1, d))
  find-upsert id other_id n other_n change (and_target t ts) keeps d =
      elim (Bool-cases (is_item_at id n (info_of t))) [
        | inl e ↦ rw e (
            >>=-Ensures_both (SameKey t)
              (λ after.
                find (is_item_at other_id other_n) after
                ≡ find (is_item_at other_id other_n) (and_target t ts))
              (change t) _ (keeps t e)
              (λ u k. rw (k.0, k.1, apart id other_id n other_n (info_of t) e d) refl))
        | inr e ↦ rw e (
            >>=-Ensures_both
              (λ after.
                find (is_item_at other_id other_n) after ≡ find (is_item_at other_id other_n) ts)
              (λ after.
                find (is_item_at other_id other_n) after
                ≡ find (is_item_at other_id other_n) (and_target t ts))
              (upsert (is_item_at id n) (blank id n) change ts) _
              (find-upsert id other_id n other_n change ts keeps d) (λ us k. rw k refl))
      ]

  -- The element with the key, or a new one where it is missing.
  abbrev pub or_blank : String → ℕ → Option (TargetFieldValue F) → TargetFieldValue F
  or_blank id n none = blank id n
  or_blank id n (some t) = t

  abbrev pub element_at : String → ℕ → TargetFieldValues F → TargetFieldValue F
  element_at id n ts = or_blank id n (find (is_item_at id n) ts)

  -- The value with the key is what a change made of the one that was there, or of a new one.
  abbrev pub Changed :
      (TargetFieldValue F → Option (TargetFieldValue F))
      → String
      → ℕ
      → TargetFieldValues F
      → TargetFieldValues F
      → Type 0
  Changed change id n before after =
      (new : TargetFieldValue F) × ((change (element_at id n before) ≡ some new)
        × (find (is_item_at id n) after ≡ some new))

  upsert-Changed :
      (id : String) (n : ℕ) (change : TargetFieldValue F → Option (TargetFieldValue F))
      (old : TargetFieldValue F) (before ts : TargetFieldValues F)
      (done : Option (TargetFieldValue F))
      → element_at id n before ≡ old
      → change old ≡ done
      → is_item_at id n (info_of old) ≡ true
      → ((t : TargetFieldValue F)
          → is_item_at id n (info_of t) ≡ true
          → Ensures (SameKey t) (change t))
      → Ensures (Changed change id n before) (done >>= λ t. some (and_target t ts))
  unfolding find
  upsert-Changed id n change old before ts none b e h keeps = tt
  upsert-Changed id n change old before ts (some new) b e h keeps =
      let k = (rw e at (keeps old h)) in (new, (cc (b, e), rw (k.0, k.1, h) refl))

  pub find-upsert_self :
      (id : String) (n : ℕ) (change : TargetFieldValue F → Option (TargetFieldValue F))
      (ts : TargetFieldValues F)
      → ((t : TargetFieldValue F)
          → is_item_at id n (info_of t) ≡ true
          → Ensures (SameKey t) (change t))
      → Ensures (Changed change id n ts) (upsert (is_item_at id n) (blank id n) change ts)
  unfolding find upsert
  find-upsert_self id n change no_targets keeps =
      upsert-Changed id n change (blank id n) no_targets no_targets (change (blank id n)) refl refl
        (ground (arith, eq_iff id id, ==_iff n n)) keeps
  find-upsert_self id n change (and_target t ts) keeps =
      elim (Bool-cases (is_item_at id n (info_of t))) [
        | inl e ↦ rw e (
            upsert-Changed id n change t (and_target t ts) ts (change t) (rw (find, e) refl) refl e
              keeps)
        | inr e ↦ rw e (
            >>=-Ensures_both (Changed change id n ts) (Changed change id n (and_target t ts))
              (upsert (is_item_at id n) (blank id n) change ts) _
              (find-upsert_self id n change ts keeps)
              (λ us (new, (c, f)). (new, (rw (find, e) c, rw (find, e) f))))
      ]

  -- The items but for the element that a change is about, and all fields, are as they were.
  abbrev pub Untouched : TargetFieldValue F → String → ℕ → TargetFieldValue F → Type 0
  Untouched parent id n after =
      (find (is_item_at id n) (items_of after) ≡ find (is_item_at id n) (items_of parent))
      × ((fields_of after ≡ fields_of parent) × SameKey parent after)

  pub in_item-Untouched :
      (next : PathToField) (n : ℕ) (other_id : String) (other_n : ℕ)
      (change : TargetFieldValue F → Option (TargetFieldValue F)) (parent : TargetFieldValue F)
      → ((t : TargetFieldValue F)
          → is_item_at next.field_id n (info_of t) ≡ true
          → Ensures (SameKey t) (change t))
      → str_eq next.field_id other_id && (n == other_n) ≡ false
      → Ensures (Untouched parent other_id other_n) (in_item next (some n) change parent)
  unfolding in_item
  in_item-Untouched next n other_id other_n change (target i its fs) keeps d =
      >>=-Ensures_both
        (λ after. find (is_item_at other_id other_n) after ≡ find (is_item_at other_id other_n) its)
        (Untouched (target i its fs) other_id other_n)
        (upsert (is_item_at next.field_id n) (blank next.field_id n) change its) _
        (find-upsert next.field_id other_id n other_n change its keeps d)
        (λ after e. (e, (refl, (refl, refl))))

  pub in_item-Changed :
      (next : PathToField) (n : ℕ) (change : TargetFieldValue F → Option (TargetFieldValue F))
      (parent : TargetFieldValue F)
      → ((t : TargetFieldValue F)
          → is_item_at next.field_id n (info_of t) ≡ true
          → Ensures (SameKey t) (change t))
      → Ensures
          (λ after. Changed change next.field_id n (items_of parent) (items_of after))
          (in_item next (some n) change parent)
  unfolding in_item
  in_item-Changed next n change (target i its fs) keeps =
      >>=-Ensures_both (Changed change next.field_id n its)
        (λ after. Changed change next.field_id n its (items_of after))
        (upsert (is_item_at next.field_id n) (blank next.field_id n) change its) _
        (find-upsert_self next.field_id n change its keeps) (λ after c. c)

  pub in_item-SameKey :
      (next : PathToField) (index : Option ℕ)
      (change : TargetFieldValue F → Option (TargetFieldValue F)) (parent : TargetFieldValue F)
      → Ensures (SameKey parent) (in_item next index change parent)
  unfolding in_item
  in_item-SameKey next none change parent = tt
  in_item-SameKey next (some n) change (target i its fs) =
      >>=-Ensures (SameKey (target i its fs))
        (upsert (is_item_at next.field_id n) (blank next.field_id n) change its) _
        (λ after. (refl, refl))

  pub change_fields-SameKey :
      (change : TargetFieldValues F → Option (TargetFieldValues F)) (parent : TargetFieldValue F)
      → Ensures (SameKey parent) (change_fields change parent)
  change_fields-SameKey change (target i its fs) =
      >>=-Ensures (SameKey (target i its fs)) (change fs) _ (λ after. (refl, refl))
