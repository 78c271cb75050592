-- ===== src/Lotus/Mapping/Links.antt =====
-- lotus/pkg/links/links.go: what a link connects.
use meadow.Prelude.{
  Bool, true, false, not, String, Option, none, some, List, [], ◌∷◌, str_eq, ◌≡◌, inl, inr, All, In,
  subst, sym, if_either, Bool-cases,
}
use meadow.Prelude.Int.{ℤ, ltℤ}
use meadow.Prelude.Sorting.{SortSlice}
use meadow.Json.{Value}
use meadow.Lotus.Mapping.Linq.{keep, Linq}

-- A constant that is nil is `none`.
pub record LinkDirection (F : Type 0) : Type 0 where
  pub step_id : String
  pub field_id : String
  pub constant : Option (Value F)

pub record Link (F : Type 0) : Type 0 where
  pub priority : ℤ
  pub source : LinkDirection F
  pub target : LinkDirection F

abbrev pub is_given : String → Bool
is_given id = not (str_eq id "")

module _ {F : Type 0} where
  abbrev pub is_constant : Option (Value F) → Bool
  is_constant none = false
  is_constant (some v) = true

  unfoldable pub to_priority : SortSlice (Link F) → List (Link F) → List (Link F)
  to_priority sort_slice links = sort_slice (λ a b. ltℤ a.priority b.priority) links

module _ {F : Type 0} ⦃linq : Linq⦄ where
  unfoldable pub filter : (Link F → Bool) → List (Link F) → List (Link F)
  filter predicate links = linq.filter predicate links

  pub filter_keep : (p : Link F → Bool) (links : List (Link F)) → filter p links ≡ keep p links
  unfolding filter
  filter_keep p links = linq.filter-keep p links

  pub filter-In :
      (p : Link F → Bool) (links : List (Link F)) (l : Link F)
      → In l links
      → p l ≡ true
      → In l (filter p links)
  unfolding keep
  filter-In p links l i h = subst (In l) (sym (filter_keep p links)) (kept links i)
    where
      kept : (ls : List (Link F)) → In l ls → In l (keep p ls)
      kept [] i = i
      kept (k ∷ ls) (inl e) = rw (rw e at h) (inl e)
      kept (k ∷ ls) (inr i) = if_either (In l) (p k) _ _ (λ e. inr (kept ls i)) (λ e. kept ls i)

  pub filter-All :
      (P : Link F → Type 0) (p : Link F → Bool) (links : List (Link F))
      → All P links
      → All P (filter p links)
  unfolding keep
  filter-All P p links h = subst (All P) (sym (filter_keep p links)) (kept links h)
    where
      kept : (ls : List (Link F)) → All P ls → All P (keep p ls)
      kept [] h = tt
      kept (k ∷ ls) h = if_either (All P) (p k) _ _ (λ e. (h.0, kept ls h.1)) (λ e. kept ls h.1)

  pub filter_has :
      (p : Link F → Bool) (links : List (Link F)) (l : Link F) → In l (filter p links) → In l links
  unfolding keep
  filter_has p links l i = kept links (subst (In l) (filter_keep p links) i)
    where
      kept : (ls : List (Link F)) → In l (keep p ls) → In l ls
      kept [] i = i
      kept (k ∷ ls) i = elim (Bool-cases (p k)) [
        | inl e ↦ elim (rw e at i) [ inl q ↦ inl q | inr j ↦ inr (kept ls j) ]
        | inr e ↦ inr (kept ls (rw e at i))
      ]

  pub filter_is :
      (p : Link F → Bool) (links : List (Link F)) (l : Link F) → In l (filter p links) → p l ≡ true
  unfolding keep
  filter_is p links l i = kept links (subst (In l) (filter_keep p links) i)
    where
      kept : (ls : List (Link F)) → In l (keep p ls) → p l ≡ true
      kept [] i = absurd i
      kept (k ∷ ls) i = elim (Bool-cases (p k)) [
        | inl e ↦ elim (rw e at i) [ inl q ↦ rw q e | inr j ↦ kept ls j ]
        | inr e ↦ kept ls (rw e at i)
      ]
