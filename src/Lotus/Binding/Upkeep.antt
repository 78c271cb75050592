-- ===== src/Lotus/Binding/Upkeep.antt =====
-- The invariant of the matcher of lotus/pkg/binding/matcher.go, and what the updates do.
use meadow.Prelude.{
  ◌≡◌, true, false, String, Option, none, some, List, [], ◌∷◌, refl, ◌∙◌, subst, inl, inr, arith,
  All, str_eq, eq_iff, if◌then◌else◌, Bool-cases, if_either,
}
use meadow.Lotus.Binding.Defs.{Binding}
use meadow.Lotus.Binding.Registry.{enabled_only, update_list}

-- No two bindings share an identifier.
abbrev pub Unique : List Binding → Type 0
Unique [] = Unit
Unique (b ∷ bs) = All (λ c. str_eq c.id b.id ≡ false) bs × Unique bs

-- The bindings of one tenant, as the matcher holds them.
pub record WellFormed (tenant_id : String) (bs : List Binding) : Type 0 where
  pub enabled : All (λ b. b.is_enabled ≡ true) bs
  pub owned : All (λ b. b.tenant_id ≡ tenant_id) bs
  pub unique : Unique bs

-- The binding with an identifier.
abbrev pub find_binding : String → List Binding → Option Binding
find_binding id [] = none
find_binding id (b ∷ bs) = if str_eq b.id id then some b else find_binding id bs

pub find_binding-none :
    (id : String) (bs : List Binding)
    → All (λ c. str_eq c.id id ≡ false) bs
    → find_binding id bs ≡ none
find_binding-none id [] h = refl
find_binding-none id (b ∷ bs) h = rw h.0 (find_binding-none id bs h.1)

pub update_list-All :
    (P : Binding → Type 0) (new : Binding) (bs : List Binding)
    → (new.is_enabled ≡ true → P new)
    → All P bs
    → All P (update_list new bs)
unfolding update_list
update_list-All P new [] p h =
    if_either (All P) new.is_enabled (new ∷ []) [] (λ e. (p e, tt)) (λ e. tt)
update_list-All P new (b ∷ bs) p h =
    if_either (All P) (str_eq b.id new.id) (if new.is_enabled then new ∷ bs else bs)
      (b ∷ update_list new bs)
      (λ e. if_either (All P) new.is_enabled (new ∷ bs) bs (λ g. (p g, h.1)) (λ g. h.1))
      (λ e. (h.0, update_list-All P new bs p h.1))

pub update_list-Unique :
    (new : Binding) (bs : List Binding) → Unique bs → Unique (update_list new bs)
unfolding update_list
update_list-Unique new [] h =
    if_either Unique new.is_enabled (new ∷ []) [] (λ e. (tt, tt)) (λ e. tt)
update_list-Unique new (b ∷ bs) h =
    if_either Unique (str_eq b.id new.id) (if new.is_enabled then new ∷ bs else bs)
      (b ∷ update_list new bs)
      (λ e.
        if_either Unique new.is_enabled (new ∷ bs) bs
          (λ g.
            (subst (λ i. All (λ c. str_eq c.id i ≡ false) bs) ((eq_iff b.id new.id).0 e) h.0, h.1))
          (λ g. h.1))
      (λ e. (
        update_list-All (λ c. str_eq c.id b.id ≡ false) new bs
            (λ g. ground (arith, eq_iff b.id new.id, eq_iff new.id b.id)) h.0,
        update_list-Unique new bs h.1,
      ))

-- What an update makes of what is found under an identifier.
abbrev pub updated : Binding → String → Option Binding → Option Binding
updated new id before =
    if str_eq new.id id then (if new.is_enabled then some new else none) else before

removed :
    (b new : Binding) (bs : List Binding) (id : String)
    → b.id ≡ new.id
    → new.is_enabled ≡ false
    → All (λ c. str_eq c.id b.id ≡ false) bs
    → find_binding id bs ≡ updated new id (find_binding id (b ∷ bs))
removed b new bs id same g h = elim (Bool-cases (str_eq b.id id)) [
  | inl e ↦
      find_binding-none id bs
        (subst (λ i. All (λ c. str_eq c.id i ≡ false) bs) ((eq_iff b.id id).0 e) h)
      ∙ ground (arith, eq_iff b.id id)
  | inr e ↦ ground arith
]

-- What is found in a list after an update of it.
pub find_binding-update_list :
    (new : Binding) (bs : List Binding) (id : String)
    → Unique bs
    → find_binding id (update_list new bs) ≡ updated new id (find_binding id bs)
unfolding update_list
find_binding-update_list new [] id h =
    if_either (λ t. find_binding id t ≡ updated new id none) new.is_enabled (new ∷ []) []
      (λ e. ground arith) (λ e. ground arith)
find_binding-update_list new (b ∷ bs) id h =
    if_either (λ t. find_binding id t ≡ updated new id (find_binding id (b ∷ bs)))
      (str_eq b.id new.id) (if new.is_enabled then new ∷ bs else bs) (b ∷ update_list new bs)
      (λ e.
        let same : b.id ≡ new.id = (eq_iff b.id new.id).0 e in
        if_either (λ t. find_binding id t ≡ updated new id (find_binding id (b ∷ bs)))
          new.is_enabled (new ∷ bs) bs (λ g. ground (arith, eq_iff b.id id, eq_iff new.id id))
          (λ g. removed b new bs id same g h.0))
      (λ e. ground (
        arith,
        find_binding-update_list new bs id h.1,
        eq_iff b.id id,
        eq_iff new.id id,
        eq_iff b.id new.id,
      ))

pub enabled_only-All :
    (P : Binding → Type 0) (bs : List Binding) → All P bs → All P (enabled_only bs)
unfolding enabled_only
enabled_only-All P [] h = tt
enabled_only-All P (b ∷ bs) h =
    if_either (All P) b.is_enabled (b ∷ enabled_only bs) (enabled_only bs)
      (λ e. (h.0, enabled_only-All P bs h.1)) (λ e. enabled_only-All P bs h.1)

pub enabled_only-enabled : (bs : List Binding) → All (λ b. b.is_enabled ≡ true) (enabled_only bs)
unfolding enabled_only
enabled_only-enabled [] = tt
enabled_only-enabled (b ∷ bs) =
    if_either (All (λ b. b.is_enabled ≡ true)) b.is_enabled (b ∷ enabled_only bs) (enabled_only bs)
      (λ e. (e, enabled_only-enabled bs)) (λ e. enabled_only-enabled bs)

pub enabled_only-Unique : (bs : List Binding) → Unique bs → Unique (enabled_only bs)
unfolding enabled_only
enabled_only-Unique [] h = tt
enabled_only-Unique (b ∷ bs) h =
    if_either Unique b.is_enabled (b ∷ enabled_only bs) (enabled_only bs)
      (λ e. (enabled_only-All (λ c. str_eq c.id b.id ≡ false) bs h.0, enabled_only-Unique bs h.1))
      (λ e. enabled_only-Unique bs h.1)
