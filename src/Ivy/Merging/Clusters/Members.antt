-- ===== src/Ivy/Merging/Clusters/Members.antt =====
-- Who is active in which cluster, before and after the statements on the table entity_clusters of
-- ivy/internal/repositories/mergedentity/repository.go.
use meadow.Prelude.{
  ◌≡◌, ◌⊎◌, Bool, true, false, not, ◌&&◌, String, List, [], ◌∷◌, refl, sym, ◌∙◌, inl, inr, arith,
  Any, str_eq, eq_iff, if◌then◌else◌, if_either, if_split, subst,
}
use meadow.Ivy.Merging.Clusters.Store.{
  EntityCluster, is_member, is_active_elsewhere, upsert_member, is_active_in, move_rows,
}

-- The row makes the staged entity active in the cluster of the merged one.
abbrev pub Makes : String → String → EntityCluster → Type 0
Makes merged_id staged_id c =
    (c.merged_entity_id ≡ merged_id) × (c.staged_entity_id ≡ staged_id) × (c.is_removed ≡ false)

abbrev pub Active : String → String → List EntityCluster → Type 0
Active merged_id staged_id cs = Any (Makes merged_id staged_id) cs

-- A staged entity is active in one cluster at most.
abbrev pub OneCluster : List EntityCluster → Type 0
OneCluster cs = (m n s : String) → Active m s cs → Active n s cs → m ≡ n

pub upsert_member-Active :
    (m s : String) (p : Bool) (cs : List EntityCluster) → Active m s (upsert_member m s p cs)
unfolding upsert_member
upsert_member-Active m s p [] = inl (refl, refl, refl)
upsert_member-Active m s p (c ∷ cs) =
    if_either (Active m s) (is_member m s c) _ _
      (λ e. inl (
        ground (arith, eq_iff c.merged_entity_id m),
        ground (arith, eq_iff c.staged_entity_id s),
        refl,
      ))
      (λ e. inr (upsert_member-Active m s p cs))

pub upsert_member-keeps :
    (m s : String) (p : Bool) (cs : List EntityCluster) (n t : String)
    → Active n t cs
    → Active n t (upsert_member m s p cs)
unfolding upsert_member
upsert_member-keeps m s p [] n t h = absurd h
upsert_member-keeps m s p (c ∷ cs) n t (inl (a, b, d)) =
    if_either (Active n t) (is_member m s c) _ _ (λ e. inl (a, b, refl)) (λ e. inl (a, b, d))
upsert_member-keeps m s p (c ∷ cs) n t (inr i) =
    if_either (Active n t) (is_member m s c) _ _ (λ e. inr i)
      (λ e. inr (upsert_member-keeps m s p cs n t i))

-- What is active afterwards was so before or is the new member.
pub upsert_member-origin :
    (m s : String) (p : Bool) (cs : List EntityCluster) (n t : String)
    → Active n t (upsert_member m s p cs)
    → ((n ≡ m) × (t ≡ s)) ⊎ Active n t cs
unfolding upsert_member
upsert_member-origin m s p [] n t (inl (a, b, d)) = inl (sym a, sym b)
upsert_member-origin m s p [] n t (inr i) = absurd i
upsert_member-origin m s p (c ∷ cs) n t h =
    go (upsert_member-origin m s p cs n t) (is_member m s c) refl h
  where
    go :
        (Active n t (upsert_member m s p cs) → ((n ≡ m) × (t ≡ s)) ⊎ Active n t cs)
        → (b : Bool) → is_member m s c ≡ b
        → Active n t (
            if b
            then (record c { is_primary = p; is_removed = false }) ∷ cs
            else c ∷ upsert_member m s p cs)
        → ((n ≡ m) × (t ≡ s)) ⊎ Active n t (c ∷ cs)
    go ih true e (inl (a, b, d)) =
        inl
          (ground (arith, eq_iff c.merged_entity_id m), ground (arith, eq_iff c.staged_entity_id s))
    go ih true e (inr i) = inr (inr i)
    go ih false e (inl g) = inr (inl g)
    go ih false e (inr i) = elim (ih i) [ inl g ↦ inl g | inr g ↦ inr (inr g) ]

-- The unique index: nobody is active elsewhere.
pub is_active_elsewhere-false :
    (m s : String) (cs : List EntityCluster)
    → is_active_elsewhere m s cs ≡ false
    → (n : String) → Active n s cs
    → n ≡ m
unfolding is_active_elsewhere
is_active_elsewhere-false m s [] h n i = absurd i
is_active_elsewhere-false m s (c ∷ cs) h n i =
    if_split
      (not c.is_removed && (str_eq c.staged_entity_id s && not (str_eq c.merged_entity_id m))) _ _ h
      (λ e g. absurd (cc g))
      (λ e g. elim i [
        | inl (a, b, d) ↦ ground (arith, eq_iff c.merged_entity_id m, eq_iff c.staged_entity_id s)
        | inr j ↦ is_active_elsewhere-false m s cs g n j
      ])

pub upsert_member-OneCluster :
    (m s : String) (p : Bool) (cs : List EntityCluster)
    → is_active_elsewhere m s cs ≡ false
    → OneCluster cs
    → OneCluster (upsert_member m s p cs)
upsert_member-OneCluster m s p cs h one a b t i j =
    go (upsert_member-origin m s p cs a t i) (upsert_member-origin m s p cs b t j)
  where
    only : (n : String) → t ≡ s → Active n t cs → n ≡ m
    only n e k = is_active_elsewhere-false m s cs h n (subst (λ x. Active n x cs) e k)

    go : ((a ≡ m) × (t ≡ s)) ⊎ Active a t cs → ((b ≡ m) × (t ≡ s)) ⊎ Active b t cs → a ≡ b
    go (inl (x, y)) (inl (z, w)) = x ∙ sym z
    go (inl (x, y)) (inr k) = x ∙ sym (only b y k)
    go (inr k) (inl (z, w)) = only a w k ∙ sym z
    go (inr k) (inr l) = one a b t k l

-- After a move the members of one cluster are in the other, and nothing else has changed.
pub move_rows-origin :
    (from to : String) (cs : List EntityCluster) (n t : String)
    → Active n t (move_rows from to cs)
    → ((n ≡ to) × Active from t cs) ⊎ (Active n t cs × (str_eq n from ≡ false))
unfolding move_rows
move_rows-origin from to [] n t h = absurd h
move_rows-origin from to (c ∷ cs) n t (inr i) = elim (move_rows-origin from to cs n t i) [
  | inl (e, g) ↦ inl (e, inr g)
  | inr (g, e) ↦ inr (inr g, e)
]
move_rows-origin from to (c ∷ cs) n t (inl h) = go (is_active_in from c) refl h
  where
    go :
        (b : Bool)
        → is_active_in from c ≡ b
        → Makes n t (if b then (record c { merged_entity_id = to }) else c)
        → ((n ≡ to) × Active from t (c ∷ cs)) ⊎ (Active n t (c ∷ cs) × (str_eq n from ≡ false))
    go true e (a, b, d) = inl (sym a, inl (ground (arith, eq_iff c.merged_entity_id from), b, d))
    go false e (a, b, d) =
        inr (inl (a, b, d), ground (arith, eq_iff n from, eq_iff c.merged_entity_id from))

pub move_rows-OneCluster :
    (from to : String) (cs : List EntityCluster) → OneCluster cs → OneCluster (move_rows from to cs)
move_rows-OneCluster from to cs one a b t i j =
    go (move_rows-origin from to cs a t i) (move_rows-origin from to cs b t j)
  where
    differs : (n : String) → Active n t cs → str_eq n from ≡ false → Active from t cs → ⊥
    differs n k e l = ground (arith, eq_iff n from, one n from t k l)

    go :
        ((a ≡ to) × Active from t cs) ⊎ (Active a t cs × (str_eq a from ≡ false))
        → ((b ≡ to) × Active from t cs) ⊎ (Active b t cs × (str_eq b from ≡ false))
        → a ≡ b
    go (inl (x, k)) (inl (y, l)) = x ∙ sym y
    go (inl (x, k)) (inr (l, e)) = absurd (differs b l e k)
    go (inr (k, e)) (inl (y, l)) = absurd (differs a k e l)
    go (inr (k, e)) (inr (l, f)) = one a b t k l
