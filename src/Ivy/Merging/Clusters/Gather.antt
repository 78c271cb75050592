-- ===== src/Ivy/Merging/Clusters/Gather.antt =====
-- What GetMergedEntitiesByStagedIDs of ivy/internal/repositories/mergedentity/repository.go finds, and when
-- MoveClusterMembers meets no unique key.
use meadow.Prelude.{
  ◌≡◌, true, false, not, ◌&&◌, String, List, [], ◌∷◌, refl, sym, inl, inr, arith, All, All-map, Any,
  str_eq, eq_iff, subst, if_either, if_split, Bool-cases, Succeeds,
}
use meadow.Ivy.Merging.Clusters.Store.{
  MergedEntity, EntityCluster, is_live, behind_row, change_live, is_active_elsewhere, is_member,
  has_member, is_active_in, collides, move_rows, has_text, holds_any, holding,
}
use meadow.Ivy.Merging.Clusters.Members.{Active, OneCluster}
use meadow.Ivy.Merging.Clusters.Live.{Live}

abbrev pub NotRemoved : List EntityCluster → Type 0
NotRemoved cs = All (λ c. c.is_removed ≡ false) cs

-- No two rows have one identifier.
abbrev pub DistinctIds : List MergedEntity → Type 0
DistinctIds [] = Unit
DistinctIds (m ∷ ms) = All (λ n. str_eq n.id m.id ≡ false) ms × DistinctIds ms

module _ (ids : List String) (cs : List EntityCluster) where
  holding-All :
      (P : MergedEntity → Type 0) (ms : List MergedEntity) → All P ms → All P (holding ids cs ms)
  unfolding holding
  holding-All P [] h = tt
  holding-All P (m ∷ ms) h =
      let rest = holding-All P ms h.1 in
      if_either (All P) (not m.is_deleted && holds_any m.id ids cs) _ _ (λ e. (h.0, rest))
        (λ e. rest)

  pub holding-DistinctIds :
      (ms : List MergedEntity) → DistinctIds ms → DistinctIds (holding ids cs ms)
  unfolding holding
  holding-DistinctIds [] h = tt
  holding-DistinctIds (m ∷ ms) h =
      let rest = holding-DistinctIds ms h.1 in
      if_either DistinctIds (not m.is_deleted && holds_any m.id ids cs) _ _
        (λ e. (holding-All (λ n. str_eq n.id m.id ≡ false) ms h.0, rest)) (λ e. rest)

  pub holding-Live : (ms : List MergedEntity) → All (λ m. Live m.id ms) (holding ids cs ms)
  unfolding holding
  holding-Live [] = tt
  holding-Live (m ∷ ms) =
      let rest = All-map (holding ids cs ms) (λ n l. inr l) (holding-Live ms) in
      if_either (All (λ n. Live n.id (m ∷ ms))) (not m.is_deleted && holds_any m.id ids cs) _ _
        (λ e. (inl (refl, ground arith), rest)) (λ e. rest)

  Active-holds_any :
      (id s : String) (rows : List EntityCluster)
      → has_text s ids ≡ true
      → Active id s rows
      → holds_any id ids rows ≡ true
  unfolding holds_any
  Active-holds_any id s [] t h = absurd h
  Active-holds_any id s (c ∷ rows) t (inl (a, b, d)) =
      let named = subst (λ x. has_text x ids ≡ true) (sym b) t in
      ground (arith, eq_iff c.merged_entity_id id, a, d, named)
  Active-holds_any id s (c ∷ rows) t (inr i) = ground (arith, Active-holds_any id s rows t i)

  -- The live cluster of a listed entity is found.
  pub Active-holding :
      (id s : String) (ms : List MergedEntity)
      → has_text s ids ≡ true
      → Active id s cs
      → Live id ms
      → Any (λ m. m.id ≡ id) (holding ids cs ms)
  unfolding holding
  Active-holding id s [] t a l = absurd l
  Active-holding id s (m ∷ ms) t a l =
      if_either (Any (λ n. n.id ≡ id)) (not m.is_deleted && holds_any m.id ids cs) _ _
        (λ e. elim l [ inl h ↦ inl h.0 | inr i ↦ inr (Active-holding id s ms t a i) ])
        (λ e. elim l [
          | inl h ↦
              (let found = Active-holds_any m.id s cs t (subst (λ x. Active x s cs) (sym h.0) a) in
                absurd (ground (arith, h.1, found, e)))
          | inr i ↦ Active-holding id s ms t a i
        ])

-- A statement that updates a live row finds it.
pub Live-change_live :
    (id : String) (f : MergedEntity → MergedEntity) (ms : List MergedEntity)
    → Live id ms
    → Succeeds (change_live id f ms)
unfolding change_live behind_row
Live-change_live id f [] l = absurd l
Live-change_live id f (m ∷ ms) (inl (a, b)) =
    if_either Succeeds (is_live id m) _ _ (λ e. ((f m ∷ ms, f m), refl))
      (λ e. absurd (ground (arith, eq_iff m.id id)))
Live-change_live id f (m ∷ ms) (inr i) =
    if_either Succeeds (is_live id m) _ _ (λ e. ((f m ∷ ms, f m), refl))
      (λ e. (let p = Live-change_live id f ms i in rw (p.1) ((m ∷ (p.0).0, (p.0).1), refl)))

-- The unique index is met only where somebody is active elsewhere.
pub Active-is_active_elsewhere :
    (m s : String) (cs : List EntityCluster)
    → ((n : String) → Active n s cs → n ≡ m)
    → is_active_elsewhere m s cs ≡ false
unfolding is_active_elsewhere
Active-is_active_elsewhere m s [] h = refl
Active-is_active_elsewhere m s (c ∷ cs) h =
    if_either (λ b. b ≡ false)
      (not c.is_removed && (str_eq c.staged_entity_id s && not (str_eq c.merged_entity_id m))) _ _
      (λ e. absurd (
        let same =
          h c.merged_entity_id
            (inl (refl, ground (arith, eq_iff c.staged_entity_id s), ground arith)) in
        ground (arith, eq_iff c.merged_entity_id m, same)))
      (λ e. Active-is_active_elsewhere m s cs (λ n i. h n (inr i)))

has_member-Active :
    (m s : String) (cs : List EntityCluster)
    → NotRemoved cs
    → has_member m s cs ≡ true
    → Active m s cs
unfolding has_member
has_member-Active m s [] k h = absurd (cc h)
has_member-Active m s (c ∷ cs) k h =
    if_split (is_member m s c) _ _ h
      (λ e g. inl (
        ground (arith, eq_iff c.merged_entity_id m),
        ground (arith, eq_iff c.staged_entity_id s),
        k.0,
      ))
      (λ e g. inr (has_member-Active m s cs k.1 g))

collides-both :
    (from to : String) (all cs : List EntityCluster)
    → collides from to all cs ≡ true
    → (s : String) × Active from s cs × (has_member to s all ≡ true)
unfolding collides
collides-both from to all [] h = absurd (cc h)
collides-both from to all (c ∷ cs) h =
    if_split (is_active_in from c && has_member to c.staged_entity_id all) _ _ h
      (λ e g. (
        c.staged_entity_id,
        inl (ground (arith, eq_iff c.merged_entity_id from), refl, ground arith),
        ground arith,
      ))
      (λ e g. let p = collides-both from to all cs g in (p.0, inr p.1, p.2))

-- Nobody is in both clusters, so that no member who moves is there already.
pub OneCluster-collides :
    (from to : String) (cs : List EntityCluster)
    → str_eq to from ≡ false
    → NotRemoved cs
    → OneCluster cs
    → collides from to cs cs ≡ false
OneCluster-collides from to cs d k one = elim (Bool-cases (collides from to cs cs)) [
  | inl e ↦
      (let p = collides-both from to cs cs e in
        absurd
          (ground (arith, eq_iff to from, one from to p.0 p.1 (has_member-Active to p.0 cs k p.2))))
  | inr e ↦ e
]

pub move_rows-NotRemoved :
    (from to : String) (cs : List EntityCluster) → NotRemoved cs → NotRemoved (move_rows from to cs)
unfolding move_rows
move_rows-NotRemoved from to [] h = tt
move_rows-NotRemoved from to (c ∷ cs) h = (
  if_either {A = EntityCluster} (λ r. r.is_removed ≡ false) (is_active_in from c) _ _ (λ e. h.0)
      (λ e. h.0),
  move_rows-NotRemoved from to cs h.1,
)
