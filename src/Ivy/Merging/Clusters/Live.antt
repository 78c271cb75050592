-- ===== src/Ivy/Merging/Clusters/Live.antt =====
-- The merged entities that are not deleted, before and after the statements on the table
-- merged_entities of ivy/internal/repositories/mergedentity/repository.go.
use meadow.Prelude.{
  ◌≡◌, Bool, true, false, String, Option, none, some, List, [], ◌∷◌, ◌++◌, refl, ◌∙◌, subst, inl,
  inr, arith, Any, str_eq, eq_iff, if◌then◌else◌,
}
use mathlib.Core.Option.{some-injective}
use meadow.Ivy.Merging.Clusters.Store.{MergedEntity, is_live, behind_row, change_live}

abbrev pub IsLive : String → MergedEntity → Type 0
IsLive id m = (m.id ≡ id) × (m.is_deleted ≡ false)

abbrev pub Live : String → List MergedEntity → Type 0
Live id ms = Any (IsLive id) ms

pub Live-append : (id : String) (ms ns : List MergedEntity) → Live id ms → Live id (ms ++ ns)
Live-append id [] ns h = absurd h
Live-append id (m ∷ ms) ns (inl h) = inl h
Live-append id (m ∷ ms) ns (inr h) = inr (Live-append id ms ns h)

pub Live-append_new :
    (id : String) (ms : List MergedEntity) (m : MergedEntity) → IsLive id m → Live id (ms ++ m ∷ [])
Live-append_new id [] m h = inl h
Live-append_new id (n ∷ ms) m h = inr (Live-append_new id ms m h)

-- A change that succeeds took one live row of that identifier, and left the others.
pub data Changed (id : String) (f : MergedEntity → MergedEntity)
    : List MergedEntity → List MergedEntity → MergedEntity → Type 0 where
  here :
      (m : MergedEntity) (ms : List MergedEntity)
      → IsLive id m
      → Changed id f (m ∷ ms) (f m ∷ ms) (f m)
  later :
      (m u : MergedEntity) (ms ns : List MergedEntity)
      → Changed id f ms ns u
      → Changed id f (m ∷ ms) (m ∷ ns) u

is_live-IsLive : (id : String) (m : MergedEntity) → is_live id m ≡ true → IsLive id m
is_live-IsLive id m h = (ground (arith, eq_iff m.id id), ground arith)

pub change_live-Changed :
    (id : String) (f : MergedEntity → MergedEntity) (ms ns : List MergedEntity) (u : MergedEntity)
    → change_live id f ms ≡ some (ns, u)
    → Changed id f ms ns u
unfolding change_live behind_row
change_live-Changed id f [] ns u h = absurd (cc h)
change_live-Changed id f (m ∷ ms) ns u h = go (change_live-Changed id f ms) (is_live id m) refl h
  where
    rest :
        ((ks : List MergedEntity) (v : MergedEntity)
          → change_live id f ms ≡ some (ks, v)
          → Changed id f ms ks v)
        → (o : Option (List MergedEntity × MergedEntity)) → change_live id f ms ≡ o
        → behind_row m o ≡ some (ns, u)
        → Changed id f (m ∷ ms) ns u
    rest ih none e g = absurd (cc g)
    rest ih (some (ks, v)) e g =
        let p = some-injective (m ∷ ks, v) (ns, u) g in
        subst (λ q. Changed id f (m ∷ ms) q.0 q.1) p (later m v ms ks (ih ks v e))

    go :
        ((ks : List MergedEntity) (v : MergedEntity)
          → change_live id f ms ≡ some (ks, v)
          → Changed id f ms ks v)
        → (b : Bool) → is_live id m ≡ b
        → (if b then some (f m ∷ ms, f m) else behind_row m (change_live id f ms)) ≡ some (ns, u)
        → Changed id f (m ∷ ms) ns u
    go ih true e g =
        subst (λ q. Changed id f (m ∷ ms) q.0 q.1) (some-injective (f m ∷ ms, f m) (ns, u) g)
          (here m ms (is_live-IsLive id m e))
    go ih false e g = rest ih (change_live id f ms) refl g

module _ (id : String) (f : MergedEntity → MergedEntity)
    (same_id : (m : MergedEntity) → (f m).id ≡ m.id) where
  pub Changed-id : {ms ns : List MergedEntity} {u : MergedEntity} → Changed id f ms ns u → u.id ≡ id
  Changed-id (here m ms h) = same_id m ∙ h.0
  Changed-id (later m u ms ns c) = Changed-id c

  -- The other live rows stay.
  pub Changed-keeps :
      {ms ns : List MergedEntity} {u : MergedEntity} (k : String)
      → Changed id f ms ns u
      → str_eq k id ≡ false
      → Live k ms
      → Live k ns
  Changed-keeps k (here m ms h) e (inl g) = absurd (ground (arith, eq_iff k id, h.0, g.0))
  Changed-keeps k (here m ms h) e (inr i) = inr i
  Changed-keeps k (later m u ms ns c) e (inl g) = inl g
  Changed-keeps k (later m u ms ns c) e (inr i) = inr (Changed-keeps k c e i)

  -- A change that does not delete leaves all rows live.
  pub Changed-keeps_all :
      ((m : MergedEntity) → (f m).is_deleted ≡ m.is_deleted)
      → {ms ns : List MergedEntity} {u : MergedEntity} (k : String) → Changed id f ms ns u
      → Live k ms
      → Live k ns
  Changed-keeps_all d k (here m ms h) (inl g) = inl (same_id m ∙ g.0, d m ∙ g.1)
  Changed-keeps_all d k (here m ms h) (inr i) = inr i
  Changed-keeps_all d k (later m u ms ns c) (inl g) = inl g
  Changed-keeps_all d k (later m u ms ns c) (inr i) = inr (Changed-keeps_all d k c i)

  pub Changed-Live :
      ((m : MergedEntity) → (f m).is_deleted ≡ m.is_deleted)
      → {ms ns : List MergedEntity} {u : MergedEntity} → Changed id f ms ns u
      → Live id ns
  Changed-Live d (here m ms h) = inl (same_id m ∙ h.0, d m ∙ h.1)
  Changed-Live d (later m u ms ns c) = inr (Changed-Live d c)
