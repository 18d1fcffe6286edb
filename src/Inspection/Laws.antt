-- ===== src/Inspection/Laws.antt =====
-- An inspection keeps its limits, and it is whole if it is not truncated.
use magicdesk_x.Prelude.{
  ℕ, ◌+◌, ◌≤◌, ◌<◌, ◌≡◌, refl, ap, ◌∙◌, ◌≢◌, ◌⊎◌, inl, inr, Bool, true, false, ◌||◌, List, [], ◌∷◌,
  ◌++◌, arith, leb, ◌==◌, if◌then◌else◌, Bool-cases, length, length-append,
}
use magicdesk_x.Inspection.{
  InspectTree, InspectTrees, window, no_windows, more_windows, scan_limit, InspectWalk, is_emitted,
  inspect_one, inspect_after, inspect_tree, inspect_trees, inspect_family,
}

-- The windows of a tree that belong to the family, from the top one down, each before its children.
abbrev mutual
  pub members_of : ℕ → (ℕ → Bool) → List ℕ → InspectTree → List ℕ
  members_of owner belongs parents (window id children) =
      (if is_emitted owner belongs parents id then id ∷ [] else [])
      ++ all_members owner belongs (id ∷ parents) children

  pub all_members : ℕ → (ℕ → Bool) → List ℕ → InspectTrees → List ℕ
  all_members owner belongs parents no_windows = []
  all_members owner belongs parents (more_windows first rest) =
      members_of owner belongs parents first ++ all_members owner belongs parents rest

-- A part of the walk that should emit some windows.
record IsWalked (limit : ℕ) (w : InspectWalk) (expected : List ℕ) (o : InspectWalk × List ℕ)
    : Type 0 where
  counted : o.0.count ≡ w.count + length o.1
  limited : w.count ≤ limit → o.0.count ≤ limit
  whole : o.0.truncated ≡ false → (w.truncated ≡ false) × (o.1 ≡ expected)

after-IsWalked :
    (limit : ℕ) (w : InspectWalk) (a b : List ℕ) (o : InspectWalk × List ℕ)
    (next : InspectWalk → InspectWalk × List ℕ)
    → IsWalked limit w a o
    → IsWalked limit o.0 b (next o.0)
    → IsWalked limit w (a ++ b) (inspect_after o next)
after-IsWalked limit w a b (v, first) next h k =
    let c = h.counted in
    let d = k.counted in
    record {
      counted = omega (arith, length-append first (next v).1);
      limited = λ l. k.limited (h.limited l);
      whole = λ e.
          let (t, s) = k.whole e in
          let (u, r) = h.whole t in (u, ap (λ x. x ++ (next v).1) r ∙ ap (λ x. a ++ x) s);
    }

one-IsWalked :
    (limit owner : ℕ) (belongs : ℕ → Bool) (parents : List ℕ) (id : ℕ) (w : InspectWalk)
    → IsWalked limit w
        (if is_emitted owner belongs parents id then id ∷ [] else [])
        (inspect_one limit owner belongs parents id w)
unfolding inspect_one
one-IsWalked limit owner belongs parents id w =
    one_of w.truncated (leb scan_limit w.scanned) (is_emitted owner belongs parents id)
      (Bool-cases (w.count == limit)) refl
  where
    cut : InspectWalk
    cut = record w { truncated = true; scanned = w.scanned + 1 }

    one_of :
        (t s e : Bool)
        → ((w.count == limit) ≡ true) ⊎ ((w.count == limit) ≡ false)
        → w.truncated ≡ t
        → IsWalked limit w (if e then id ∷ [] else []) (
            if t
            then (w, [])
            else if s
            then (cut, [])
            else if e
            then (if w.count == limit
                then (cut, [])
                else (record w { count = w.count + 1; scanned = w.scanned + 1 }, id ∷ []))
            else (record w { scanned = w.scanned + 1 }, []))
    one_of true s e c h = record { counted = omega arith; limited = λ l. l; whole = λ z. absurd cc }
    one_of false true e c h = record {
      counted = omega arith;
      limited = λ l. l;
      whole = λ z. absurd cc;
    }
    one_of false false false c h = record {
      counted = omega arith;
      limited = λ l. l;
      whole = λ z. (h, refl);
    }
    one_of false false true (inl c) h =
        rw c (record { counted = omega arith; limited = λ l. l; whole = λ z. absurd cc })
    one_of false false true (inr c) h = rw c (record {
      counted = omega arith;
      limited = λ l. below limit w.count c l;
      whole = λ z. (h, refl);
    })
      where
        below : (limit n : ℕ) → (n == limit) ≡ false → n ≤ limit → n + 1 ≤ limit
        below limit n c l = ground arith

mutual
  unfolding inspect_tree inspect_trees

  tree-IsWalked :
      (limit owner : ℕ) (belongs : ℕ → Bool) (parents : List ℕ) (node : InspectTree)
      (w : InspectWalk)
      → IsWalked limit w
          (members_of owner belongs parents node)
          (inspect_tree limit owner belongs parents node w)
  tree-IsWalked limit owner belongs parents (window id children) w =
      let o = inspect_one limit owner belongs parents id w in
      after-IsWalked limit w (if is_emitted owner belongs parents id then id ∷ [] else [])
        (all_members owner belongs (id ∷ parents) children) o
        (λ v. inspect_trees limit owner belongs (id ∷ parents) children v)
        (one-IsWalked limit owner belongs parents id w)
        (trees-IsWalked limit owner belongs (id ∷ parents) children o.0)

  trees-IsWalked :
      (limit owner : ℕ) (belongs : ℕ → Bool) (parents : List ℕ) (nodes : InspectTrees)
      (w : InspectWalk)
      → IsWalked limit w
          (all_members owner belongs parents nodes)
          (inspect_trees limit owner belongs parents nodes w)
  trees-IsWalked limit owner belongs parents no_windows w = record {
    counted = omega arith;
    limited = λ l. l;
    whole = λ z. (z, refl);
  }
  trees-IsWalked limit owner belongs parents (more_windows first rest) w =
      let o = inspect_tree limit owner belongs parents first w in
      after-IsWalked limit w (members_of owner belongs parents first)
        (all_members owner belongs parents rest) o
        (λ v. inspect_trees limit owner belongs parents rest v)
        (tree-IsWalked limit owner belongs parents first w)
        (trees-IsWalked limit owner belongs parents rest o.0)

-- For an owner and a limit that are not 0, an inspection counts what it emits, which is no more than
-- the limit, and if it does not say that it is truncated, it has emitted the owner and then every other
-- window of the tree that belongs to the family, itself or by one of its 63 next parents below the root.
pub inspect_family-whole :
    (limit owner : ℕ) (belongs : ℕ → Bool) (roots : InspectTrees)
    → owner ≢ 0
    → 0 < limit
    → let o = inspect_family limit owner belongs roots in
      (o.0.count ≡ length o.1)
      × ((o.0.count ≤ limit)
          × (o.0.truncated ≡ false → o.1 ≡ owner ∷ all_members owner belongs [] roots))
unfolding inspect_family
inspect_family-whole limit owner belongs roots h k =
    let w : InspectWalk = record { count = 1; truncated = false; scanned = 0 } in
    let t = trees-IsWalked limit owner belongs [] roots w in
    let c = t.counted in
    rw (started limit owner h k)
      (omega arith, (t.limited (omega arith), λ e. ap (λ l. owner ∷ l) (t.whole e).1))
  where
    started : (limit owner : ℕ) → owner ≢ 0 → 0 < limit → (owner == 0 || limit == 0) ≡ false
    started limit owner h k = ground arith
