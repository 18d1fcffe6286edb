-- ===== src/Inspection.antt =====
-- The walk over a family of windows that is inspected: window_inspection_walk.h under
-- lorie/src/main/cpp/lorie. The pointers of the X server are a tree, the last child first, and the
-- family's policy is the argument `belongs`.
pub mod Laws
mod Tests
use magicdesk_x.Prelude.{
  ℕ, zero, suc, ◌+◌, ◌-◌, ◌*◌, ◌/◌, ◌%◌, ◌^◌, ◌≤◌, ◌<◌, min, max, ◌≡◌, refl, sym, ap, ◌∙◌, ◌≢◌, ◌↔◌,
  ◌⊎◌, inl, inr, Bool, true, false, not, ◌&&◌, ◌||◌, Option, none, some, List, [], ◌∷◌, ◌++◌, map,
  arith, ltb, leb, ◌==◌, if◌then◌else◌, ltb→lt, lt→ltb, leb→le, ==_iff, tests, Bool-cases, if-both,
  option-both, not-true, not-false, Option-cases, length, get_elem?, get_or, set, replicate,
  length-append, length-set, get_or-default, get_or-set_self, get_or-set_ne, All, All-set,
  get_or-All,
}
use magicdesk_x.Prelude.Int.{
  ℤ, pos, negsuc, pos_part, neg_part, sub_ℕ, ◌+ℤ◌, ◌-ℤ◌, ◌≤ℤ◌, ◌<ℤ◌, ltb_ℤ, leb_ℤ, eqb_ℤ, max_ℤ,
  min_ℤ, lt_ℤ-cases, int_laws, neg_part_of_le, negative_part, no_negative_part, +ℤ_parts, -ℤ_parts,
  eq_of_parts,
}
use magicdesk_x.Prelude.Bits.{has_bit, set_bit, clear_bit}

mutual
  pub data InspectTree : Type 0 where
    window : ℕ → InspectTrees → InspectTree

  pub data InspectTrees : Type 0 where
    no_windows : InspectTrees
    more_windows : InspectTree → InspectTrees → InspectTrees

abbrev pub scan_limit : ℕ
scan_limit = 8192

-- `LorieInspectionWalk`, and how many windows have been scanned.
pub record InspectWalk : Type 0 where
  pub count : ℕ
  pub truncated : Bool
  pub scanned : ℕ

-- `lorieInspectMember` of a window and its parents below the root, the innermost first.
unfoldable pub inspect_member : ℕ → (ℕ → Bool) → List ℕ → Bool
inspect_member zero belongs chain = false
inspect_member (suc depth) belongs [] = false
inspect_member (suc depth) belongs (id ∷ parents) =
    belongs id || inspect_member depth belongs parents

-- Whether a window other than the owner is emitted.
abbrev pub is_emitted : ℕ → (ℕ → Bool) → List ℕ → ℕ → Bool
is_emitted owner belongs parents id = not (id == owner) && inspect_member 64 belongs (id ∷ parents)

-- The part of the loop for one window: the walk after it, and what is emitted.
unfoldable pub inspect_one : ℕ → ℕ → (ℕ → Bool) → List ℕ → ℕ → InspectWalk → InspectWalk × List ℕ
unfolding inspect_member
inspect_one limit owner belongs parents id w =
    if w.truncated
    then (w, [])
    else if leb scan_limit w.scanned
    then (record w { truncated = true; scanned = w.scanned + 1 }, [])
    else if is_emitted owner belongs parents id
    then (if w.count == limit
        then (record w { truncated = true; scanned = w.scanned + 1 }, [])
        else (record w { count = w.count + 1; scanned = w.scanned + 1 }, id ∷ []))
    else (record w { scanned = w.scanned + 1 }, [])

abbrev pub inspect_after :
    InspectWalk × List ℕ → (InspectWalk → InspectWalk × List ℕ) → InspectWalk × List ℕ
inspect_after (w, first) next = let (v, second) = next w in (v, first ++ second)

-- The loop, which goes on with the children and then with the window before.
unfoldable mutual
  pub inspect_tree : ℕ → ℕ → (ℕ → Bool) → List ℕ → InspectTree → InspectWalk → InspectWalk × List ℕ
  inspect_tree limit owner belongs parents (window id children) w =
      inspect_after (inspect_one limit owner belongs parents id w)
        (λ v. inspect_trees limit owner belongs (id ∷ parents) children v)

  pub inspect_trees :
      ℕ → ℕ → (ℕ → Bool) → List ℕ → InspectTrees → InspectWalk → InspectWalk × List ℕ
  inspect_trees limit owner belongs parents no_windows w = (w, [])
  inspect_trees limit owner belongs parents (more_windows first rest) w =
      inspect_after (inspect_tree limit owner belongs parents first w)
        (λ v. inspect_trees limit owner belongs parents rest v)

-- `lorieInspectFamily` for a root with these children; the owner comes first.
unfoldable pub inspect_family : ℕ → ℕ → (ℕ → Bool) → InspectTrees → InspectWalk × List ℕ
unfolding inspect_trees
inspect_family limit owner belongs roots =
    if owner == 0 || limit == 0
    then (record { count = 0; truncated = false; scanned = 0 }, [])
    else inspect_after (record { count = 1; truncated = false; scanned = 0 }, owner ∷ [])
        (λ w. inspect_trees limit owner belongs [] roots w)
