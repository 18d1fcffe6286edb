-- ===== src/Outputs/ReleaseLaws.antt =====
-- `releaseInput` of window_outputs.c gives back every lease of an output.
use magicdesk_x.Prelude.{
  ==_refl, ℕ, zero, suc, ◌+◌, ◌≤◌, ◌<◌, ◌≡◌, refl, sym, ap, ◌∙◌, inl, inr, Bool, false, not, ◌&&◌,
  ◌||◌, List, [], ◌∷◌, ◌++◌, map, arith, ltb, leb, ◌==◌, if◌then◌else◌, Bool-cases,
}
use magicdesk_x.DirectInput.{DirectInput, direct_input_release}
use magicdesk_x.Outputs.{
  OutputSelection, Effect, key_event, button_event, device_event, data_pointer,
}
use magicdesk_x.Outputs.Leases.{
  key_held, button_held, any_key, any_button, same, output_key, output_button, release_keys,
  release_buttons, release_input,
}
use magicdesk_x.Outputs.LeaseLaws.{
  IsSound, key_change, button_change, output_key-lease, output_button-lease,
}

-- The keys of a range that the output holds and no other output does, as their releases in order.
pub sole_keys : ℕ → ℕ → OutputSelection → List OutputSelection → List Effect
sole_keys zero key o others = []
sole_keys (suc n) key o others =
    (if key_held o key && not (any_key others key) then key_event false key ∷ [] else [])
    ++ sole_keys n (key + 1) o others

pub sole_buttons : ℕ → ℕ → OutputSelection → List OutputSelection → List Effect
sole_buttons zero button o others = []
sole_buttons (suc n) button o others =
    (if button_held o button && not (any_button others button)
      then button_event false button ∷ []
      else [])
    ++ sole_buttons n (button + 1) o others

-- What is left of a lease when a range of keys has been let go.
abbrev left_of : (ℕ → Bool) → ℕ → ℕ → ℕ → Bool
left_of held n first j = if leb first j && ltb j (first + n) then false else held j

left_inside :
    (held : ℕ → Bool) (n first j : ℕ) → first ≤ j → j < first + n → left_of held n first j ≡ false
left_inside held n first j a b = ground arith

release_change :
    (old new others : Bool) (key : ℕ)
    → new ≡ false
    → key_change (old || others) (new || others) key
      ≡ (if old && not others then key_event false key ∷ [] else [])
release_change old new others key e = ground arith

release_button_change :
    (old new others : Bool) (button : ℕ)
    → new ≡ false
    → button_change (old || others) (new || others) button
      ≡ (if old && not others then button_event false button ∷ [] else [])
release_button_change old new others button e = ground arith

-- The sole keys of a later range do not change when an earlier key is let go.
sole_keys_later :
    (n first key : ℕ) (o o' : OutputSelection) (others : List OutputSelection)
    → key < first
    → ((j : ℕ) → key_held o' j ≡ (if key == j then false else key_held o j))
    → sole_keys n first o' others ≡ sole_keys n first o others
unfolding sole_keys
sole_keys_later zero first key o o' others l e = refl
sole_keys_later (suc n) first key o o' others l e =
    let other : (key == first) ≡ false = ground arith in
    rw (e first, other, sole_keys_later n (first + 1) key o o' others (omega arith) e)

left_step :
    (held : ℕ → Bool) (n first j : ℕ)
    → (if leb (first + 1) j && ltb j (first + 1 + n)
        then false
        else (if first == j then false else held j))
      ≡ left_of held (suc n) first j
left_step held n first j = ground arith

-- An output that differs from another one in its keys, or in its keys and buttons, at most.
abbrev pub KeysDiffer : OutputSelection → OutputSelection → Type 0
KeysDiffer o o' = o' ≡ record o { keys = o'.keys }

abbrev pub ButtonsDiffer : OutputSelection → OutputSelection → Type 0
ButtonsDiffer o o' = o' ≡ record o { buttons = o'.buttons }

output_key-KeysDiffer :
    (o : OutputSelection) (others : List OutputSelection) (key : ℕ) (down : Bool)
    → KeysDiffer o (output_key o others key down).0
unfolding output_key
output_key-KeysDiffer o others key down = elim (Bool-cases (same (key_held o key) down)) [
  | inl e ↦ rw e
  | inr e ↦ rw e
]

output_button-ButtonsDiffer :
    (o : OutputSelection) (others : List OutputSelection) (button : ℕ) (down : Bool)
    → ButtonsDiffer o (output_button o others button down).0
unfolding output_button
output_button-ButtonsDiffer o others button down =
    elim (Bool-cases (same (button_held o button) down)) [ inl e ↦ rw e | inr e ↦ rw e ]

KeysDiffer-trans :
    (o o' o'' : OutputSelection) → KeysDiffer o o' → KeysDiffer o' o'' → KeysDiffer o o''
KeysDiffer-trans o o' o'' p q = q ∙ ap (λ (t : OutputSelection). record t { keys = o''.keys }) p

ButtonsDiffer-trans :
    (o o' o'' : OutputSelection) → ButtonsDiffer o o' → ButtonsDiffer o' o'' → ButtonsDiffer o o''
ButtonsDiffer-trans o o' o'' p q =
    q ∙ ap (λ (t : OutputSelection). record t { buttons = o''.buttons }) p

first_effect :
    (o o' : OutputSelection) (others : List OutputSelection) (first : ℕ)
    → key_held o' first ≡ (if first == first then false else key_held o first)
    → key_change (any_key (o ∷ others) first) (any_key (o' ∷ others) first) first
      ≡ (if key_held o first && not (any_key others first) then key_event false first ∷ [] else [])
first_effect o o' others first e =
    release_change (key_held o first) (key_held o' first) (any_key others first) first
      (e ∙ rw (==_refl first))

pub release_keys-lease :
    (n first : ℕ) (o : OutputSelection) (others : List OutputSelection)
    → IsSound o
    → first + n ≤ 256
    → let (o', effects) = release_keys n first o others in
      IsSound o'
      × ((j : ℕ) → key_held o' j ≡ left_of (key_held o) n first j)
      × (effects ≡ sole_keys n first o others)
      × KeysDiffer o o'
unfolding release_keys sole_keys
release_keys-lease zero first o others v h = (v, λ j. ground arith, refl, refl)
release_keys-lease (suc n) first o others v h =
    let (p, events) = output_key o others first false in
    let lease = λ (j : ℕ). output_key-lease o others first j false v (omega arith) in
    let (sound, held, effects, differ) =
      release_keys-lease n (first + 1) p others (lease 0).0 (omega arith) in
    (
      sound,
      λ j. held j ∙ rw ((lease j).1) (left_step (key_held o) n first j),
      rw (
        (lease 0).2,
        first_effect o p others first (lease first).1,
        effects,
        sole_keys_later n (first + 1) first o p others (omega arith) (λ j. (lease j).1),
      ),
      KeysDiffer-trans o p (release_keys n (first + 1) p others).0
          (output_key-KeysDiffer o others first false) differ,
    )

button_left_step :
    (held : ℕ → Bool) (n first j : ℕ)
    → (if leb (first + 1) j && ltb j (first + 1 + n)
        then false
        else (if first == j then false else held j))
      ≡ left_of held (suc n) first j
button_left_step held n first j = ground arith

sole_buttons_later :
    (n first button : ℕ) (o o' : OutputSelection) (others : List OutputSelection)
    → button < first
    → first + n ≤ 8
    → ((j : ℕ) → j < 8 → button_held o' j ≡ (if button == j then false else button_held o j))
    → sole_buttons n first o' others ≡ sole_buttons n first o others
unfolding sole_buttons
sole_buttons_later zero first button o o' others l h e = refl
sole_buttons_later (suc n) first button o o' others l h e =
    let other : (button == first) ≡ false = ground arith in
    rw (
      e first (omega arith),
      other,
      sole_buttons_later n (first + 1) button o o' others (omega arith) (omega arith) e,
    )

first_button_effect :
    (o o' : OutputSelection) (others : List OutputSelection) (first : ℕ)
    → button_held o' first ≡ (if first == first then false else button_held o first)
    → button_change (any_button (o ∷ others) first) (any_button (o' ∷ others) first) first ≡ (
        if button_held o first && not (any_button others first)
        then button_event false first ∷ []
        else [])
first_button_effect o o' others first e =
    release_button_change (button_held o first) (button_held o' first) (any_button others first)
      first (e ∙ rw (==_refl first))

pub release_buttons-lease :
    (n first : ℕ) (o : OutputSelection) (others : List OutputSelection)
    → IsSound o
    → first + n ≤ 8
    → let (o', effects) = release_buttons n first o others in
      IsSound o'
      × ((j : ℕ) → j < 8 → button_held o' j ≡ left_of (button_held o) n first j)
      × (effects ≡ sole_buttons n first o others)
      × ButtonsDiffer o o'
unfolding release_buttons sole_buttons
release_buttons-lease zero first o others v h = (v, λ j l. ground arith, refl, refl)
release_buttons-lease (suc n) first o others v h =
    let (p, events) = output_button o others first false in
    let lease =
      λ (j : ℕ) (l : j < 8). output_button-lease o others first j false v (omega arith) l in
    let here : first < 8 = omega arith in
    let (sound, held, effects, differ) =
      release_buttons-lease n (first + 1) p others (lease first here).0 (omega arith) in
    (
      sound,
      λ j l. held j l ∙ rw ((lease j l).1) (button_left_step (button_held o) n first j),
      rw (
        (lease first here).2,
        first_button_effect o p others first (lease first here).1,
        effects,
        sole_buttons_later n (first + 1) first o p others (omega arith) (omega arith)
            (λ j l. (lease j l).1),
      ),
      ButtonsDiffer-trans o p (release_buttons n (first + 1) p others).0
          (output_button-ButtonsDiffer o others first false) differ,
    )

-- The buttons of an output are not touched by its keys, and the other way round.
sole_buttons_same :
    (n first : ℕ) (o o' : OutputSelection) (others : List OutputSelection)
    → o'.buttons ≡ o.buttons
    → sole_buttons n first o' others ≡ sole_buttons n first o others
unfolding sole_buttons
sole_buttons_same zero first o o' others e = refl
sole_buttons_same (suc n) first o o' others e =
    rw (sole_buttons_same n (first + 1) o o' others e, e)

both_differ :
    (o o' o'' : OutputSelection)
    → KeysDiffer o o'
    → ButtonsDiffer o' o''
    → o'' ≡ record o { keys = o''.keys; buttons = o''.buttons }
both_differ o o' o'' p q =
    let keys : o''.keys ≡ o'.keys = ap (λ (t : OutputSelection). t.keys) q in
    q
    ∙ (ap (λ (t : OutputSelection). record t { buttons = o''.buttons }) p
        ∙ ap (λ (k : List ℕ). record o { keys = k; buttons = o''.buttons }) (sym keys))

-- Releasing the input of an output leaves it with no key from 8 to 255 and no button from 1 to 7, and
-- changes nothing else of it. The X server gets the ends of the output's contacts, the end of its
-- drag, and then a release for exactly those keys and buttons that this output held alone, each once
-- and in order: what another output still holds stays down.
pub release_input-lem :
    (o : OutputSelection) (others : List OutputSelection) (direct : DirectInput) (key button : ℕ)
    → IsSound o
    → 8 ≤ key
    → key < 256
    → 1 ≤ button
    → button < 8
    → let r = release_input o others direct in
      (key_held r.output key ≡ false)
      × (button_held r.output button ≡ false)
      × (r.output ≡ record o { keys = r.output.keys; buttons = r.output.buttons })
      × (r.effects
          ≡ map device_event (direct_input_release direct o.id).1
            ++ (data_pointer o.id o.window 1 false
                ∷ (sole_keys 248 8 o others ++ sole_buttons 7 1 o others)))
      × (r.direct ≡ (direct_input_release direct o.id).0)
      × IsSound r.output
unfolding release_input
release_input-lem o others direct key button v low high first last =
    let o' = (release_keys 248 8 o others).0 in
    let o'' = (release_buttons 7 1 o' others).0 in
    let (sound, held, effects, differ) = release_keys-lease 248 8 o others v (omega arith) in
    let (sound', held', effects', differ') =
      release_buttons-lease 7 1 o' others sound (omega arith) in
    let same_keys : o''.keys ≡ o'.keys = ap (λ (t : OutputSelection). t.keys) differ' in
    let same_buttons : o'.buttons ≡ o.buttons = ap (λ (t : OutputSelection). t.buttons) differ in
    (
      rw same_keys (held key ∙ left_inside (key_held o) 248 8 key low (omega arith)),
      held' button last ∙ left_inside (button_held o') 7 1 button first (omega arith),
      both_differ o o' o'' differ differ',
      rw (effects, effects', sole_buttons_same 7 1 o o' others same_buttons),
      refl,
      sound',
    )
