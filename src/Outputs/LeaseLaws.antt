-- ===== src/Outputs/LeaseLaws.antt =====
-- The X server's view of a leased key or button is the union of what the outputs hold.
use magicdesk_x.Prelude.{
  ==_refl, ℕ, zero, suc, ◌/◌, ◌%◌, ◌<◌, ◌≡◌, refl, ◌∙◌, ◌≢◌, inl, inr, Bool, true, false, ◌||◌,
  List, [], ◌∷◌, arith, ◌==◌, if◌then◌else◌, Bool-cases, length, get_or, set, length-set,
  get_or-set_self, get_or-set_ne, All, replicate,
}
use magicdesk_x.Prelude.Bits.{has_bit, set_bit, clear_bit}
use magicdesk_x.Prelude.Bits.{has_bit-set_bit, has_bit-clear_bit, set_bit-lt, clear_bit-lt}
use native.Mathlib.Decide.{ℕ_discrete}
use magicdesk_x.Outputs.{OutputSelection, Effect, key_event, button_event}
use magicdesk_x.Outputs.Leases.{
  key_held, button_held, any_key, any_button, same, with_key, output_key, with_button,
  output_button,
}

-- The fields are machine words: 32 bytes of keys and one of buttons.
pub record IsSound (o : OutputSelection) : Type 0 where
  pub size : length o.keys ≡ 32
  pub bytes : All (λ b. b < 256) o.keys
  pub button_byte : o.buttons < 256

All-set :
    (bytes : List ℕ) (i v : ℕ)
    → All (λ b. b < 256) bytes
    → v < 256
    → All (λ b. b < 256) (set bytes i v)
All-set [] i v a h = a
All-set (b ∷ bytes) zero v a h = (h, a.1)
All-set (b ∷ bytes) (suc i) v a h = (a.0, All-set bytes i v a.1 h)

pub zeros-All : (n : ℕ) → All (λ b. b < 256) (replicate n 0)
zeros-All zero = tt
zeros-All (suc n) = (omega arith, zeros-All n)

All-get_or : (bytes : List ℕ) (i : ℕ) → All (λ b. b < 256) bytes → get_or bytes i 0 < 256
All-get_or [] i a = omega arith
All-get_or (b ∷ bytes) zero a = a.0
All-get_or (b ∷ bytes) (suc i) a = All-get_or bytes i a.1

-- The byte that `with_key` writes.
new_byte : (byte k : ℕ) (down : Bool) → ℕ
new_byte byte k down = if down then set_bit byte k else clear_bit byte k

new_byte-lt : (byte k : ℕ) (down : Bool) → byte < 256 → k < 8 → new_byte byte k down < 256
unfolding new_byte
new_byte-lt byte k true b h = set_bit-lt byte k b h
new_byte-lt byte k false b h = clear_bit-lt byte k b h

has_bit-new_byte :
    (byte k j : ℕ) (down : Bool)
    → byte < 256
    → k < 8
    → j < 8
    → has_bit (new_byte byte k down) j ≡ (if k == j then down else has_bit byte j)
unfolding new_byte
has_bit-new_byte byte k j true b h i = has_bit-set_bit byte k j b h i
has_bit-new_byte byte k j false b h i = has_bit-clear_bit byte k j b h i

with_key-IsSound :
    (o : OutputSelection) (key : ℕ) (down : Bool) → IsSound o → IsSound (with_key o key down)
unfolding new_byte
with_key-IsSound o key down v =
    let byte = get_or o.keys (key / 8) 0 in
    record {
      size = length-set o.keys (key / 8) (new_byte byte (key % 8) down) ∙ v.size;
      bytes =
          All-set o.keys (key / 8) (new_byte byte (key % 8) down) v.bytes
            (new_byte-lt byte (key % 8) down (All-get_or o.keys (key / 8) v.bytes) (omega arith));
      button_byte = v.button_byte;
    }

same_place : (key j : ℕ) → key / 8 ≡ j / 8 → (key % 8 == j % 8) ≡ (key == j)
same_place key j e = ground arith

other_place : (key j : ℕ) → key / 8 ≢ j / 8 → (key == j) ≡ false
other_place key j e = ground arith

-- Changing one key changes no other key.
key_held-with_key :
    (o : OutputSelection) (key j : ℕ) (down : Bool)
    → IsSound o
    → key < 256
    → key_held (with_key o key down) j ≡ (if key == j then down else key_held o j)
unfolding new_byte
key_held-with_key o key j down v h =
    let byte = get_or o.keys (key / 8) 0 in
    let new = new_byte byte (key % 8) down in
    elim (ℕ_discrete (key / 8) (j / 8)) [
      | yes e ↦
          rw
            (
              ← e,
              get_or-set_self o.keys (key / 8) new 0 (omega (arith, v.size)),
              ← same_place key j e,
            )
            (has_bit-new_byte byte (key % 8) (j % 8) down (All-get_or o.keys (key / 8) v.bytes)
              (omega arith) (omega arith))
      | no e ↦ rw (get_or-set_ne o.keys (key / 8) (j / 8) new 0 e, other_place key j e)
    ]

button_held-with_button :
    (o : OutputSelection) (button j : ℕ) (down : Bool)
    → IsSound o
    → button < 8
    → j < 8
    → button_held (with_button o button down) j ≡ (if button == j then down else button_held o j)
unfolding new_byte
button_held-with_button o button j down v h i =
    has_bit-new_byte o.buttons button j down v.button_byte h i

-- What one change of a lease tells the X server: the change of the union, if there is one.
abbrev pub key_change : Bool → Bool → ℕ → List Effect
key_change true true key = []
key_change false false key = []
key_change true false key = key_event false key ∷ []
key_change false true key = key_event true key ∷ []

abbrev pub button_change : Bool → Bool → ℕ → List Effect
button_change true true button = []
button_change false false button = []
button_change true false button = button_event false button ∷ []
button_change false true button = button_event true button ∷ []

key_change_none : (b : Bool) (key : ℕ) → [] ≡ key_change b b key
key_change_none true key = refl
key_change_none false key = refl

button_change_none : (b : Bool) (button : ℕ) → [] ≡ button_change b b button
button_change_none true button = refl
button_change_none false button = refl

key_change_some :
    (old new others down : Bool) (key : ℕ)
    → same old down ≡ false
    → new ≡ down
    → (if others then [] else key_event down key ∷ [])
      ≡ key_change (old || others) (new || others) key
key_change_some old new others down key d e = ground arith

button_change_some :
    (old new others down : Bool) (button : ℕ)
    → same old down ≡ false
    → new ≡ down
    → (if others then [] else button_event down button ∷ [])
      ≡ button_change (old || others) (new || others) button
button_change_some old new others down button d e = ground arith

-- Nothing changes where the flag has the wanted value already.
kept :
    (held : ℕ → Bool) (key j : ℕ) (down : Bool)
    → same (held key) down ≡ true
    → held j ≡ (if key == j then down else held j)
kept held key j down e = elim (ℕ_discrete key j) [
  | yes p ↦ rw (← p, ==_refl key) (same-eq (held key) down e)
  | no p ↦ let other : (key == j) ≡ false = ground arith in rw other
]
  where
    same-eq : (a b : Bool) → same a b ≡ true → a ≡ b
    same-eq a b h = ground arith

with_button-IsSound :
    (o : OutputSelection) (button : ℕ) (down : Bool)
    → IsSound o
    → button < 8
    → IsSound (with_button o button down)
unfolding new_byte
with_button-IsSound o button down v h = record {
  size = v.size;
  bytes = v.bytes;
  button_byte = new_byte-lt o.buttons button down v.button_byte h;
}

-- Pressing or releasing a key for one output sets that key of that output and no other, and the X
-- server gets a key event exactly when the union of what all outputs hold changes for that key, with
-- the new state of the union: a key that another output holds is neither pressed again nor released.
pub output_key-lease :
    (o : OutputSelection) (others : List OutputSelection) (key j : ℕ) (down : Bool)
    → IsSound o
    → key < 256
    → let (o', effects) = output_key o others key down in
      IsSound o'
      × (key_held o' j ≡ (if key == j then down else key_held o j))
      × (effects ≡ key_change (any_key (o ∷ others) key) (any_key (o' ∷ others) key) key)
unfolding output_key
output_key-lease o others key j down v h = elim (Bool-cases (same (key_held o key) down)) [
  | inl e ↦ rw e (v, kept (key_held o) key j down e, key_change_none (any_key (o ∷ others) key) key)
  | inr e ↦ rw e (
    with_key-IsSound o key down v,
    key_held-with_key o key j down v h,
    key_change_some (key_held o key) (key_held (with_key o key down) key) (any_key others key) down
        key e (key_held-with_key o key key down v h ∙ rw (==_refl key)),
  )
]

-- The same of a pointer button.
pub output_button-lease :
    (o : OutputSelection) (others : List OutputSelection) (button j : ℕ) (down : Bool)
    → IsSound o
    → button < 8
    → j < 8
    → let (o', effects) = output_button o others button down in
      IsSound o'
      × (button_held o' j ≡ (if button == j then down else button_held o j))
      × (effects
          ≡ button_change (any_button (o ∷ others) button) (any_button (o' ∷ others) button) button)
unfolding output_button
output_button-lease o others button j down v h i =
    elim (Bool-cases (same (button_held o button) down)) [
      | inl e ↦ rw e (
        v,
        kept (button_held o) button j down e,
        button_change_none (any_button (o ∷ others) button) button,
      )
      | inr e ↦ rw e (
        with_button-IsSound o button down v h,
        button_held-with_button o button j down v h i,
        button_change_some (button_held o button) (button_held (with_button o button down) button)
            (any_button others button) down button e
            (button_held-with_button o button button down v h h ∙ rw (==_refl button)),
      )
    ]
