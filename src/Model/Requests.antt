-- ===== src/Model/Requests.antt =====
-- What an activation uses up, and what a confirmation makes of the states that a window has.
use magicdesk_x.Prelude.{
  ℕ, ◌≡◌, refl, Bool, true, false, not, ◌&&◌, ◌||◌, none, some, List, [], ◌∷◌, ◌++◌, arith, ◌⊎◌,
  ◌≢◌, ◌==◌, if◌then◌else◌, if-both, option-both, All,
}
use magicdesk_x.Window.State.{activation_timestamp}
use magicdesk_x.Model.{net_wm_state, net_active_window, xa_atom, ModelWindow, ModelEnv, ModelState}
use magicdesk_x.Model.Records.{typed_items, atoms_of, record_for}
use magicdesk_x.Model.Confirms.{without_states, if_set, states_with}
use magicdesk_x.Model.Messages.{
  RootMessage, may_activate, ask_activation, answer_message, root_message,
}
use magicdesk_x.Model.Table.{Host}
use magicdesk_x.Model.Events.{ModelEvent, is_input, starts_anew, host_after, model_step, model_run}
use magicdesk_x.Model.Host.{model_step-unused}

and_false : (a : Bool) → (a && false) ≡ false
and_false true = refl
and_false false = refl

no_time_allowed : (time now : ℕ) → activation_timestamp time 0 now ≡ false
unfolding activation_timestamp
no_time_allowed time now = and_false (not (time == 0))

-- Without input no activation is allowed.
unused-may_activate :
    (env : ModelEnv) (s : ModelState) (window : ModelWindow) (time : ℕ)
    → s.last_input_time ≡ 0
    → may_activate env s window time ≡ false
unfolding may_activate
unused-may_activate env s window time u =
    option-both (λ b. b ≡ false)
      (if s.last_input_window == 0 then none else env.lookup s.last_input_window) false
      (λ input.
        input.client == window.client && activation_timestamp time s.last_input_time env.now)
      refl
      (λ input e. rw (u, no_time_allowed time env.now) (and_false (input.client == window.client)))

run-unused :
    (es : List ModelEvent) (s : ModelState) (h : Host)
    → All (λ e. is_input e ≡ false) es
    → s.last_input_time ≡ 0
    → (model_run es (s, h)).0.last_input_time ≡ 0
unfolding model_run
run-unused [] s h a u = u
run-unused (e ∷ es) s h (n, a) u =
    run-unused es (model_step e s).0 (host_after (starts_anew e) h (model_step e s).1) a
      (model_step-unused e s n u)

-- An activation uses up the input that it may rest on: after _NET_ACTIVE_WINDOW for a window that has a
-- record, while the model is the window manager, no client's activation is allowed, whatever else
-- happens, until there is new input.
pub root_message-once :
    (env : ModelEnv) (s t : ModelState) (m : RootMessage) (window : ModelWindow)
    (es : List ModelEvent) (h : Host) (later : ModelEnv) (other : ModelWindow) (time : ℕ)
    → (s.manager == 0) ≡ false
    → (m.kind == env.atom net_active_window) ≡ true
    → (if m.window == 0 then none else env.lookup m.window) ≡ some window
    → record_for env s window ≡ some t
    → All (λ e. is_input e ≡ false) es
    → may_activate later (model_run es ((root_message env s m).0.0, h)).0 other time ≡ false
unfolding root_message answer_message ask_activation
root_message-once env s t m window es h later other time manager kind found recorded quiet =
    let used : (root_message env s m).0.0.last_input_time ≡ 0 =
      rw (root_message, manager, found, recorded, answer_message, kind) refl in
    unused-may_activate later (model_run es ((root_message env s m).0.0, h)).0 other time
      (run-unused es (root_message env s m).0.0 h quiet used)

-- The atoms of a list that are neither of two, as often and in the same order.
pub data Others (first second : ℕ) : List ℕ → List ℕ → Type 0 where
  no_more : Others first second [] []
  left_out :
      {a : ℕ} {atoms others : List ℕ}
      → (a ≡ first) ⊎ (a ≡ second)
      → Others first second atoms others
      → Others first second (a ∷ atoms) others
  kept :
      {a : ℕ} {atoms others : List ℕ}
      → a ≢ first
      → a ≢ second
      → Others first second atoms others
      → Others first second (a ∷ atoms) (a ∷ others)

either_of : (a b c : ℕ) → (a == b || a == c) ≡ true → (a ≡ b) ⊎ (a ≡ c)
either_of a b c h = ground arith

neither_of : (a b c : ℕ) → (a == b || a == c) ≡ false → (a ≢ b) × (a ≢ c)
neither_of a b c h = (ground arith, ground arith)

without_states-Others :
    (first second : ℕ) (atoms : List ℕ)
    → Others first second atoms (without_states first second atoms)
unfolding without_states
without_states-Others first second [] = no_more
without_states-Others first second (a ∷ rest) =
    let later = without_states-Others first second rest in
    if-both (λ (l : List ℕ). Others first second (a ∷ rest) l) (a == first || a == second)
      (without_states first second rest) (a ∷ without_states first second rest)
      (λ e. left_out (either_of a first second e) later)
      (λ e. let (n, m) = neither_of a first second e in kept n m later)

if_set_lem : (b : Bool) (a : ℕ) → if_set b a ≡ (if b then a ∷ [] else [])
if_set_lem true a = refl
if_set_lem false a = refl

-- The words that a confirmation gives to _NET_WM_STATE: first the atoms that were there and are neither
-- of the two states, as often and in the same order; then the first state if it is set, and then the
-- second if it is set. The two may be one state.
pub states_with-sets :
    (env : ModelEnv) (window : ModelWindow) (first second : ℕ) (b c : Bool)
    → (others : List ℕ) × (Others first second
          (atoms_of (typed_items (window.property net_wm_state) xa_atom))
          others
        × (states_with env window first second b c
            ≡ others ++ ((if b then first ∷ [] else []) ++ (if c then second ∷ [] else []))))
unfolding states_with
states_with-sets env window first second b c =
    let old = atoms_of (typed_items (window.property net_wm_state) xa_atom) in
    (
      without_states first second old,
      (without_states-Others first second old, rw (if_set_lem b first, if_set_lem c second) refl),
    )
