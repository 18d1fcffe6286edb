-- ===== src/Resources/Taking.antt =====
-- What `receive` of resource_channel.c takes out of a message and what it closes.
use magicdesk_x.Prelude.{
  ℕ, ◌+◌, ◌≡◌, refl, inl, inr, Bool, true, false, Option, none, some, List, [], ◌∷◌, ◌++◌, arith,
  ◌==◌, if◌then◌else◌, Bool-cases,
}
use magicdesk_x.Prelude.Int.{ℤ, pos}
use magicdesk_x.Resources.{
  errno, eproto, Control, rights, other_control, Message, failed, packet, ResourceEffect,
  install_fd, close_fd, hand_over, attend, send_request, add_client, Taken, close_opt, take_fd,
  take_fds, take_controls, given_back, is_zero, nothing_taken, settled, receive,
}

abbrev pub one : ℕ → ℕ → ℕ
one d fd = if fd == d then 1 else 0

abbrev pub held : ℕ → Option ℕ → ℕ
held d none = 0
held d (some fd) = one d fd

-- How often a descriptor comes in, and how often it goes.
unfoldable pub installed : ℕ → List ResourceEffect → ℕ
installed d [] = 0
installed d (install_fd fd ∷ rest) = one d fd + installed d rest
installed d (_ ∷ rest) = installed d rest

unfoldable pub released : ℕ → List ResourceEffect → ℕ
released d [] = 0
released d (close_fd fd ∷ rest) = one d fd + released d rest
released d (hand_over fd ∷ rest) = one d fd + released d rest
released d (_ ∷ rest) = released d rest

pub installed-append :
    (d : ℕ) (a b : List ResourceEffect) → installed d (a ++ b) ≡ installed d a + installed d b
unfolding installed
installed-append d [] b = omega arith
installed-append d (install_fd fd ∷ a) b = omega (arith, installed-append d a b)
installed-append d (close_fd fd ∷ a) b = installed-append d a b
installed-append d (hand_over fd ∷ a) b = installed-append d a b
installed-append d (attend ∷ a) b = installed-append d a b
installed-append d (send_request q ∷ a) b = installed-append d a b
installed-append d (add_client fd ∷ a) b = installed-append d a b

pub released-append :
    (d : ℕ) (a b : List ResourceEffect) → released d (a ++ b) ≡ released d a + released d b
unfolding released
released-append d [] b = omega arith
released-append d (install_fd fd ∷ a) b = released-append d a b
released-append d (close_fd fd ∷ a) b = omega (arith, released-append d a b)
released-append d (hand_over fd ∷ a) b = omega (arith, released-append d a b)
released-append d (attend ∷ a) b = released-append d a b
released-append d (send_request q ∷ a) b = released-append d a b
released-append d (add_client fd ∷ a) b = released-append d a b

-- The count tells which of the two places are filled.
abbrev pub filled : ℕ → Option ℕ → Option ℕ → Bool
filled n none none = n == 0
filled n (some a) none = n == 1
filled n none (some b) = false
filled n (some a) (some b) = n == 2

-- What was taken is what came in less what was closed.
pub record IsTaken (d : ℕ) (t : Taken) : Type 0 where
  pub balance : installed d t.effects ≡ held d t.first + held d t.second + released d t.effects
  pub shape : filled t.count t.first t.second ≡ true

take_at :
    (d count : ℕ) (error : ℤ) (first second : Option ℕ) (effects : List ResourceEffect) (fd : ℕ)
    → installed d effects ≡ held d first + held d second + released d effects
    → filled count first second ≡ true
    → IsTaken d (
        take_fd
          (record {
            error = error;
            count = count;
            first = first;
            second = second;
            effects = effects;
          })
          fd)
unfolding installed released
take_at d count error none none effects fd b s =
    let e : count ≡ 0 = ground arith in
    let i = installed-append d effects (install_fd fd ∷ []) in
    let r = released-append d effects (install_fd fd ∷ []) in
    rw e (record { balance = omega arith; shape = refl })
take_at d count error (some a) none effects fd b s =
    let e : count ≡ 1 = ground arith in
    let i = installed-append d effects (install_fd fd ∷ []) in
    let r = released-append d effects (install_fd fd ∷ []) in
    rw e (record { balance = omega arith; shape = refl })
take_at d count error none (some c) effects fd b s = absurd cc
take_at d count error (some a) (some c) effects fd b s =
    let e : count ≡ 2 = ground arith in
    let i = installed-append d effects (install_fd fd ∷ (close_fd fd ∷ [])) in
    let r = released-append d effects (install_fd fd ∷ (close_fd fd ∷ [])) in
    rw e (record { balance = omega arith; shape = refl })

take_fds-IsTaken : (d : ℕ) (fds : List ℕ) (t : Taken) → IsTaken d t → IsTaken d (take_fds fds t)
unfolding take_fds
take_fds-IsTaken d [] t v = v
take_fds-IsTaken d (fd ∷ fds) t v =
    take_fds-IsTaken d fds (take_fd t fd)
      (take_at d t.count t.error t.first t.second t.effects fd v.balance v.shape)

take_controls-IsTaken :
    (d : ℕ) (controls : List Control) (t : Taken)
    → IsTaken d t
    → IsTaken d (take_controls controls t)
unfolding take_controls
take_controls-IsTaken d [] t v = v
take_controls-IsTaken d (other_control ∷ rest) t v =
    take_controls-IsTaken d rest (record t { error = errno eproto })
      (record { balance = v.balance; shape = v.shape })
take_controls-IsTaken d (rights fds ∷ rest) t v =
    take_controls-IsTaken d rest (take_fds fds t) (take_fds-IsTaken d fds t v)

pub released-close_opt : (d : ℕ) (o : Option ℕ) → released d (close_opt o) ≡ held d o
unfolding released
released-close_opt d none = refl
released-close_opt d (some fd) = omega arith

pub installed-close_opt : (d : ℕ) (o : Option ℕ) → installed d (close_opt o) ≡ 0
unfolding installed
installed-close_opt d none = refl
installed-close_opt d (some fd) = refl

-- Closing two places.
pub closed_two :
    (d : ℕ) (a b : Option ℕ)
    → (released d (close_opt a ++ close_opt b) ≡ held d a + held d b)
      × (installed d (close_opt a ++ close_opt b) ≡ 0)
closed_two d a b = (
  omega (
    arith,
    released-append d (close_opt a) (close_opt b),
    released-close_opt d a,
    released-close_opt d b,
  ),
  omega (
    arith,
    installed-append d (close_opt a) (close_opt b),
    installed-close_opt d a,
    installed-close_opt d b,
  ),
)

-- What `receive` leaves: with an error nothing is kept, else the count tells what is.
pub record IsReceived (d : ℕ) (t : Taken) : Type 0 where
  pub balance : installed d t.effects ≡ held d t.first + held d t.second + released d t.effects
  pub nothing : is_zero t.error ≡ false → (t.first ≡ none) × (t.second ≡ none)
  pub shape : is_zero t.error ≡ true → filled t.count t.first t.second ≡ true

kept_or_back-IsReceived :
    (d : ℕ) (t : Taken) → IsTaken d t → IsReceived d (if is_zero t.error then t else given_back t)
kept_or_back-IsReceived d t v = elim (Bool-cases (is_zero t.error)) [
  | inl e ↦ rw e (record { balance = v.balance; nothing = λ h. absurd cc; shape = λ h. v.shape })
  | inr e ↦
      let (r, i) = closed_two d t.first t.second in
      let ra = released-append d t.effects (close_opt t.first ++ close_opt t.second) in
      let ia = installed-append d t.effects (close_opt t.first ++ close_opt t.second) in
      let b = v.balance in
      rw e (record { balance = omega arith; nothing = λ h. (refl, refl); shape = λ h. absurd cc })
]

settled-IsReceived :
    (d : ℕ) (whole : Bool) (t : Taken) → IsTaken d t → IsReceived d (settled whole t)
settled-IsReceived d true t v = kept_or_back-IsReceived d t v
settled-IsReceived d false t v =
    kept_or_back-IsReceived d (record t { error = errno eproto })
      (record { balance = v.balance; shape = v.shape })

pub receive-IsReceived : (d size : ℕ) (m : Message) → IsReceived d (receive size m)
unfolding receive installed released
receive-IsReceived d size (failed number) = record {
  balance = refl;
  nothing = λ h. (refl, refl);
  shape = λ h. refl;
}
receive-IsReceived d size (packet n cut controls reply) =
    let start = nothing_taken (if cut then errno eproto else pos 0) in
    settled-IsReceived d (n == size) (take_controls controls start)
      (take_controls-IsTaken d controls start (record { balance = refl; shape = refl }))
