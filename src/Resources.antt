-- ===== src/Resources.antt =====
-- The resource channel of a client: resource_channel.c under lorie/src/main/cpp/lorie. A descriptor is
-- a number, and -1 is `none`. What the kernel hands over in a message and what the code closes are
-- effects, so that it can be counted who owns a descriptor. This file has the messages; the operations
-- on a client and on a connection that waits for admission are below.
pub mod Channel
pub mod Admission
pub mod Taking
pub mod Ownership
pub mod Waiting
pub mod Runs
pub mod Deadline
pub mod Answers
mod Tests
use magicdesk_x.Prelude.{
  ℕ, zero, suc, ◌+◌, ◌-◌, ◌*◌, ◌/◌, ◌%◌, ◌^◌, ◌≤◌, ◌<◌, min, max, ◌≡◌, refl, sym, ap, ◌∙◌, ◌≢◌, ◌↔◌,
  ◌⊎◌, inl, inr, Bool, true, false, not, ◌&&◌, ◌||◌, Option, none, some, List, [], ◌∷◌, ◌++◌, map,
  arith, ltb, leb, ◌==◌, if◌then◌else◌, ltb→lt, lt→ltb, leb→le, ==_iff, tests, Bool-cases,
  Option-cases, length, get_elem?, get_or, set, replicate, length-append, length-set,
  get_or-default, get_or-set_self, get_or-set_ne, All,
}
use magicdesk_x.Prelude.Int.{
  ℤ, pos, negsuc, pos_part, neg_part, sub_ℕ, ◌+ℤ◌, ◌-ℤ◌, ◌≤ℤ◌, ◌<ℤ◌, ltb_ℤ, leb_ℤ, eqb_ℤ, max_ℤ,
  min_ℤ, lt_ℤ-cases, int_laws, neg_part_of_le, negative_part, no_negative_part, +ℤ_parts, -ℤ_parts,
  eq_of_parts,
}
use magicdesk_x.Prelude.Bits.{has_bit, set_bit, clear_bit}

-- `-n` for an error number.
abbrev pub errno : ℕ → ℤ
errno n = negsuc (n - 1)

abbrev pub eintr : ℕ
eintr = 4

abbrev pub eagain : ℕ
eagain = 11

abbrev pub enomem : ℕ
enomem = 12

abbrev pub epipe : ℕ
epipe = 32

abbrev pub eproto : ℕ
eproto = 71

abbrev pub enotsup : ℕ
enotsup = 95

abbrev pub etimedout : ℕ
etimedout = 110

-- A control message: descriptors, or anything else. The kernel installs whole descriptors only.
pub data Control : Type 0 where
  rights : List ℕ → Control
  other_control : Control

-- `struct lorie_resource_request` but for its constants, and `struct lorie_resource_reply`.
pub record Request : Type 0 where
  pub id : ℕ
  pub flags : ℕ

pub record Reply : Type 0 where
  pub error : ℤ
  pub reserved : ℕ
  pub size : ℕ

-- What recvmsg gives: a failure, or how many bytes, whether it was cut, and the parts.
pub data Message : Type 0 where
  failed : ℕ → Message
  packet : ℕ → Bool → List Control → Reply → Message

pub data ResourceEffect : Type 0 where
  install_fd close_fd hand_over : ℕ → ResourceEffect
  attend : ResourceEffect
  send_request : Request → ResourceEffect
  add_client : ℕ → ResourceEffect

-- `fds`, `*count` and `error` of `receive`, with what it has done.
pub record Taken : Type 0 where
  pub error : ℤ
  pub count : ℕ
  pub first : Option ℕ
  pub second : Option ℕ
  pub effects : List ResourceEffect

abbrev pub close_opt : Option ℕ → List ResourceEffect
close_opt none = []
close_opt (some fd) = close_fd fd ∷ []

abbrev pub take_fd : Taken → ℕ → Taken
take_fd t fd =
    if t.count == 0
    then record t { first = some fd; count = 1; effects = t.effects ++ (install_fd fd ∷ []) }
    else if t.count == 1
    then record t { second = some fd; count = 2; effects = t.effects ++ (install_fd fd ∷ []) }
    else record t {
      error = errno eproto;
      effects = t.effects ++ (install_fd fd ∷ (close_fd fd ∷ []));
    }

unfoldable pub take_fds : List ℕ → Taken → Taken
take_fds [] t = t
take_fds (fd ∷ fds) t = take_fds fds (take_fd t fd)

unfoldable pub take_controls : List Control → Taken → Taken
unfolding take_fds
take_controls [] t = t
take_controls (other_control ∷ rest) t = take_controls rest (record t { error = errno eproto })
take_controls (rights fds ∷ rest) t = take_controls rest (take_fds fds t)

-- `close_rights` on what was taken.
abbrev pub given_back : Taken → Taken
given_back t = record t {
  first = none;
  second = none;
  effects = t.effects ++ (close_opt t.first ++ close_opt t.second);
}

abbrev pub is_zero : ℤ → Bool
is_zero z = eqb_ℤ z (pos 0)

abbrev pub nothing_taken : ℤ → Taken
nothing_taken error = record { error = error; count = 0; first = none; second = none; effects = [] }

-- After the loops: the length is compared, and an error gives everything back.
abbrev pub settled : Bool → Taken → Taken
settled whole t =
    let u = if whole then t else record t { error = errno eproto } in
    if is_zero u.error then u else given_back u

-- `receive`.
unfoldable pub receive : ℕ → Message → Taken
unfolding take_controls
receive size (failed number) = nothing_taken (errno number)
receive size (packet n cut controls reply) =
    settled (n == size)
      (take_controls controls (nothing_taken (if cut then errno eproto else pos 0)))
