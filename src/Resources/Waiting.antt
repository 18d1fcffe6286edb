-- ===== src/Resources/Waiting.antt =====
-- How many connections wait for admission in resource_channel.c, and who owns their descriptors.
use magicdesk_x.Prelude.{
  ℕ, zero, suc, ◌+◌, ◌≤◌, ◌≡◌, refl, ap, inl, inr, Bool, true, false, not, ◌&&◌, ◌||◌, Option, none,
  some, List, [], ◌∷◌, ◌++◌, arith, leb, ◌==◌, Bool-cases, if-both, length, get_elem?,
}
use magicdesk_x.Resources.{
  eintr, eagain, Message, ResourceEffect, Taken, close_opt, is_zero, receive,
}
use magicdesk_x.Resources.Channel.{ResourceClient, again}
use magicdesk_x.Resources.Taking.{
  one, held, installed, released, installed-append, released-append, closed_two, receive-IsReceived,
  filled,
}
use magicdesk_x.Resources.Ownership.{entry_owns, Balanced, Balanced-append, again_nonzero}
use magicdesk_x.Resources.Admission.{
  Admissions, without, forget, AdmissionOutcome, discard_admission, resources_accept, admitted,
  with_effects, endpoint_error, admit_channel, Peek, peek_failed, peeked, ended, admit,
}

-- What happens to the connections; an event of an admission names its place.
pub data AdmissionEvent : Type 0 where
  accepted : ℕ → Bool → Bool → Bool → AdmissionEvent
  readable : ℕ → Peek → Message → Bool → Bool → Option ℕ → AdmissionEvent
  admission_expired : ℕ → AdmissionEvent

abbrev at_place : Admissions → Option ℕ → (ℕ → AdmissionOutcome) → AdmissionOutcome
at_place s none act = (s, (none, []))
at_place s (some fd) act = act fd

unfoldable pub admission_step : ℕ → Admissions → AdmissionEvent → AdmissionOutcome
unfolding resources_accept admit discard_admission
admission_step max_clients s (accepted fd memory timer watch) =
    resources_accept max_clients s fd memory timer watch
admission_step max_clients s (readable n peek message seqpacket memory client) =
    at_place s (get_elem? s.waiting n) (λ fd. admit s n fd peek message seqpacket memory client)
admission_step max_clients s (admission_expired n) =
    at_place s (get_elem? s.waiting n) (λ fd. discard_admission s n fd)

-- The counter is right and stays below the limit.
pub record IsCounted (max_clients : ℕ) (s : Admissions) : Type 0 where
  pub counted : s.admissions ≡ length s.waiting
  pub bounded : s.admissions ≤ max_clients

length-without :
    (n : ℕ) (xs : List ℕ) (fd : ℕ)
    → get_elem? xs n ≡ some fd
    → length (without n xs) + 1 ≡ length xs
unfolding without
length-without n [] fd h = absurd cc
length-without zero (x ∷ xs) fd h = omega arith
length-without (suc n) (x ∷ xs) fd h = omega (arith, length-without n xs fd h)

-- How often a descriptor waits.
abbrev pub all_held : ℕ → List ℕ → ℕ
all_held d [] = 0
all_held d (fd ∷ fds) = one d fd + all_held d fds

all_held-without :
    (d n : ℕ) (xs : List ℕ) (fd : ℕ)
    → get_elem? xs n ≡ some fd
    → all_held d (without n xs) + one d fd ≡ all_held d xs
unfolding without
all_held-without d n [] fd h = absurd cc
all_held-without d zero (x ∷ xs) fd h =
    let e : x ≡ fd = ap (λ (o : Option ℕ). elim o [ none ↦ 0 | some y ↦ y ]) h in rw e (omega arith)
all_held-without d (suc n) (x ∷ xs) fd h = omega (arith, all_held-without d n xs fd h)

forget-IsCounted :
    (max_clients n fd : ℕ) (s : Admissions)
    → get_elem? s.waiting n ≡ some fd
    → IsCounted max_clients s
    → IsCounted max_clients (forget s n)
unfolding forget
forget-IsCounted max_clients n fd s h v =
    let l = length-without n s.waiting fd h in
    let c = v.counted in
    let b = v.bounded in record { counted = omega arith; bounded = omega arith }

abbrev pub channel_of : Option (ℕ × ResourceClient) → Option ResourceClient
channel_of none = none
channel_of (some (client, r)) = some r

-- The balance of an operation: what waits, and what the new client's channel owns.
abbrev Kept : ℕ → ℕ → ℕ → AdmissionOutcome → Type 0
Kept d max_clients before (s, (entry, effects)) =
    IsCounted max_clients s
    × Balanced d before (all_held d s.waiting + entry_owns d (channel_of entry)) effects

nothing-Kept :
    (d max_clients : ℕ) (s : Admissions)
    → IsCounted max_clients s
    → Kept d max_clients (all_held d s.waiting) (s, (none, []))
unfolding installed released
nothing-Kept d max_clients s v = (v, omega arith)

discard-Kept :
    (d max_clients n fd : ℕ) (s : Admissions)
    → get_elem? s.waiting n ≡ some fd
    → IsCounted max_clients s
    → Kept d max_clients (all_held d s.waiting) (discard_admission s n fd)
unfolding discard_admission forget installed released
discard-Kept d max_clients n fd s h v =
    (forget-IsCounted max_clients n fd s h v, omega (arith, all_held-without d n s.waiting fd h))

accept-Kept :
    (d max_clients fd : ℕ) (s : Admissions) (memory timer watch : Bool)
    → IsCounted max_clients s
    → Kept d max_clients
        (all_held d s.waiting)
        (resources_accept max_clients s fd memory timer watch)
unfolding resources_accept forget without installed released
accept-Kept d max_clients fd s memory timer watch v =
    let P = Kept d max_clients (all_held d s.waiting) in
    let t : Admissions = record { waiting = fd ∷ s.waiting; admissions = s.admissions + 1 } in
    if-both P (leb max_clients s.admissions || not memory) _ _ (λ e. (v, omega arith))
      (λ e.
        let c = v.counted in
        let w : IsCounted max_clients t = record {
          counted = omega arith;
          bounded = ground arith;
        } in
        if-both P (not timer || not watch) _ _
          (λ f. (forget-IsCounted max_clients 0 fd t refl w, omega arith)) (λ f. (w, omega arith)))

admitted-Kept :
    (d max_clients n fd : ℕ) (s : Admissions) (channel client : Option ℕ)
    → get_elem? s.waiting n ≡ some fd
    → IsCounted max_clients s
    → Kept d max_clients (all_held d s.waiting + held d channel) (admitted s n fd channel client)
unfolding forget installed released
admitted-Kept d max_clients n fd s none client h v =
    (forget-IsCounted max_clients n fd s h v, omega (arith, all_held-without d n s.waiting fd h))
admitted-Kept d max_clients n fd s (some c) none h v =
    (forget-IsCounted max_clients n fd s h v, omega (arith, all_held-without d n s.waiting fd h))
admitted-Kept d max_clients n fd s (some c) (some client) h v =
    (forget-IsCounted max_clients n fd s h v, omega (arith, all_held-without d n s.waiting fd h))

plain-Kept :
    (d max_clients n fd : ℕ) (s : Admissions) (client : Option ℕ)
    → get_elem? s.waiting n ≡ some fd
    → IsCounted max_clients s
    → Kept d max_clients (all_held d s.waiting) (admitted s n fd none client)
plain-Kept d max_clients n fd s client h v =
    let (c, b) = admitted-Kept d max_clients n fd s none client h v in (c, omega arith)

with_effects-Kept :
    (d max_clients before between : ℕ) (effects : List ResourceEffect) (o : AdmissionOutcome)
    → Balanced d before between effects
    → Kept d max_clients between o
    → Kept d max_clients before (with_effects effects o)
with_effects-Kept d max_clients before between effects (s, (entry, more)) b (v, k) =
    (v, Balanced-append d before between _ effects more b k)

endpoint_ok :
    (t : Taken) (seqpacket memory : Bool)
    → not (is_zero (endpoint_error t seqpacket memory)) ≡ false
    → (is_zero t.error ≡ true) × ((t.count == 1) ≡ true)
endpoint_ok t seqpacket memory h = elim (Bool-cases (is_zero t.error)) [
  | inl e ↦ elim (Bool-cases (not (t.count == 1) || not seqpacket)) [
    | inl f ↦ let bad = rw (e, f) at h in absurd cc
    | inr f ↦ (e, ground arith)
  ]
  | inr e ↦ let bad = rw (e, e) at h in absurd cc
]

filled_one : (n : ℕ) (a b : Option ℕ) → filled n a b ≡ true → (n == 1) ≡ true → b ≡ none
filled_one n none none f e = refl
filled_one n (some a) none f e = refl
filled_one n none (some b) f e = absurd cc
filled_one n (some a) (some b) f e = absurd (ground arith)

admit_channel-Kept :
    (d max_clients n fd : ℕ) (s : Admissions) (m : Message) (seqpacket memory : Bool)
    (client : Option ℕ)
    → get_elem? s.waiting n ≡ some fd
    → IsCounted max_clients s
    → Kept d max_clients (all_held d s.waiting) (admit_channel s n fd m seqpacket memory client)
unfolding admit_channel
admit_channel-Kept d max_clients n fd s m seqpacket memory client h v =
    let t = receive 1 m in
    let r = receive-IsReceived d 1 m in
    let b = r.balance in
    let before = all_held d s.waiting in
    let P = Kept d max_clients before in
    if-both P (again t.error) _ _
      (λ e.
        let (x, y) = r.nothing (again_nonzero t.error e) in
        let c : installed d t.effects ≡ held d none + held d none + released d t.effects =
          rw (x, y) at b in
        (v, omega arith))
      (λ e.
        if-both P (not (is_zero (endpoint_error t seqpacket memory))) _ _
          (λ f.
            let back = close_opt t.first ++ close_opt t.second in
            let (c, k) = closed_two d t.first t.second in
            with_effects-Kept d max_clients before before (t.effects ++ back)
              (discard_admission s n fd)
              (omega (arith, installed-append d t.effects back, released-append d t.effects back))
              (discard-Kept d max_clients n fd s h v))
          (λ f.
            let (ok, count) = endpoint_ok t seqpacket memory f in
            let y = filled_one t.count t.first t.second (r.shape ok) count in
            let c : installed d t.effects ≡ held d t.first + held d none + released d t.effects =
              rw y at b in
            with_effects-Kept d max_clients before (before + held d t.first) t.effects
              (admitted s n fd t.first client) (omega arith)
              (admitted-Kept d max_clients n fd s t.first client h v)))

admit-Kept :
    (d max_clients n fd : ℕ) (s : Admissions) (peek : Peek) (m : Message) (seqpacket memory : Bool)
    (client : Option ℕ)
    → get_elem? s.waiting n ≡ some fd
    → IsCounted max_clients s
    → Kept d max_clients (all_held d s.waiting) (admit s n fd peek m seqpacket memory client)
unfolding admit
admit-Kept d max_clients n fd s (peek_failed number) m seqpacket memory client h v =
    if-both (Kept d max_clients (all_held d s.waiting)) (number == eintr || number == eagain) _ _
      (λ e. nothing-Kept d max_clients s v) (λ e. discard-Kept d max_clients n fd s h v)
admit-Kept d max_clients n fd s ended m seqpacket memory client h v =
    discard-Kept d max_clients n fd s h v
admit-Kept d max_clients n fd s (peeked byte) m seqpacket memory client h v =
    let P = Kept d max_clients (all_held d s.waiting) in
    if-both P (byte == b'R') _ _
      (λ e. admit_channel-Kept d max_clients n fd s m seqpacket memory client h v)
      (λ e.
        if-both P (not (byte == b'l') && not (byte == b'B')) _ _
          (λ f. discard-Kept d max_clients n fd s h v)
          (λ f. plain-Kept d max_clients n fd s client h v))

at_place-Kept :
    (d max_clients : ℕ) (s : Admissions) (place : Option ℕ) (act : ℕ → AdmissionOutcome)
    → IsCounted max_clients s
    → ((fd : ℕ) → place ≡ some fd → Kept d max_clients (all_held d s.waiting) (act fd))
    → Kept d max_clients (all_held d s.waiting) (at_place s place act)
at_place-Kept d max_clients s none act v k = nothing-Kept d max_clients s v
at_place-Kept d max_clients s (some fd) act v k = k fd refl

-- Whatever happens to the connections that wait, their counter is their number, at most the
-- X server's limit, and each descriptor that waited or came in still waits, belongs to the channel of
-- a client that was admitted, or has been closed or handed to the X server, once.
pub admission_step-Kept :
    (d max_clients : ℕ) (s : Admissions) (event : AdmissionEvent)
    → IsCounted max_clients s
    → let (t, (entry, effects)) = admission_step max_clients s event in
      IsCounted max_clients t
      × (all_held d s.waiting + installed d effects
          ≡ all_held d t.waiting + entry_owns d (channel_of entry) + released d effects)
unfolding admission_step
admission_step-Kept d max_clients s (accepted fd memory timer watch) v =
    accept-Kept d max_clients fd s memory timer watch v
admission_step-Kept d max_clients s (readable n peek m seqpacket memory client) v =
    at_place-Kept d max_clients s (get_elem? s.waiting n) _ v
      (λ fd h. admit-Kept d max_clients n fd s peek m seqpacket memory client h v)
admission_step-Kept d max_clients s (admission_expired n) v =
    at_place-Kept d max_clients s (get_elem? s.waiting n) _ v
      (λ fd h. discard-Kept d max_clients n fd s h v)
