-- ===== src/Resources/Runs.antt =====
-- Runs of a client's channel in resource_channel.c, from its admission to the end of the client.
use magicdesk_x.Prelude.{
  ℕ, ◌+◌, ◌≡◌, refl, inl, inr, Bool, true, false, not, ◌&&◌, ◌||◌, Option, none, some, List, [],
  ◌∷◌, ◌++◌, arith, ◌==◌, if◌then◌else◌, not-true, Bool-cases,
}
use magicdesk_x.Resources.{
  errno, eintr, eagain, enomem, epipe, etimedout, Request, Reply, Message, ResourceEffect,
  send_request, is_zero,
}
use magicdesk_x.Resources.Channel.{
  ResourceClient, ResourceOutcome, finish, receive_reply, requested, progress, SendResult,
  sent_bytes, send_failed, reading, hand_over_opt, answered, asked, resources_shm, ResourceEvent,
  progressed, expired, client_gone, shm_asked, client_step, client_run, is_some,
}
use magicdesk_x.Resources.Taking.{
  held, installed, released, installed-append, released-append, released-close_opt,
  installed-close_opt,
}
use magicdesk_x.Resources.Channel.{preceded, client_run, entry_of, Answer, flags_of}
use magicdesk_x.Resources.Ownership.{
  owns, Balanced, Balanced-append, closed_all, finish-Balanced, receive_reply-Balanced,
  answer_sound, IsSound, entry_owns, finish-IsSound, receive_reply-IsSound,
}

-- Both invariants of an operation on a client.
abbrev IsKept : ℕ → ℕ → ResourceOutcome → Type 0
IsKept d before (s, effects) = Balanced d before (owns d s) effects × IsSound s

if-IsKept :
    (d before : ℕ) (b : Bool) (x y : ResourceOutcome)
    → (b ≡ true → IsKept d before x)
    → (b ≡ false → IsKept d before y)
    → IsKept d before (if b then x else y)
if-IsKept d before true x y p q = p refl
if-IsKept d before false x y p q = q refl

preceded-IsKept :
    (d before : ℕ) (q : Request) (x : ResourceOutcome)
    → IsKept d before x
    → IsKept d before (preceded (send_request q) x)
unfolding installed released
preceded-IsKept d before q x k = k

finish-IsKept :
    (d : ℕ) (r : ResourceClient) (number : ℕ)
    → is_zero (errno number) ≡ false
    → IsKept d (owns d r) (finish r (errno number))
finish-IsKept d r number e =
    (finish-Balanced d r (errno number), finish-IsSound r (errno number) (λ z. absurd cc))

receive_reply-IsKept :
    (d : ℕ) (r : ResourceClient) (m : Message)
    → IsSound r
    → r.ready ≡ false
    → IsKept d (owns d r) (receive_reply r m)
receive_reply-IsKept d r m v q =
    let (f, s) = v.quiet q in (receive_reply-Balanced d r m f s, receive_reply-IsSound r m q)

Balanced-nil : (d n : ℕ) → Balanced d n n []
unfolding installed released
Balanced-nil d n = refl

unchanged-IsKept : (d : ℕ) (r : ResourceClient) → IsSound r → IsKept d (owns d r) (r, [])
unfolding installed released
unchanged-IsKept d r v = (refl, v)

requested-IsKept :
    (d : ℕ) (r : ResourceClient) (send : SendResult) (watch : Bool) (m : Message)
    → IsSound r
    → r.ready ≡ false
    → IsKept d (owns d r) (requested r send watch m)
requested-IsKept d r (send_failed number) watch m v q =
    if-IsKept d (owns d r) (number == eintr || number == eagain) _ _ (λ e. unchanged-IsKept d r v)
      (λ e. finish-IsKept d r epipe refl)
requested-IsKept d r (sent_bytes n) watch m v q =
    let s : ResourceClient = record r { sent = true } in
    let t : ResourceClient = record r { sent = true; watched = some reading } in
    let sound : IsSound t = record {
      quiet = v.quiet;
      unwatched = λ h. absurd cc;
      answer = λ h. absurd cc;
    } in
    if-IsKept d (owns d r) (not (n == 16)) _ _ (λ e. finish-IsKept d r epipe refl)
      (λ e. preceded-IsKept d (owns d r) r.request _ (
        if-IsKept d (owns d r) watch _ _ (λ w. receive_reply-IsKept d t m sound q)
          (λ w. finish-IsKept d s enomem refl)))

progress-IsKept :
    (d : ℕ) (r : ResourceClient) (send : SendResult) (watch : Bool) (m : Message)
    → IsSound r
    → r.ready ≡ false
    → IsKept d (owns d r) (progress r send watch m)
unfolding progress
progress-IsKept d r send watch m v q =
    if-IsKept d (owns d r) r.sent (receive_reply r m) (requested r send watch m)
      (λ e. receive_reply-IsKept d r m v q) (λ e. requested-IsKept d r send watch m v q)

-- The same of an operation that returns an answer.
abbrev IsAnswered : ℕ → ℕ → ResourceClient × (Answer × List ResourceEffect) → Type 0
IsAnswered d before (s, (answer, effects)) = Balanced d before (owns d s) effects × IsSound s

if-IsAnswered :
    (d before : ℕ) (b : Bool) (x y : ResourceClient × (Answer × List ResourceEffect))
    → (b ≡ true → IsAnswered d before x)
    → (b ≡ false → IsAnswered d before y)
    → IsAnswered d before (if b then x else y)
if-IsAnswered d before true x y p q = p refl
if-IsAnswered d before false x y p q = q refl

released-hand_over_opt :
    (d : ℕ) (o : Option ℕ)
    → (released d (hand_over_opt o) ≡ held d o) × (installed d (hand_over_opt o) ≡ 0)
unfolding released installed
released-hand_over_opt d none = (refl, refl)
released-hand_over_opt d (some fd) = (omega arith, refl)

handed_two :
    (d : ℕ) (a b : Option ℕ)
    → (released d (hand_over_opt a ++ hand_over_opt b) ≡ held d a + held d b)
      × (installed d (hand_over_opt a ++ hand_over_opt b) ≡ 0)
handed_two d a b =
    let (ra, ia) = released-hand_over_opt d a in
    let (rb, ib) = released-hand_over_opt d b in
    (
      omega (arith, released-append d (hand_over_opt a) (hand_over_opt b)),
      omega (arith, installed-append d (hand_over_opt a) (hand_over_opt b)),
    )

no_rights : (a b : Option ℕ) → (not (is_some a) && not (is_some b)) ≡ true → (a ≡ none) × (b ≡ none)
no_rights none none h = (refl, refl)
no_rights none (some b) h = absurd cc
no_rights (some a) b h = absurd cc

error_empty :
    (reply : Reply) (a b : Option ℕ)
    → answer_sound reply a b ≡ true
    → is_zero reply.error ≡ false
    → (a ≡ none) × (b ≡ none)
error_empty reply a b h e = no_rights a b (rw e at h)

-- An answer takes the rights of a reply that is there and hands them over.
answered-IsAnswered :
    (d : ℕ) (r : ResourceClient) (id : ℕ) (readonly : Bool)
    → IsSound r
    → r.ready ≡ true
    → IsAnswered d (owns d r) (answered r id readonly)
unfolding answered
answered-IsAnswered d r id readonly v q =
    let s : ResourceClient = record r { ready = false; pending = false } in
    let (c, k) = closed_all d s in
    let (h, l) = handed_two d r.first r.second in
    if-IsAnswered d (owns d r)
      (not (r.request.id == id) || not (r.request.flags == flags_of readonly)) _ _
      (λ e. (
        omega arith,
        record { quiet = λ z. (refl, refl); unwatched = λ z. absurd cc; answer = λ z. absurd cc },
      ))
      (λ e.
        if-IsAnswered d (owns d r) (not (is_zero r.reply.error)) _ _
          (λ f. (
            Balanced-nil d (owns d r),
            record {
              quiet = λ z. error_empty r.reply r.first r.second (v.answer q) (not-true _ f);
              unwatched = λ z. absurd cc;
              answer = λ z. absurd cc;
            },
          ))
          (λ f. (
            omega arith,
            record {
              quiet = λ z. (refl, refl);
              unwatched = λ z. absurd cc;
              answer = λ z. absurd cc;
            },
          )))

asked-IsAnswered :
    (d : ℕ) (r : ResourceClient) (id : ℕ) (readonly timer watch : Bool)
    → IsSound r
    → r.ready ≡ false
    → IsAnswered d (owns d r) (asked r id readonly timer watch)
unfolding asked installed released
asked-IsAnswered d r id readonly timer watch v q =
    if-IsAnswered d (owns d r) (not timer || not watch) _ _
      (λ e. (
        omega (arith, released-close_opt d r.fd, installed-close_opt d r.fd),
        record { quiet = v.quiet; unwatched = λ z. refl; answer = λ z. absurd cc },
      ))
      (λ e. (refl, record { quiet = v.quiet; unwatched = λ z. absurd cc; answer = λ z. absurd cc }))

option-IsAnswered :
    (d before : ℕ) (o : Option ℕ) (x y : ResourceClient × (Answer × List ResourceEffect))
    → IsAnswered d before x
    → IsAnswered d before y
    → IsAnswered d before (elim o [ none ↦ x | some fd ↦ y ])
option-IsAnswered d before none x y p q = p
option-IsAnswered d before (some fd) x y p q = q

resources_shm-IsAnswered :
    (d : ℕ) (r : ResourceClient) (id : ℕ) (readonly timer watch : Bool)
    → IsSound r
    → IsAnswered d (owns d r) (resources_shm r id readonly timer watch)
unfolding resources_shm
resources_shm-IsAnswered d r id readonly timer watch v =
    let same = Balanced-nil d (owns d r) in
    if-IsAnswered d (owns d r) r.ready _ _ (λ q. answered-IsAnswered d r id readonly v q)
      (λ q.
        option-IsAnswered d (owns d r) r.fd _ _ (same, v)
          (if-IsAnswered d (owns d r) r.pending _ _ (λ w. (same, v))
            (λ w. asked-IsAnswered d r id readonly timer watch v q)))

abbrev pub IsSoundEntry : Option ResourceClient → Type 0
IsSoundEntry none = Unit
IsSoundEntry (some r) = IsSound r

abbrev pub IsStep : ℕ → ℕ → Option ResourceClient × List ResourceEffect → Type 0
IsStep d before (s, effects) = Balanced d before (entry_owns d s) effects × IsSoundEntry s

entry-IsStep :
    (d before : ℕ) (b : Bool) (r : ResourceClient) (x : ResourceOutcome)
    → before ≡ owns d r
    → IsSound r
    → (b ≡ true → IsKept d before x)
    → IsStep d before (if b then entry_of x else (some r, []))
entry-IsStep d before true r x e v k = k refl
entry-IsStep d before false r x e v k = rw e (Balanced-nil d (owns d r), v)

watched_quiet : (r : ResourceClient) → IsSound r → is_some r.watched ≡ true → r.ready ≡ false
watched_quiet r v w = elim (Bool-cases r.ready) [
  | inl e ↦ let u = v.unwatched e in absurd (ground arith)
  | inr e ↦ e
]

client_step-IsStep :
    (d : ℕ) (s : Option ResourceClient) (event : ResourceEvent)
    → IsSoundEntry s
    → IsStep d (entry_owns d s) (client_step s event)
unfolding client_step
client_step-IsStep d none event v = (Balanced-nil d 0, tt)
client_step-IsStep d (some r) (progressed send watch m) v =
    entry-IsStep d (owns d r) (is_some r.watched) r (progress r send watch m) refl v
      (λ w. progress-IsKept d r send watch m v (watched_quiet r v w))
client_step-IsStep d (some r) expired v =
    entry-IsStep d (owns d r) r.armed r (finish r (errno etimedout)) refl v
      (λ w. finish-IsKept d r etimedout refl)
client_step-IsStep d (some r) client_gone v = let (c, k) = closed_all d r in (omega arith, tt)
client_step-IsStep d (some r) (shm_asked id readonly timer watch) v =
    resources_shm-IsAnswered d r id readonly timer watch v

pub client_run-IsStep :
    (d : ℕ) (s : Option ResourceClient) (events : List ResourceEvent)
    → IsSoundEntry s
    → IsStep d (entry_owns d s) (client_run s events)
unfolding client_run
client_run-IsStep d s [] v = (Balanced-nil d (entry_owns d s), v)
client_run-IsStep d s (event ∷ events) v =
    let (t, effects) = client_step s event in
    let (u, more) = client_run t events in
    let (b, w) = client_step-IsStep d s event v in
    let (c, z) = client_run-IsStep d t events w in
    (Balanced-append d (entry_owns d s) (entry_owns d t) (entry_owns d u) effects more b c, z)

-- Over any run of a client's channel, whatever the messages and the failures are, each descriptor is
-- owned at the end or has been let go just as often as it was owned at the start or has come in: none
-- is lost and none is closed twice. Once the client is gone nothing is owned.
pub client_run-Owned :
    (d : ℕ) (r : ResourceClient) (events : List ResourceEvent)
    → IsSound r
    → let (s, effects) = client_run (some r) events in
      owns d r + installed d effects ≡ entry_owns d s + released d effects
client_run-Owned d r events v = (client_run-IsStep d (some r) events v).0
