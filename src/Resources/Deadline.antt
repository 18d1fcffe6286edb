-- ===== src/Resources/Deadline.antt =====
-- The deadline of a client's channel in resource_channel.c: while a request waits, its timer runs.
use magicdesk_x.Prelude.{
  ℕ, ◌≡◌, Bool, true, false, not, ◌||◌, Option, none, some, List, [], ◌∷◌, arith, ◌==◌, if-both,
}
use mathlib.Core.Path.{subst}
use magicdesk_x.Prelude.Int.{ℤ}
use magicdesk_x.Resources.{
  errno, eintr, eagain, enomem, epipe, etimedout, Message, ResourceEffect, receive, is_zero,
}
use magicdesk_x.Resources.Channel.{
  ResourceClient, ResourceOutcome, finish, reply_of, checked_error, again, receive_reply,
  SendResult, sent_bytes, send_failed, reading, requested, progress, Answer, answered, asked,
  resources_shm, ResourceEvent, progressed, expired, client_gone, shm_asked, client_step,
  client_run, flags_of, is_some, entry_of,
}
use magicdesk_x.Resources.Admission.{new_client}

-- A request that waits for its reply has a timer that runs.
abbrev pub IsArmed : ResourceClient → Type 0
IsArmed r = r.pending ≡ true → r.ready ≡ false → r.armed ≡ true

abbrev IsArmedOutcome : ResourceOutcome → Type 0
IsArmedOutcome x = IsArmed x.0

abbrev IsArmedAnswer : ResourceClient × (Answer × List ResourceEffect) → Type 0
IsArmedAnswer x = IsArmed x.0

abbrev IsArmedEntry : Option ResourceClient → Type 0
IsArmedEntry none = Unit
IsArmedEntry (some r) = IsArmed r

finish-IsArmed : (r : ResourceClient) (error : ℤ) → IsArmed (finish r error).0
unfolding finish
finish-IsArmed r error p q = absurd cc

receive_reply-IsArmed :
    (r : ResourceClient) (m : Message) → IsArmed r → IsArmed (receive_reply r m).0
unfolding receive_reply
receive_reply-IsArmed r m a =
    let t = receive 16 m in
    let s : ResourceClient = record r {
      first = t.first;
      second = t.second;
      reply = reply_of m r.reply;
    } in
    if-both IsArmedOutcome (again t.error) _ _ (λ e. a)
      (λ e. finish-IsArmed s (checked_error t (reply_of m r.reply)))

requested-IsArmed :
    (r : ResourceClient) (send : SendResult) (watch : Bool) (m : Message)
    → IsArmed r
    → IsArmed (requested r send watch m).0
requested-IsArmed r (send_failed number) watch m a =
    if-both IsArmedOutcome (number == eintr || number == eagain) _ _ (λ e. a)
      (λ e. finish-IsArmed r (errno epipe))
requested-IsArmed r (sent_bytes n) watch m a =
    let s : ResourceClient = record r { sent = true } in
    let t : ResourceClient = record r { sent = true; watched = some reading } in
    if-both IsArmedOutcome (not (n == 16)) _ _ (λ e. finish-IsArmed r (errno epipe))
      (λ e.
        if-both IsArmedOutcome watch (receive_reply t m) _ (λ w. receive_reply-IsArmed t m a)
          (λ w. finish-IsArmed s (errno enomem)))

progress-IsArmed :
    (r : ResourceClient) (send : SendResult) (watch : Bool) (m : Message)
    → IsArmed r
    → IsArmed (progress r send watch m).0
unfolding progress
progress-IsArmed r send watch m a =
    if-both IsArmedOutcome r.sent (receive_reply r m) (requested r send watch m)
      (λ e. receive_reply-IsArmed r m a) (λ e. requested-IsArmed r send watch m a)

answered-IsArmed :
    (r : ResourceClient) (id : ℕ) (readonly : Bool) → IsArmed (answered r id readonly).0
unfolding answered
answered-IsArmed r id readonly =
    if-both IsArmedAnswer (not (r.request.id == id) || not (r.request.flags == flags_of readonly)) _
      _ (λ e p q. absurd cc)
      (λ e.
        if-both IsArmedAnswer (not (is_zero r.reply.error)) _ _ (λ f p q. absurd cc)
          (λ f p q. absurd cc))

asked-IsArmed :
    (r : ResourceClient) (id : ℕ) (readonly timer watch : Bool)
    → r.pending ≡ false
    → IsArmed (asked r id readonly timer watch).0
unfolding asked
asked-IsArmed r id readonly timer watch w =
    if-both IsArmedAnswer (not timer || not watch) _ _ (λ e p q. absurd (cc (w, p)))
      (λ e p q. ground arith)

option-IsArmed :
    (o : Option ℕ) (x y : ResourceClient × (Answer × List ResourceEffect))
    → IsArmedAnswer x
    → IsArmedAnswer y
    → IsArmedAnswer (elim o [ none ↦ x | some fd ↦ y ])
option-IsArmed none x y p q = p
option-IsArmed (some fd) x y p q = q

resources_shm-IsArmed :
    (r : ResourceClient) (id : ℕ) (readonly timer watch : Bool)
    → IsArmed r
    → IsArmed (resources_shm r id readonly timer watch).0
unfolding resources_shm
resources_shm-IsArmed r id readonly timer watch a =
    if-both IsArmedAnswer r.ready _ _ (λ e. answered-IsArmed r id readonly)
      (λ e. option-IsArmed r.fd _ _ a (
        if-both IsArmedAnswer r.pending _ _ (λ w. a)
          (λ w. asked-IsArmed r id readonly timer watch w)))

client_step-IsArmed :
    (s : Option ResourceClient) (event : ResourceEvent)
    → IsArmedEntry s
    → IsArmedEntry (client_step s event).0
unfolding client_step
client_step-IsArmed none event a = tt
client_step-IsArmed (some r) (progressed send watch m) a =
    if-both (λ (x : Option ResourceClient × List ResourceEffect). IsArmedEntry x.0)
      (is_some r.watched) (entry_of (progress r send watch m)) (some r, [])
      (λ w. progress-IsArmed r send watch m a) (λ w. a)
client_step-IsArmed (some r) expired a =
    if-both (λ (x : Option ResourceClient × List ResourceEffect). IsArmedEntry x.0) r.armed
      (entry_of (finish r (errno etimedout))) (some r, []) (λ w. finish-IsArmed r (errno etimedout))
      (λ w. a)
client_step-IsArmed (some r) client_gone a = tt
client_step-IsArmed (some r) (shm_asked id readonly timer watch) a =
    resources_shm-IsArmed r id readonly timer watch a

client_run-IsArmed :
    (s : Option ResourceClient) (events : List ResourceEvent)
    → IsArmedEntry s
    → IsArmedEntry (client_run s events).0
unfolding client_run
client_run-IsArmed s [] a = a
client_run-IsArmed s (event ∷ events) a =
    client_run-IsArmed (client_step s event).0 events (client_step-IsArmed s event a)

-- In every state that a client's channel comes to, from its admission, a request that waits has a timer
-- that runs.
pub reached-IsArmed :
    (channel : Option ℕ) (events : List ResourceEvent) (r : ResourceClient)
    → (client_run (some (new_client channel)) events).0 ≡ some r
    → IsArmed r
reached-IsArmed channel events r e =
    subst IsArmedEntry e (client_run-IsArmed (some (new_client channel)) events (λ p q. absurd cc))
