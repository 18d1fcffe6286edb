-- ===== src/Resources/Channel.antt =====
-- One client's channel in resource_channel.c: the request, the reply, the deadline and the end.
use magicdesk_x.Prelude.{
  ℕ, Bool, true, false, not, ◌&&◌, ◌||◌, Option, none, some, List, [], ◌∷◌, ◌++◌, ◌==◌,
  if◌then◌else◌,
}
use magicdesk_x.Prelude.Int.{ℤ, pos, ltb_ℤ, eqb_ℤ}
use magicdesk_x.Resources.{
  errno, eintr, eagain, enomem, epipe, eproto, enotsup, etimedout, Request, Reply, Message, failed,
  packet, ResourceEffect, hand_over, attend, send_request, Taken, close_opt, is_zero, receive,
}

pub data Interest : Type 0 where
  reading writing : Interest

-- `struct resource_client`. What `fd` is watched for is part of the state, and whether the timer runs.
pub record ResourceClient : Type 0 where
  pub fd : Option ℕ
  pub watched : Option Interest
  pub pending : Bool
  pub ready : Bool
  pub sent : Bool
  pub first : Option ℕ
  pub second : Option ℕ
  pub request : Request
  pub reply : Reply
  pub armed : Bool

abbrev pub ResourceOutcome : Type 0
ResourceOutcome = ResourceClient × List ResourceEffect

-- `disconnect` and `close_rights`.
abbrev pub closed_down : ResourceClient → ResourceClient
closed_down r = record r { fd = none; watched = none; first = none; second = none }

abbrev pub close_all : ResourceClient → List ResourceEffect
close_all r = close_opt r.fd ++ (close_opt r.first ++ close_opt r.second)

-- The branch of `finish` for an error.
abbrev pub abandoned : ℤ → ResourceClient → ResourceOutcome
abandoned error r = (
  record (closed_down r) { reply = record { error = error; reserved = 0; size = 0 } },
  close_all r,
)

-- `finish`.
unfoldable pub finish : ResourceClient → ℤ → ResourceOutcome
finish r error =
    let stopped = record r { armed = false; watched = none } in
    let (s, closed) = if is_zero error then (stopped, []) else abandoned error stopped in
    (record s { ready = true }, closed ++ (if s.pending then attend ∷ [] else []))

pub data SendResult : Type 0 where
  sent_bytes send_failed : ℕ → SendResult

abbrev pub again : ℤ → Bool
again error = eqb_ℤ error (errno eintr) || eqb_ℤ error (errno eagain)

-- The test of a reply, with how many descriptors came along.
abbrev pub reply_bad : Reply → ℕ → Bool
reply_bad reply count =
    ltb_ℤ (pos 0) reply.error
    || (ltb_ℤ reply.error (errno 4095)
        || (not (reply.reserved == 0)
            || (if is_zero reply.error
                then not (count == 2) || reply.size == 0
                else not (count == 0) || not (reply.size == 0))))

abbrev pub reply_of : Message → Reply → Reply
reply_of (failed number) old = old
reply_of (packet n cut controls reply) old = reply

abbrev pub checked_error : Taken → Reply → ℤ
checked_error t reply = if is_zero t.error && reply_bad reply t.count then errno eproto else t.error

-- The second half of `progress`: the reply is received.
unfoldable pub receive_reply : ResourceClient → Message → ResourceOutcome
unfolding finish receive
receive_reply r message =
    let t = receive 16 message in
    let s = record r { first = t.first; second = t.second; reply = reply_of message r.reply } in
    let (u, effects) = finish s (checked_error t (reply_of message r.reply)) in
    if again t.error then (s, t.effects) else (u, t.effects ++ effects)

abbrev pub preceded : ResourceEffect → ResourceOutcome → ResourceOutcome
preceded effect (r, effects) = (r, effect ∷ effects)

abbrev pub requested : ResourceClient → SendResult → Bool → Message → ResourceOutcome
requested r (send_failed number) watch message =
    if number == eintr || number == eagain then (r, []) else finish r (errno epipe)
requested r (sent_bytes n) watch message =
    if not (n == 16)
    then finish r (errno epipe)
    else preceded (send_request r.request) (
        if watch
        then receive_reply (record r { sent = true; watched = some reading }) message
        else finish (record r { sent = true }) (errno enomem))

-- `progress`; the arguments are what send, SetNotifyFd and recvmsg give.
unfoldable pub progress : ResourceClient → SendResult → Bool → Message → ResourceOutcome
unfolding receive_reply
progress r send watch message =
    if r.sent then receive_reply r message else requested r send watch message

-- What `lorieResourcesShm` returns.
pub record Answer : Type 0 where
  pub error : ℤ
  pub backing : Option ℕ
  pub lease : Option ℕ
  pub size : ℕ

abbrev pub refusal : ℤ → Answer
refusal error = record { error = error; backing = none; lease = none; size = 0 }

-- What a client without a channel is told.
abbrev pub no_channel : Answer
no_channel = refusal (errno enotsup)

abbrev pub hand_over_opt : Option ℕ → List ResourceEffect
hand_over_opt none = []
hand_over_opt (some fd) = hand_over fd ∷ []

abbrev pub flags_of : Bool → ℕ
flags_of true = 1
flags_of false = 0

-- The branch for a reply that is there.
unfoldable pub answered :
    ResourceClient → ℕ → Bool → ResourceClient × (Answer × List ResourceEffect)
answered r id readonly =
    let s = record r { ready = false; pending = false } in
    if not (s.request.id == id) || not (s.request.flags == flags_of readonly)
    then (closed_down s, (refusal (errno eproto), close_all s))
    else if not (is_zero s.reply.error)
    then (s, (refusal s.reply.error, []))
    else (
      record s { first = none; second = none },
      (
        record { error = pos 0; backing = s.first; lease = s.second; size = s.reply.size },
        hand_over_opt s.first ++ hand_over_opt s.second,
      ),
    )

-- The rest: a new request. The arguments are whether the timer and the watch could be set.
unfoldable pub asked :
    ResourceClient → ℕ → Bool → Bool → Bool → ResourceClient × (Answer × List ResourceEffect)
asked r id readonly timer watch =
    let s = record r {
      request = record { id = id; flags = flags_of readonly };
      sent = false;
      armed = timer;
    } in
    if not timer || not watch
    then (record s { fd = none; watched = none }, (refusal (errno enomem), close_opt s.fd))
    else (record s { pending = true; watched = some writing }, (refusal (errno eagain), []))

-- `lorieResourcesShm` for a client that has a channel.
unfoldable pub resources_shm :
    ResourceClient → ℕ → Bool → Bool → Bool → ResourceClient × (Answer × List ResourceEffect)
unfolding answered asked
resources_shm r id readonly timer watch = if r.ready then answered r id readonly else elim (r.fd) [
  | none ↦ (r, (refusal (errno epipe), []))
  | some fd ↦
      if r.pending then (r, (refusal (errno eagain), [])) else asked r id readonly timer watch
]

-- Everything that can happen to the entry of a client; `none` is a client without a channel.
pub data ResourceEvent : Type 0 where
  progressed : SendResult → Bool → Message → ResourceEvent
  expired client_gone : ResourceEvent
  shm_asked : ℕ → Bool → Bool → Bool → ResourceEvent

abbrev pub entry_of : ResourceOutcome → Option ResourceClient × List ResourceEffect
entry_of (r, effects) = (some r, effects)

abbrev pub is_some : {A : Type 0} → Option A → Bool
is_some none = false
is_some (some a) = true

-- One event. A descriptor that is not watched makes no progress, and a timer that does not run does
-- not expire.
unfoldable pub client_step :
    Option ResourceClient → ResourceEvent → Option ResourceClient × List ResourceEffect
unfolding progress finish resources_shm
client_step none event = (none, [])
client_step (some r) (progressed send watch message) =
    if is_some r.watched then entry_of (progress r send watch message) else (some r, [])
client_step (some r) expired =
    if r.armed then entry_of (finish r (errno etimedout)) else (some r, [])
client_step (some r) client_gone = (none, close_all r)
client_step (some r) (shm_asked id readonly timer watch) =
    let (s, (answer, effects)) = resources_shm r id readonly timer watch in (some s, effects)

unfoldable pub client_run :
    Option ResourceClient → List ResourceEvent → Option ResourceClient × List ResourceEffect
unfolding client_step
client_run s [] = (s, [])
client_run s (event ∷ events) =
    let (t, effects) = client_step s event in
    let (u, more) = client_run t events in (u, effects ++ more)
