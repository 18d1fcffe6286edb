-- ===== src/Resources/Answers.antt =====
-- What `lorieResourcesShm` of resource_channel.c answers.
use magicdesk_x.Prelude.{
  ℕ, ◌≡◌, refl, Bool, true, false, not, ◌&&◌, ◌||◌, Option, none, some, List, [], ◌∷◌, ◌++◌, arith,
  ◌==◌, if◌then◌else◌, not-true, not-false, if-both,
}
use mathlib.Core.Path.{subst}
use magicdesk_x.Prelude.Int.{ℤ}
use magicdesk_x.Resources.{errno, epipe, etimedout, Reply, ResourceEffect, attend, is_zero}
use magicdesk_x.Resources.Channel.{
  ResourceClient, close_all, finish, answered, asked, resources_shm, ResourceEvent, expired,
  client_step, client_run, is_some,
}
use magicdesk_x.Resources.Channel.{Answer, flags_of}
use magicdesk_x.Resources.Ownership.{answer_sound, IsSound}
use magicdesk_x.Resources.Channel.{refusal}
use magicdesk_x.Resources.Admission.{new_client}
use magicdesk_x.Resources.Runs.{IsSoundEntry, client_run-IsStep}
use magicdesk_x.Resources.Deadline.{reached-IsArmed}

-- An answer is whole: both descriptors and a size with no error, or an error and nothing.
abbrev pub whole_answer : Answer → Bool
whole_answer a =
    if is_zero a.error
    then is_some a.backing && (is_some a.lease && not (a.size == 0))
    else not (is_some a.backing) && (not (is_some a.lease) && a.size == 0)

refusal-whole : (error : ℤ) → is_zero error ≡ false → whole_answer (refusal error) ≡ true
refusal-whole error e = rw e refl

success-whole :
    (reply : Reply) (a b : Option ℕ)
    → answer_sound reply a b ≡ true
    → is_zero reply.error ≡ true
    → (is_some a && (is_some b && not (reply.size == 0))) ≡ true
success-whole reply a b h e = rw e at h

IsWhole : ResourceClient × (Answer × List ResourceEffect) → Type 0
IsWhole x = whole_answer x.1.0 ≡ true

answered-IsWhole :
    (r : ResourceClient) (id : ℕ) (readonly : Bool)
    → IsSound r
    → r.ready ≡ true
    → IsWhole (answered r id readonly)
unfolding answered IsWhole
answered-IsWhole r id readonly v q =
    if-both IsWhole (not (r.request.id == id) || not (r.request.flags == flags_of readonly)) _ _
      (λ e. refl)
      (λ e.
        if-both IsWhole (not (is_zero r.reply.error)) _ _
          (λ f. refusal-whole r.reply.error (not-true _ f))
          (λ f. success-whole r.reply r.first r.second (v.answer q) (not-false _ f)))

option-IsWhole :
    (o : Option ℕ) (x y : ResourceClient × (Answer × List ResourceEffect))
    → IsWhole x
    → IsWhole y
    → IsWhole (elim o [ none ↦ x | some fd ↦ y ])
option-IsWhole none x y p q = p
option-IsWhole (some fd) x y p q = q

sound-whole :
    (r : ResourceClient) (id : ℕ) (readonly timer watch : Bool)
    → IsSound r
    → whole_answer (resources_shm r id readonly timer watch).1.0 ≡ true
unfolding resources_shm asked IsWhole
sound-whole r id readonly timer watch v =
    if-both IsWhole r.ready _ _ (λ q. answered-IsWhole r id readonly v q)
      (λ q. option-IsWhole r.fd _ _ refl (
        if-both IsWhole r.pending _ _ (λ w. refl)
          (λ w. if-both IsWhole (not timer || not watch) _ _ (λ e. refl) (λ e. refl))))

-- The channel of a client that has been admitted, and what can come of it.
reached-IsSound :
    (channel : Option ℕ) (events : List ResourceEvent) (r : ResourceClient)
    → (client_run (some (new_client channel)) events).0 ≡ some r
    → IsSound r
reached-IsSound channel events r e =
    let fresh : IsSound (new_client channel) = record {
      quiet = λ q. (refl, refl);
      unwatched = λ q. absurd cc;
      answer = λ q. absurd cc;
    } in
    subst IsSoundEntry e (client_run-IsStep 0 (some (new_client channel)) events fresh).1

-- Whatever has happened on a client's channel since its admission, replies of every form, failures and
-- expiries included, what a request of the client is answered is whole: a success has the backing and the
-- lease descriptor and a size other than 0, and an error comes with no descriptor and no size.
pub resources_shm-whole :
    (channel : Option ℕ) (events : List ResourceEvent) (r : ResourceClient) (id : ℕ)
    (readonly timer watch : Bool)
    → (client_run (some (new_client channel)) events).0 ≡ some r
    → whole_answer (resources_shm r id readonly timer watch).1.0 ≡ true
resources_shm-whole channel events r id readonly timer watch e =
    sound-whole r id readonly timer watch (reached-IsSound channel events r e)

-- Whatever has happened on a client's channel since its admission, while a request of the client waits for
-- its reply, its timer runs, and the expiry ends the wait: the last thing that the expiry does is to
-- resume the client; the same request is then told that it timed out, and the channel is closed; and
-- every later request is refused at once.
pub expired-answers :
    (channel : Option ℕ) (events : List ResourceEvent) (r : ResourceClient) (id later : ℕ)
    (readonly other timer watch : Bool)
    → (client_run (some (new_client channel)) events).0 ≡ some r
    → r.pending ≡ true
    → r.ready ≡ false
    → r.request.id ≡ id
    → r.request.flags ≡ flags_of readonly
    → r.armed ≡ true
      × ((s : ResourceClient) × ((closed : List ResourceEffect) × ((client_step (some r) expired
                ≡ (some s, closed ++ (attend ∷ [])))
              × (let (t, (answer, effects)) = resources_shm s id readonly timer watch in
                  (answer ≡ refusal (errno etimedout))
                  × (t.fd ≡ none)
                  × ((resources_shm t later other timer watch).1.0 ≡ refusal (errno epipe))))))
unfolding client_step finish resources_shm answered
expired-answers channel events r id later readonly other timer watch e p q i f =
    let armed = reached-IsArmed channel events r e p q in
    let same : (not (r.request.id == id) || not (r.request.flags == flags_of readonly)) ≡ false =
      ground arith in
    (
      armed,
      (
        (finish r (errno etimedout)).0,
        (close_all r, (rw (armed, p) refl, (rw same refl, rw same refl, rw same refl))),
      ),
    )
