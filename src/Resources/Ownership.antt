-- ===== src/Resources/Ownership.antt =====
-- Every descriptor that a client's channel takes is closed or handed over once, and none is lost.
use magicdesk_x.Prelude.{
  ℕ, ◌+◌, ◌≡◌, refl, inl, inr, Bool, true, false, not, ◌&&◌, Option, none, some, List, [], ◌∷◌,
  ◌++◌, arith, ◌==◌, if◌then◌else◌, Bool-cases,
}
use magicdesk_x.Prelude.Int.{ℤ}
use magicdesk_x.Resources.{
  Reply, Message, ResourceEffect, attend, Taken, close_opt, is_zero, receive,
}
use magicdesk_x.Resources.Channel.{
  ResourceClient, close_all, finish, reply_of, checked_error, again, reply_bad, receive_reply,
  is_some,
}
use magicdesk_x.Resources.Taking.{
  held, installed, released, installed-append, released-append, filled, closed_two,
  released-close_opt, installed-close_opt, receive-IsReceived,
}

-- What a client's entry owns.
abbrev pub owns : ℕ → ResourceClient → ℕ
owns d r = held d r.fd + (held d r.first + held d r.second)

-- The same for the entry of a client that may have no channel.
abbrev pub entry_owns : ℕ → Option ResourceClient → ℕ
entry_owns d none = 0
entry_owns d (some r) = owns d r

-- An operation keeps the balance of what it owns, takes and lets go.
abbrev pub Balanced : ℕ → ℕ → ℕ → List ResourceEffect → Type 0
Balanced d before after effects = before + installed d effects ≡ after + released d effects

pub Balanced-append :
    (d a b c : ℕ) (first second : List ResourceEffect)
    → Balanced d a b first
    → Balanced d b c second
    → Balanced d a c (first ++ second)
Balanced-append d a b c first second p q =
    omega (arith, installed-append d first second, released-append d first second)

pub closed_all :
    (d : ℕ) (r : ResourceClient)
    → (released d (close_all r) ≡ owns d r) × (installed d (close_all r) ≡ 0)
closed_all d r =
    let (c, i) = closed_two d r.first r.second in
    let rest = close_opt r.first ++ close_opt r.second in
    (
      omega (arith, released-append d (close_opt r.fd) rest, released-close_opt d r.fd),
      omega (arith, installed-append d (close_opt r.fd) rest, installed-close_opt d r.fd),
    )

attended :
    (d : ℕ) (b : Bool)
    → (installed d (if b then attend ∷ [] else []) ≡ 0)
      × (released d (if b then attend ∷ [] else []) ≡ 0)
unfolding installed released
attended d true = (refl, refl)
attended d false = (refl, refl)

pub finish-Balanced :
    (d : ℕ) (r : ResourceClient) (error : ℤ)
    → Balanced d (owns d r) (owns d (finish r error).0) (finish r error).1
unfolding finish installed released
finish-Balanced d r error = elim (Bool-cases (is_zero error)) [
  | inl e ↦ let (i, l) = attended d r.pending in rw e (omega arith)
  | inr e ↦
      let (c, k) = closed_all d r in
      let (i, l) = attended d r.pending in
      let tail = if r.pending then attend ∷ [] else [] in
      let ia = installed-append d (close_all r) tail in
      let ra = released-append d (close_all r) tail in rw e (omega arith)
]

pub receive_reply-Balanced :
    (d : ℕ) (r : ResourceClient) (m : Message)
    → r.first ≡ none
    → r.second ≡ none
    → Balanced d (owns d r) (owns d (receive_reply r m).0) (receive_reply r m).1
unfolding receive_reply
receive_reply-Balanced d r m f s =
    let t = receive 16 m in
    let v = receive-IsReceived d 16 m in
    let u : ResourceClient = record r {
      first = t.first;
      second = t.second;
      reply = reply_of m r.reply;
    } in
    let b = v.balance in
    let taken : Balanced d (owns d r) (owns d u) t.effects = rw (f, s) (omega arith) in
    elim (Bool-cases (again t.error)) [
      | inl e ↦ rw e taken
      | inr e ↦ rw e (
          Balanced-append d (owns d r) (owns d u) _ t.effects _ taken
            (finish-Balanced d u (checked_error t (reply_of m r.reply))))
    ]

-- What a reply that is there allows: both descriptors and a size, or an error and neither.
abbrev pub answer_sound : Reply → Option ℕ → Option ℕ → Bool
answer_sound reply first second =
    if is_zero reply.error
    then is_some first && (is_some second && not (reply.size == 0))
    else not (is_some first) && not (is_some second)

-- Rights are held for a reply that is there only, and nothing is received after it.
pub record IsSound (r : ResourceClient) : Type 0 where
  pub quiet : r.ready ≡ false → (r.first ≡ none) × (r.second ≡ none)
  pub unwatched : r.ready ≡ true → r.watched ≡ none
  pub answer : r.ready ≡ true → answer_sound r.reply r.first r.second ≡ true

reply_answer :
    (reply : Reply) (count : ℕ) (first second : Option ℕ)
    → filled count first second ≡ true
    → reply_bad reply count ≡ false
    → answer_sound reply first second ≡ true
reply_answer reply count none none f b = ground arith
reply_answer reply count (some a) none f b = ground arith
reply_answer reply count none (some c) f b = absurd cc
reply_answer reply count (some a) (some c) f b = ground arith

pub finish-IsSound :
    (r : ResourceClient) (error : ℤ)
    → (is_zero error ≡ true → answer_sound r.reply r.first r.second ≡ true)
    → IsSound (finish r error).0
unfolding finish
finish-IsSound r error h = elim (Bool-cases (is_zero error)) [
  | inl e ↦ rw e (record { quiet = λ q. absurd cc; unwatched = λ q. refl; answer = λ q. h e })
  | inr e ↦ rw e (record { quiet = λ q. absurd cc; unwatched = λ q. refl; answer = λ q. rw e refl })
]

pub again_nonzero : (error : ℤ) → again error ≡ true → is_zero error ≡ false
again_nonzero error h = ground arith

and_false : (a b : Bool) → (a && b) ≡ false → a ≡ true → b ≡ false
and_false true b h e = h
and_false false b h e = absurd cc

checked_zero :
    (t : Taken) (reply : Reply)
    → is_zero (checked_error t reply) ≡ true
    → (is_zero t.error ≡ true) × (reply_bad reply t.count ≡ false)
checked_zero t reply h = elim (Bool-cases (is_zero t.error && reply_bad reply t.count)) [
  | inl e ↦ let bad = rw e at h in absurd cc
  | inr e ↦
      let ok : is_zero t.error ≡ true = rw e at h in
      (ok, and_false (is_zero t.error) (reply_bad reply t.count) e ok)
]

pub receive_reply-IsSound :
    (r : ResourceClient) (m : Message) → r.ready ≡ false → IsSound (receive_reply r m).0
unfolding receive_reply
receive_reply-IsSound r m q =
    let t = receive 16 m in
    let v = receive-IsReceived 0 16 m in
    let reply = reply_of m r.reply in
    let u : ResourceClient = record r { first = t.first; second = t.second; reply = reply } in
    elim (Bool-cases (again t.error)) [
      | inl e ↦ rw e (record {
        quiet = λ h. v.nothing (again_nonzero t.error e);
        unwatched = λ h. absurd cc;
        answer = λ h. absurd cc;
      })
      | inr e ↦ rw e (
          finish-IsSound u (checked_error t reply) (λ z.
            let (ok, good) = checked_zero t reply z in
            reply_answer reply t.count t.first t.second (v.shape ok) good))
    ]
