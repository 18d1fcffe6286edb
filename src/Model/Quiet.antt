-- ===== src/Model/Quiet.antt =====
-- The events that tell the host nothing: what they change will be told by the next refresh.
use magicdesk_x.Prelude.{
  ℕ, ◌≡◌, refl, ◌∙◌, inl, Bool, true, false, Option, none, some, List, [], ◌∷◌, ◌==◌, if◌then◌else◌,
  if-both, option-both, All,
}
use magicdesk_x.Model.{ModelWindow, ModelEnv, WindowRecord, ModelState, ModelEffect, ModelOutcome}
use magicdesk_x.Model.Records.{is_live, find_live, update_live, new_record, with_record, record_for}
use magicdesk_x.Model.Confirms.{confirmed_window, looked_up}
use magicdesk_x.Model.Messages.{requested_on, update_all, mark_changed, mark_destroyed, all_changed}
use magicdesk_x.Model.Table.{
  Host, heard, is_told, IsSynced, IsTouched, AreTouched, touched-IsSynced,
}
use magicdesk_x.Model.Updates.{update-AreTouched, record_for-both, made-IsSynced}

-- A record that the host has been told of has nothing new to tell.
abbrev pub IsSettled : WindowRecord → Type 0
IsSettled r = r.published ≡ true → (r.changed ≡ false) × (r.destroyed ≡ false)

-- The host's table agrees with the records, and while the model is not dirty nothing has changed.
pub record IsAgreed (s : ModelState) (h : Host) : Type 0 where
  pub synced : IsSynced s h
  pub pending : s.dirty ≡ false → All IsSettled s.records

-- An outcome that keeps the agreement, for every table that the host may have, and brings no input.
pub record IsQuiet (s : ModelState) (o : ModelOutcome) : Type 0 where
  pub agreed : (h : Host) → IsAgreed s h → IsAgreed o.0 (heard h o.1)
  pub unused : s.last_input_time ≡ 0 → o.0.last_input_time ≡ 0

pub same-IsQuiet : (s : ModelState) → IsQuiet s (s, [])
same-IsQuiet s = record { agreed = λ h a. a; unused = λ e. e }

-- A quiet step first.
pub first-IsQuiet :
    (s t : ModelState) (o : ModelOutcome) → IsQuiet s (t, []) → IsQuiet t o → IsQuiet s o
first-IsQuiet s t o p q = record {
  agreed = λ h a. q.agreed h (p.agreed h a);
  unused = λ e. q.unused (p.unused e);
}

-- Effects that are not about the host's table come last.
pub silent-IsQuiet :
    (s t : ModelState) (es : List ModelEffect)
    → ((h : Host) → heard h es ≡ h)
    → IsQuiet s (t, [])
    → IsQuiet s (t, es)
silent-IsQuiet s t es e p = record { agreed = λ h a. rw (e h) (p.agreed h a); unused = p.unused }

-- A change of the records, all of it to be told.
pub dirty-IsQuiet :
    (s t : ModelState)
    → t.dirty ≡ true
    → (s.last_input_time ≡ 0 → t.last_input_time ≡ 0)
    → ((id : ℕ) → AreTouched s.manager t.manager id s.records t.records)
    → IsQuiet s (t, [])
dirty-IsQuiet s t d u k = record {
  unused = u;
  agreed = λ h a. record {
    synced = touched-IsSynced s t h k a.synced;
    pending = λ e. absurd (cc (d, e));
  };
}

-- A change that marks the record.
pub record IsMarking (f : WindowRecord → WindowRecord) : Type 0 where
  pub told : (id : ℕ) (r : WindowRecord) → is_told id (f r) ≡ is_told id r
  pub live : (id : ℕ) (r : WindowRecord) → is_live id (f r) ≡ is_live id r
  pub marks : (r : WindowRecord) → (f r).changed ≡ true

pub marking-IsTouched :
    (m n id : ℕ) (f : WindowRecord → WindowRecord) (r : WindowRecord)
    → IsMarking f
    → IsTouched m n id r (f r)
marking-IsTouched m n id f r k = record {
  told = k.told id r;
  live = λ e. k.live id r ∙ e;
  says = λ e x q. inl (k.marks r);
}

pub marked-AreTouched :
    (m id j : ℕ) (f : WindowRecord → WindowRecord) (rs : List WindowRecord)
    → IsMarking f
    → AreTouched m m j rs (update_live id f rs)
marked-AreTouched m id j f rs k =
    update-AreTouched m j id f rs (λ r e. marking-IsTouched m m j f r k)

-- A request of a client.
pub requested-IsQuiet :
    (s : ModelState) (id : ℕ) (f : ℕ → WindowRecord → WindowRecord)
    → ((serial : ℕ) → IsMarking (f serial))
    → IsQuiet s (requested_on s id f, [])
requested-IsQuiet s id f k =
    dirty-IsQuiet s (requested_on s id f) refl (λ e. e)
      (λ j. marked-AreTouched s.manager id j (f _) s.records (k _))

-- The branch of a request that may be refused.
pub if-IsQuiet :
    (s : ModelState) (b : Bool) (t u : ModelState)
    → IsQuiet s (t, [])
    → IsQuiet s (u, [])
    → IsQuiet s (if b then t else u, [])
if-IsQuiet s true t u p q = p
if-IsQuiet s false t u p q = q

-- A new record is not told, and waits for the next refresh.
pub made-IsQuiet :
    (env : ModelEnv) (s : ModelState) (window : ModelWindow)
    → find_live window.id s.records ≡ none
    → IsQuiet s (with_record env s window, [])
unfolding new_record
made-IsQuiet env s window e = record {
  unused = λ k. k;
  agreed = λ h a. record {
    synced = made-IsSynced env s window h e a.synced;
    pending = λ d. (λ p. absurd (cc p), a.pending d);
  };
}

-- `recordFor` before an outcome.
pub record_for-IsQuiet :
    (env : ModelEnv) (s : ModelState) (window : ModelWindow) (missing : ModelOutcome)
    (next : ModelState → ModelOutcome)
    → IsQuiet s missing
    → ((t : ModelState) → IsQuiet t (next t))
    → IsQuiet s (elim (record_for env s window) [ none ↦ missing | some t ↦ next t ])
record_for-IsQuiet env s window missing next p q =
    record_for-both (λ o. IsQuiet s (elim o [ none ↦ missing | some t ↦ next t ])) env s window p
      (λ r e. q s)
      (λ e.
        first-IsQuiet s (with_record env s window) (next (with_record env s window))
          (made-IsQuiet env s window e) (q (with_record env s window)))

pub looked_up-IsQuiet :
    (env : ModelEnv) (s : ModelState) (id : ℕ) → IsQuiet s (looked_up env s id, [])
unfolding looked_up
looked_up-IsQuiet env s id =
    option-both (λ (t : ModelState). IsQuiet s (t, [])) (if id == 0 then none else env.lookup id) s
      (λ window. elim (record_for env s window) [ none ↦ s | some t ↦ t ]) (same-IsQuiet s)
      (λ window e.
        record_for-both (λ o. IsQuiet s (elim o [ none ↦ s | some t ↦ t ], [])) env s window
          (same-IsQuiet s) (λ r k. same-IsQuiet s) (λ k. made-IsQuiet env s window k))

-- A confirmation before an outcome.
pub confirmed-IsQuiet :
    (env : ModelEnv) (s : ModelState) (id : ℕ) (serial_of : WindowRecord → ℕ) (serial : ℕ)
    (missing : ModelOutcome) (next : ModelWindow × ModelState → ModelOutcome)
    → IsQuiet s missing
    → ((window : ModelWindow) (t : ModelState) → IsQuiet t (next (window, t)))
    → IsQuiet s
        (elim (confirmed_window env s id serial_of serial) [ none ↦ missing | some p ↦ next p ])
unfolding confirmed_window
confirmed-IsQuiet env s id serial_of serial missing next p q =
    option-both (λ (o : Option (ModelWindow × ModelState)). IsQuiet s (run o))
      (if id == 0 then none else env.lookup id) none (λ window. taken window) p
      (λ window e.
        record_for-both (λ o. IsQuiet s (run (among window o))) env s window p
          (λ r k. found window s (q window s))
          (λ k. found window (with_record env s window) (
            first-IsQuiet s (with_record env s window) (next (window, with_record env s window))
              (made-IsQuiet env s window k) (q window (with_record env s window)))))
  where
    run : Option (ModelWindow × ModelState) → ModelOutcome
    run none = missing
    run (some o) = next o

    current : ModelWindow → ModelState → Option WindowRecord → Option (ModelWindow × ModelState)
    current window t none = none
    current window t (some r) = if serial_of r == serial then some (window, t) else none

    among : ModelWindow → Option ModelState → Option (ModelWindow × ModelState)
    among window none = none
    among window (some t) = current window t (find_live window.id t.records)

    taken : ModelWindow → Option (ModelWindow × ModelState)
    taken window = among window (record_for env s window)

    one :
        (window : ModelWindow) (t : ModelState) (b : Bool)
        → IsQuiet s (next (window, t))
        → IsQuiet s (run (if b then some (window, t) else none))
    one window t true k = k
    one window t false k = p

    any :
        (window : ModelWindow) (t : ModelState) (o : Option WindowRecord)
        → IsQuiet s (next (window, t))
        → IsQuiet s (run (current window t o))
    any window t none k = p
    any window t (some r) k = one window t (serial_of r == serial) k

    found :
        (window : ModelWindow) (t : ModelState)
        → IsQuiet s (next (window, t))
        → IsQuiet s (run (among window (some t)))
    found window t k = any window t (find_live window.id t.records) k

pub update_all-AreTouched :
    (m j id : ℕ) (f : WindowRecord → WindowRecord) (rs : List WindowRecord)
    → ((r : WindowRecord) → IsTouched m m j r (f r))
    → AreTouched m m j rs (update_all id f rs)
unfolding update_all
update_all-AreTouched m j id f [] k = tt
update_all-AreTouched m j id f (r ∷ rs) k = (
  if-both (IsTouched m m j r) (r.id == id) (f r) r (λ e. k r)
      (λ e. record { told = refl; live = λ h. h; says = λ q x h. h }),
  update_all-AreTouched m j id f rs k,
)

pub destroyed-IsTouched : (m j : ℕ) (r : WindowRecord) → IsTouched m m j r (mark_destroyed r)
destroyed-IsTouched m j r = record { told = refl; live = λ e. refl; says = λ e x k. k }

pub changed-IsMarking : IsMarking mark_changed
changed-IsMarking = record { told = λ id r. refl; live = λ id r. refl; marks = λ r. refl }

pub all_changed-AreTouched :
    (m n j : ℕ) (rs : List WindowRecord) → AreTouched m n j rs (all_changed rs)
all_changed-AreTouched m n j [] = tt
all_changed-AreTouched m n j (r ∷ rs) =
    (marking-IsTouched m n j mark_changed r changed-IsMarking, all_changed-AreTouched m n j rs)
