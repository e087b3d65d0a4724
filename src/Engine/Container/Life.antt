-- ===== src/Engine/Container/Life.antt =====
-- The life of one container, under any interleaving of its monitor thread and the callers.
use pycrate.Base.{
  if_true, if_false, subst, sym, Option-cases, ℕ, ◌≡◌, refl, inl, inr, Bool, true, false, not, ◌&&◌,
  ◌||◌, String, none, some, if◌then◌else◌, Bool-cases, str_eq,
}
use pycrate.Base.Exec.{Result, ok, err}
use pycrate.Engine.Config.{ContainerConfig}
use pycrate.Engine.Container.{
  Container, ContainerError, already_stopped, in_error_state, running, stopped, is_status, is_some,
  is_running, new_container, create, Spawn, spawned, clone_failed, assign_failed, in_error, start,
  finalize_stop, Stopping, begin_stop, end_stop, Poll, alive, reaped_already, child_exited,
  child_signalled, reap, note_oom, launch,
}

-- A running container has a process and is not finalized; a stopped one has neither process nor
-- anything left to do, and knows when it stopped.
pub record Consistent (c : Container) : Type 0 where
  pub live : (not (is_status c.status running) || (is_some c.pid && not c.finalized)) ≡ true
  pub dead :
      (not (is_status c.status stopped)
        || (not (is_some c.pid) && (c.finalized && is_some c.stopped_at)))
      ≡ true

finalize-Consistent : (now : ℕ) (c : Container) → Consistent c → Consistent (finalize_stop now c)
unfolding finalize_stop
finalize-Consistent now c h = elim (Bool-cases c.finalized) [
  | inl e ↦ subst Consistent (sym (if_true _ _ _ e)) h
  | inr e ↦ subst Consistent (sym (if_false _ _ _ e)) (record { live = refl; dead = refl })
]

note_oom-Consistent : (b : Bool) (c : Container) → Consistent c → Consistent (note_oom b c)
note_oom-Consistent true c h = record { live = h.live; dead = h.dead }
note_oom-Consistent false c h = h

reap-Consistent : (now : ℕ) (p : Poll) (c : Container) → Consistent c → Consistent (reap now p c)
unfolding reap
reap-Consistent now alive c h = h
reap-Consistent now reaped_already c h = h
reap-Consistent now (child_exited code oom) c h =
    finalize-Consistent now _ (note_oom-Consistent oom _ (record { live = h.live; dead = h.dead }))
reap-Consistent now (child_signalled sig oom) c h =
    finalize-Consistent now _ (note_oom-Consistent oom _ (record { live = h.live; dead = h.dead }))

launch-Consistent : (sp : Spawn) (c : Container) → Consistent (launch sp c).1
launch-Consistent (spawned pid) c = record { live = refl; dead = refl }
launch-Consistent (clone_failed e) c = record { live = refl; dead = refl }
launch-Consistent (assign_failed pid e) c = record { live = refl; dead = refl }

start-Consistent :
    (now : ℕ) (sp : Spawn) (c : Container) → Consistent c → Consistent (start now sp c).1
unfolding start
start-Consistent now sp c h = elim (Bool-cases (is_status c.status running)) [
  | inl e ↦
      subst (λ (x : Result ContainerError Unit × Container). Consistent x.1) (sym (if_true _ _ _ e))
        h
  | inr e ↦
      subst (λ (x : Result ContainerError Unit × Container). Consistent x.1)
        (sym (if_false _ _ _ e))
        (elim (Option-cases (in_error c)) [
          | inl q ↦ rw q (launch-Consistent sp _)
          | inr (x, q) ↦ rw q h
        ])
]

begin_stop-Consistent : (c : Container) → Consistent c → Consistent (begin_stop c).1
unfolding begin_stop
begin_stop-Consistent c h = elim (Bool-cases (is_running c)) [
  | inl e ↦
      subst (λ (x : Result ContainerError Unit × Container). Consistent x.1) (sym (if_true _ _ _ e))
        (record { live = h.live; dead = h.dead })
  | inr e ↦
      subst (λ (x : Result ContainerError Unit × Container). Consistent x.1)
        (sym (if_false _ _ _ e)) h
]

-- What may happen to a container, in any order: `stop` is two steps, before and after its wait, and
-- the monitor may have tested `_stop_event` before `stop` set it.
pub data Step (c : Container) : Container → Type 0 where
  creates : (r : Result String Unit) → Step c (create r c).1
  starts : (now : ℕ) (sp : Spawn) → Step c (start now sp c).1
  begins_stop : Step c (begin_stop c).1
  ends_stop : (now : ℕ) (how : Stopping) → Step c (end_stop now how c)
  reaps : (now : ℕ) (p : Poll) → Step c (reap now p c)

pub data Reach (c : Container) : Container → Type 0 where
  here : Reach c c
  next : {d e : Container} → Reach c d → Step d e → Reach c e

Step-Consistent : {c d : Container} → Step c d → Consistent c → Consistent d
unfolding create end_stop
Step-Consistent (creates (ok _)) h = record { live = refl; dead = refl }
Step-Consistent (creates (err e)) h = record { live = refl; dead = refl }
Step-Consistent (starts now sp) h = start-Consistent now sp _ h
Step-Consistent begins_stop h = begin_stop-Consistent _ h
Step-Consistent (ends_stop now how) h =
    finalize-Consistent now _ (record { live = h.live; dead = h.dead })
Step-Consistent (reaps now p) h = reap-Consistent now p _ h

-- From a new container, after any sequence of create, start, the two halves of stop and the
-- monitor's reaping, in any order: while the status is running there is a process, not yet
-- finalized; and when it is stopped there is none, it is finalized and has the time of its stop.
pub new-Reach-Consistent :
    (config : ContainerConfig) {c : Container} → Reach (new_container config) c → Consistent c
new-Reach-Consistent config here = record { live = refl; dead = refl }
new-Reach-Consistent config (next r st) = Step-Consistent st (new-Reach-Consistent config r)

-- The monitor saw the end of the process.
abbrev pub saw_end : Poll → Bool
saw_end (child_exited code oom) = true
saw_end (child_signalled sig oom) = true
saw_end _ = false

-- Of a container that is not finalized, both the monitor, whether the process exited or was ended by
-- a signal, and `stop` see the end of the process: in either order, the first one alone writes the
-- time of the stop, and the container ends stopped and without a process.
pub reap-end_stop :
    (t u : ℕ) (poll : Poll) (how : Stopping) (c : Container)
    → c.finalized ≡ false
    → saw_end poll ≡ true
    → let one = end_stop u how (reap t poll c) in
      let other = reap u poll (end_stop t how c) in
      (one.status ≡ stopped)
      × (one.stopped_at ≡ some t)
      × (one.pid ≡ none)
      × (other.status ≡ stopped)
      × (other.stopped_at ≡ some t)
      × (other.pid ≡ none)
unfolding reap end_stop finalize_stop
reap-end_stop t u alive how c h e = absurd (cc e)
reap-end_stop t u reaped_already how c h e = absurd (cc e)
reap-end_stop t u (child_exited code true) how c h e =
    rw (h, if◌then◌else◌) (refl, refl, refl, refl, refl, refl)
reap-end_stop t u (child_exited code false) how c h e =
    rw (h, if◌then◌else◌) (refl, refl, refl, refl, refl, refl)
reap-end_stop t u (child_signalled sig true) how c h e =
    rw (h, if◌then◌else◌) (refl, refl, refl, refl, refl, refl)
reap-end_stop t u (child_signalled sig false) how c h e =
    rw (h, if◌then◌else◌) (refl, refl, refl, refl, refl, refl)

-- Where a container is neither running nor in an error state, and its child is cloned but cannot
-- be put into its cgroup, with an error whose text is not empty, `start` keeps the number of the
-- child, but `stop` then says that the container is not running, and every later `start` that it
-- is in an error state.
pub assign_failed-stuck :
    (t u pid : ℕ) (e : String) (sp : Spawn) (c : Container)
    → is_status c.status running ≡ false
    → in_error c ≡ none
    → str_eq e "" ≡ false
    → let d = (start t (assign_failed pid e) c).1 in
      (d.pid ≡ some pid)
      × ((begin_stop d).0 ≡ err (already_stopped c.config.container_id))
      × ((start u sp d).0 ≡ err (in_error_state e))
unfolding start begin_stop
assign_failed-stuck t u pid e sp c h q b = rw (h, if◌then◌else◌) (rw q (rw b (refl, refl, refl)))
