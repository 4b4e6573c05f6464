-- ===== src/Worker/Commands.antt =====
-- The control of a worker: which changes are made, and what `work` does then.
use zapps.Prelude.{
  if◌then◌else◌, ◌⊎◌, inl, inr, ◌≡◌, refl, Bool, true, false, List, [], ◌∷◌, err, assertion, ◌⊎◌,
}
use zapps.Worker.{Control, paused, active, stopped, recovery, set_control, dispatch}

-- The transition matrix in the source's comment.
abbrev pub matrix : Control → Control → Bool
matrix paused paused = false
matrix paused active = true
matrix paused stopped = true
matrix paused recovery = true
matrix active paused = true
matrix active active = false
matrix active stopped = true
matrix active recovery = true
matrix stopped paused = false
matrix stopped active = false
matrix stopped stopped = true
matrix stopped recovery = true
matrix recovery paused = true
matrix recovery active = true
matrix recovery stopped = true
matrix recovery recovery = true

-- Where the code and the matrix differ: none but the change from STOPPED to STOPPED.
abbrev pub Exception : Control → Control → Type 0
Exception stopped stopped = Unit {0}
Exception _ _ = ⊥

-- `set_control` makes the changes of the matrix and no others, but for STOPPED to STOPPED, which it
-- refuses; a change that it refuses leaves the control as it was.
pub set_control-matrix :
    (old awc : Control)
    → ((Exception old awc × (set_control old awc ≡ (old, false)))
        ⊎ (set_control old awc ≡ (if matrix old awc then (awc, true) else (old, false))))
unfolding set_control
set_control-matrix stopped stopped = inl (tt, refl)
set_control-matrix paused paused = inr refl
set_control-matrix paused active = inr refl
set_control-matrix paused stopped = inr refl
set_control-matrix paused recovery = inr refl
set_control-matrix active paused = inr refl
set_control-matrix active active = inr refl
set_control-matrix active stopped = inr refl
set_control-matrix active recovery = inr refl
set_control-matrix stopped paused = inr refl
set_control-matrix stopped active = inr refl
set_control-matrix stopped recovery = inr refl
set_control-matrix recovery paused = inr refl
set_control-matrix recovery active = inr refl
set_control-matrix recovery stopped = inr refl
set_control-matrix recovery recovery = inr refl

-- Any number of calls of `set_control`.
abbrev pub controls : Control → List Control → Control
controls c [] = c
controls c (awc ∷ awcs) = controls (set_control c awc).0 awcs

abbrev pub NoRecovery : List Control → Type 0
NoRecovery [] = Unit {0}
NoRecovery (recovery ∷ awcs) = ⊥
NoRecovery (_ ∷ awcs) = NoRecovery awcs

-- A stopped worker stays stopped, as long as nobody asks for recovery.
pub stopped-NoRecovery : (awcs : List Control) → NoRecovery awcs → controls stopped awcs ≡ stopped
unfolding set_control
stopped-NoRecovery [] h = refl
stopped-NoRecovery (paused ∷ awcs) h = stopped-NoRecovery awcs h
stopped-NoRecovery (active ∷ awcs) h = stopped-NoRecovery awcs h
stopped-NoRecovery (stopped ∷ awcs) h = stopped-NoRecovery awcs h
stopped-NoRecovery (recovery ∷ awcs) h = absurd h

-- `set_control` takes any worker to RECOVERY, and there `work` fails its assert.
pub dispatch-set_control_recovery :
    (c : Control)
    → (set_control c recovery ≡ (recovery, true))
      × (dispatch (set_control c recovery).0 ≡ err assertion)
unfolding set_control dispatch
dispatch-set_control_recovery paused = (refl, refl)
dispatch-set_control_recovery active = (refl, refl)
dispatch-set_control_recovery stopped = (refl, refl)
dispatch-set_control_recovery recovery = (refl, refl)
