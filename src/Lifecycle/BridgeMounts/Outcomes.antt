-- ===== src/Lifecycle/BridgeMounts/Outcomes.antt =====
-- What it means that a handler of a bridge mount returns.
use gefyra.Prelude.{
  ◌≡◌, refl, sym, ap, some, ◌∙◌, subst, inl, inr, Bool, true, false, not, Bool-cases,
}
use gefyra.Result.{Result, ok, err, Error, temporary_error}
use gefyra.Lifecycle.Machine.{Action, ◌>&&>◌, and_then, raise, when, caught, Engine}
use gefyra.Lifecycle.MountStates.{active, terminated, terminate, next}
use gefyra.Lifecycle.MountStates.Paths.{
  Runs-terminated, next_terminate, same_terminated, same_active,
}
use gefyra.Lifecycle.BridgeMounts.{
  is_refused, MountApi, is, start_up, bridge_mount_created, bridgemount_deleted,
}

not-false : (b : Bool) → not b ≡ false → b ≡ true
not-false true h = refl
not-false false h = cc

module _ {World : Type 0} where
  caught-raise :
      (test : Error → Bool) (e : Error) (r : World × Result (Unit {0})) (v : World)
      → caught test (raise e) r ≡ (v, ok tt)
      → r ≡ (v, ok tt)
  caught-raise test e (w, ok a) v h = h
  caught-raise test e (w, err x) v h = elim (Bool-cases (test x)) [
    | inl here ↦ cc (ap (λ (p : World × Result (Unit {0})). p.1) (rw here at h))
    | inr passed ↦ cc (ap (λ (p : World × Result (Unit {0})). p.1) (rw passed at h))
  ]

  and_then-ok :
      (r : World × Result (Unit {0})) (after : Action World (Unit {0})) (v : World)
      → and_then r (λ _. after) ≡ (v, ok tt)
      → after r.0 ≡ (v, ok tt)
  and_then-ok (w, ok a) after v h = h
  and_then-ok (w, err e) after v h = cc (ap (λ (p : World × Result (Unit {0})). p.1) h)

  when-raise :
      (test : World → Bool) (e : Error) (w v : World)
      → when test (raise e) w ≡ (v, ok tt)
      → test v ≡ false
  when-raise test e w v h = elim (Bool-cases (test w)) [
    | inl holds ↦ cc (ap (λ (p : World × Result (Unit {0})). p.1) (rw holds at h))
    | inr fails ↦
        subst (λ (x : World). test x ≡ false)
          (ap (λ (p : World × Result (Unit {0})). p.0) (rw fails at h)) fails
  ]

module _ (machine : Engine next) (api : MountApi machine) where
  open machine use {World, state, send, send-first}
  open api use {was_active}

  -- If the handler of a created or resumed mount returns for a mount that was not active before,
  -- then the mount is ACTIVE.
  pub bridge_mount_created-active :
      (w v : World)
      → was_active w ≡ false
      → bridge_mount_created machine api w ≡ (v, ok tt)
      → state v ≡ active
  unfolding bridge_mount_created
  bridge_mount_created-active w v never h =
      let last : World → Bool = λ w. not (is machine active w) in
      let tried =
        caught-raise is_refused temporary_error
          ((start_up machine api >&&> when last (raise temporary_error)) w) v (rw never at h) in
      let checked =
        and_then-ok (start_up machine api w) (when last (raise temporary_error)) v tried in
      same_active (state v) (
        not-false (is machine active v)
          (when-raise last temporary_error (start_up machine api w).0 v checked))

  -- If the handler of a deleted mount returns, then the mount is TERMINATED, whatever its state
  -- was.
  pub bridgemount_deleted-terminated :
      (w v : World) → bridgemount_deleted machine api w ≡ (v, ok tt) → state v ≡ terminated
  unfolding bridgemount_deleted
  bridgemount_deleted-terminated w v h = elim (Bool-cases (is machine terminated w)) [
    | inl over ↦
        let same : w ≡ v = ap (λ (p : World × Result (Unit {0})). p.0) (rw over at h) in
        ap state (sym same) ∙ same_terminated (state w) over
    | inr going ↦
        let (t, n, r) = send-first terminate w v (rw going at h) in
        let both : some t ≡ some terminated = sym n ∙ next_terminate (state w) in
        let there : t ≡ terminated = cc in Runs-terminated t (state v) there r
  ]
