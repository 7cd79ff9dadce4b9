-- ===== src/Carrier/Pods/Gathered.antt =====
-- What the update of all pods of a mount has done, whether it returns or raises.
use gefyra.Prelude.{
  ◌≡◌, refl, sym, ap, subst, List, [], ◌∷◌, All, Occurs, Occurs-here, Occurs-cons, inl, inr,
}
use gefyra.Result.{Result, Result-cases, ok, err}
use gefyra.Cluster.{LivePod}
use gefyra.Carrier.Config.{Carrier2Config}
use gefyra.Carrier.Pods.{Commit, World, Served, commit, committed, update_pod, gather, first_error}

module _ {Raw : Type 0} (served : Served Raw)
    (outcome : List Commit → Commit → Result (Unit {0})) where
  abbrev Config : Type 0
  Config = LivePod → Result Carrier2Config

  abbrev pub commit_of : LivePod → Carrier2Config → Commit
  commit_of p config = record { pod = p.name; config = config }

  -- An update only adds to the commits.
  abbrev Keeps : Commit → World → World → Type 0
  Keeps c w v = Occurs c w.commits → Occurs c v.commits

  committed-Keeps :
      (c d : Commit) (w : World) (r : Result (Unit {0}))
      → Keeps c w (committed served outcome w d r).0
  committed-Keeps c d w (ok u) h = Occurs-cons c d w.commits h
  committed-Keeps c d w (err e) h = h

  update_pod-Keeps :
      (f : Config) (p : LivePod) (c : Commit) (w : World)
      → Keeps c w (update_pod served outcome f p w).0
  unfolding update_pod commit
  update_pod-Keeps f p c w h = elim (Result-cases (f p)) [
    | inl (config, e) ↦
        rw e (committed-Keeps c (commit_of p config) w (outcome w.commits (commit_of p config)) h)
    | inr (x, e) ↦ rw e h
  ]

  first_error-world :
      (r : Result (Unit {0})) (x : World × Result (Unit {0}))
      → (first_error served outcome r x).0 ≡ x.0
  first_error-world (ok u) x = refl
  first_error-world (err e) (w, r) = refl

  gather-Keeps :
      (f : Config) (ps : List LivePod) (c : Commit) (w : World)
      → Keeps c w (gather served outcome (update_pod served outcome f) ps w).0
  unfolding gather
  gather-Keeps f [] c w h = h
  gather-Keeps f (p ∷ ps) c w h =
      subst (λ (x : World). Occurs c x.commits) (sym (first_error-world _ _))
        (gather-Keeps f ps c (update_pod served outcome f p w).0 (update_pod-Keeps f p c w h))

  update_pod-Occurs :
      (f : Config) (p : LivePod) (config : Carrier2Config) (w : World)
      → f p ≡ ok config
      → outcome w.commits (commit_of p config) ≡ ok tt
      → Occurs (commit_of p config) (update_pod served outcome f p w).0.commits
  unfolding update_pod commit
  update_pod-Occurs f p config w e fine = rw (e, fine) (Occurs-here (commit_of p config) w.commits)

  -- However the updates of the other pods end, the configuration that is built for a pod is
  -- committed to it if the commit succeeds.
  pub gather-Occurs :
      (f : Config) (ps : List LivePod) (w : World)
      → All
          (λ (p : LivePod).
            (config : Carrier2Config)
            → f p ≡ ok config
            → ((cs : List Commit) → outcome cs (commit_of p config) ≡ ok tt)
            → Occurs
                (commit_of p config)
                (gather served outcome (update_pod served outcome f) ps w).0.commits)
          ps
  unfolding gather
  gather-Occurs f [] w = tt
  gather-Occurs f (p ∷ ps) w =
      let u = (update_pod served outcome f p w).0 in
      (
        λ config e fine.
            subst (λ (x : World). Occurs (commit_of p config) x.commits)
              (sym (first_error-world _ _))
              (gather-Keeps f ps (commit_of p config) u
                (update_pod-Occurs f p config w e (fine w.commits))),
        subst
            (λ (x : World).
              All
                (λ (q : LivePod).
                  (config : Carrier2Config)
                  → f q ≡ ok config
                  → ((cs : List Commit) → outcome cs (commit_of q config) ≡ ok tt)
                  → Occurs (commit_of q config) x.commits)
                ps)
            (sym (first_error-world _ _)) (gather-Occurs f ps u),
      )

  -- What was committed to a pod.
  pub record IsUpdated (f : Config) (w : World) (p : LivePod) : Type 0 where
    pub config : Carrier2Config
    pub built : f p ≡ ok config
    pub committed : Occurs (commit_of p config) w.commits

  committed-ok :
      (w v : World) (c : Commit) (r : Result (Unit {0}))
      → committed served outcome w c r ≡ (v, ok tt)
      → Occurs c v.commits
  committed-ok w v c (ok u) e =
      subst (λ (x : World). Occurs c x.commits) (ap (λ (x : World × Result (Unit {0})). x.0) e)
        (Occurs-here c w.commits)
  committed-ok w v c (err x) e = cc (ap (λ (y : World × Result (Unit {0})). y.1) e)

  update_pod-IsUpdated :
      (f : Config) (p : LivePod) (w v : World)
      → update_pod served outcome f p w ≡ (v, ok tt)
      → IsUpdated f v p
  unfolding update_pod commit
  update_pod-IsUpdated f p w v e = elim (Result-cases (f p)) [
    | inr (x, failed) ↦ cc (ap (λ (y : World × Result (Unit {0})). y.1) (rw failed at e))
    | inl (config, built) ↦ record {
      config = config;
      built = built;
      committed =
          committed-ok w v (commit_of p config) (outcome w.commits (commit_of p config))
            (rw built at e);
    }
  ]

  first_error-ok :
      (r : Result (Unit {0})) (x : World × Result (Unit {0})) (v : World)
      → first_error served outcome r x ≡ (v, ok tt)
      → (r ≡ ok tt) × (x ≡ (v, ok tt))
  first_error-ok (ok u) x v e = (refl, e)
  first_error-ok (err y) (w, r) v e = cc (ap (λ (z : World × Result (Unit {0})). z.1) e)

  pub gather-IsUpdated :
      (f : Config) (ps : List LivePod) (w v : World)
      → gather served outcome (update_pod served outcome f) ps w ≡ (v, ok tt)
      → All (IsUpdated f v) ps
  unfolding gather
  gather-IsUpdated f [] w v e = tt
  gather-IsUpdated f (p ∷ ps) w v e =
      let u = (update_pod served outcome f p w).0 in
      let (fine, rest) = first_error-ok _ _ v e in
      let here = update_pod-IsUpdated f p w u (ap (λ (r : Result (Unit {0})). (u, r)) fine) in
      (
        record {
          config = here.config;
          built = here.built;
          committed =
              subst
                (λ (x : World × Result (Unit {0})). Occurs (commit_of p here.config) x.0.commits)
                rest (gather-Keeps f ps (commit_of p here.config) u here.committed);
        },
        gather-IsUpdated f ps u v rest,
      )
