-- ===== src/Mount/Health/Meaning.antt =====
-- What a pod that is ready and healthy has, and a container that runs Carrier2.
use gefyra.Prelude.{
  ◌≡◌, ◌≢◌, refl, sym, ap, ◌∙◌, Bool, true, List, [], ◌∷◌, ◌++◌, Option, none, some, Text, codes,
  text_eq, text_eq_iff, All, Bool-cases, inl, inr, arith, ◌&&◌,
}
use gefyra.Result.{ok, or_raise, >>=-eq-ok, ok-injective, or_raise-eq-ok, runtime_error}
use gefyra.Cluster.{Container, ContainerStatus, LivePod}
use gefyra.Mount.Health.{
  pod_is_running, status_of, is_true, has_started, is_healthy, healthy_with, pod_ready_and_healthy,
  containers_have,
}

-- The pod runs, and the first status with the name is of a container that is ready, has started, and
-- is running since some time.
pub record IsHealthy (name : Text) (p : LivePod) : Type 0 where
  pub runs : p.phase ≡ codes "Running"
  pub before : List ContainerStatus
  pub status : ContainerStatus
  pub after : List ContainerStatus
  pub listed : p.container_statuses ≡ some (before ++ (status ∷ after))
  pub others : All (λ (s : ContainerStatus). s.name ≢ name) before
  pub named : status.name ≡ name
  pub is_ready : status.ready ≡ true
  pub started : status.started ≡ some true
  pub since : Text
  pub is_since : status.running ≡ some (some since)
  pub given : since ≢ []

-- The first status with a name.
record IsFound (name : Text) (ss : List ContainerStatus) (s : ContainerStatus) : Type 0 where
  before : List ContainerStatus
  after : List ContainerStatus
  whole : ss ≡ before ++ (s ∷ after)
  others : All (λ (x : ContainerStatus). x.name ≢ name) before
  named : s.name ≡ name

status_of-IsFound :
    (name : Text) (ss : List ContainerStatus) (s : ContainerStatus)
    → status_of name ss ≡ some s
    → IsFound name ss s
unfolding status_of
status_of-IsFound name [] s e = cc e
status_of-IsFound name (x ∷ ss) s e = elim (Bool-cases (text_eq x.name name)) [
  | inl same ↦
      let here : some x ≡ some s = rw same at e in
      let x-s : x ≡ s = cc here in
      record {
        before = [];
        after = ss;
        whole = ap (λ (y : ContainerStatus). y ∷ ss) x-s;
        others = tt;
        named = ap (λ (y : ContainerStatus). y.name) (sym x-s) ∙ (text_eq_iff x.name name).0 same;
      }
  | inr other ↦
      let found = status_of-IsFound name ss s (rw other at e) in
      record {
        before = x ∷ found.before;
        after = found.after;
        whole = ap (λ (l : List ContainerStatus). x ∷ l) found.whole;
        others = ((λ same. cc (other, (text_eq_iff x.name name).1 same)), found.others);
        named = found.named;
      }
]

true_given : (o : Option Bool) → is_true o ≡ true → o ≡ some true
true_given none e = cc e
true_given (some b) e = ap some e

since_given :
    (o : Option (Option Text)) → has_started o ≡ true → (t : Text) × (o ≡ some (some t)) × (t ≢ [])
since_given none e = cc e
since_given (some none) e = cc e
since_given (some (some [])) e = cc e
since_given (some (some (c ∷ t))) e = (c ∷ t, refl, λ n. cc n)

all_four :
    (a b c d : Bool) → (a && b && c && d) ≡ true → (a ≡ true) × (b ≡ true) × (c ≡ true) × (d ≡ true)
all_four a b c d e = (ground (arith, e), ground (arith, e), ground (arith, e), ground (arith, e))

healthy_with-IsHealthy :
    (name : Text) (p : LivePod) (o : Option (List ContainerStatus))
    → p.container_statuses ≡ o
    → healthy_with p name o ≡ ok true
    → IsHealthy name p
unfolding is_healthy pod_is_running
healthy_with-IsHealthy name p none l e = cc (ok-injective e)
healthy_with-IsHealthy name p (some []) l e = cc (ok-injective e)
healthy_with-IsHealthy name p (some (x ∷ ss)) l e =
    let (s, e1, f1) = >>=-eq-ok (or_raise runtime_error (status_of name (x ∷ ss))) _ e in
    let found =
      status_of-IsFound name (x ∷ ss) s
        (or_raise-eq-ok runtime_error (status_of name (x ∷ ss)) s e1) in
    let (running, is_ready, started, since) =
      all_four (text_eq p.phase (codes "Running")) s.ready (is_true s.started)
        (has_started s.running) (ok-injective f1) in
    let (t, is_since, given) = since_given s.running since in
    record {
      runs = (text_eq_iff p.phase (codes "Running")).0 running;
      before = found.before;
      status = s;
      after = found.after;
      listed = l ∙ ap some found.whole;
      others = found.others;
      named = found.named;
      is_ready = is_ready;
      started = true_given s.started started;
      since = t;
      is_since = is_since;
      given = given;
    }

pub pod_ready_and_healthy-IsHealthy :
    (name : Text) (p : LivePod) → pod_ready_and_healthy name p ≡ ok true → IsHealthy name p
unfolding pod_ready_and_healthy
pod_ready_and_healthy-IsHealthy name p e = healthy_with-IsHealthy name p p.container_statuses refl e

pub containers_have-All :
    (name image : Text) (cs : List Container)
    → containers_have name image cs ≡ true
    → All (λ (c : Container). c.name ≡ name → c.image ≡ image) cs
unfolding containers_have
containers_have-All name image [] e = tt
containers_have-All name image (c ∷ cs) e = elim (Bool-cases (text_eq c.name name)) [
  | inl same ↦
      let both : (text_eq c.image image && containers_have name image cs) ≡ true = rw same at e in
      (
        (λ _. (text_eq_iff c.image image).0 (ground (arith, both))),
        containers_have-All name image cs (ground (arith, both)),
      )
  | inr other ↦ (
    (λ same. cc (other, (text_eq_iff c.name name).1 same)),
    containers_have-All name image cs (rw other at e),
  )
]
