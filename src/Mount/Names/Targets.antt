-- ===== src/Mount/Names/Targets.antt =====
-- Targets `kind/name` (operator/gefyra/bridge_mount/carrier2mount/__init__.py).
use gefyra.Prelude.{
  ◌≡◌, refl, ◌∙◌, ◌∷◌, ◌++◌, arith, Text, Lacks, split_once-append, split_once_lacking, text_eq,
}
use gefyra.Result.{ok, err, mount_target_exception, ◌>>=◌}
use gefyra.Mount.Names.{
  Kind, deployment, stateful_set, pod, kind_of, lower, split_target_type_name, gefyra_target,
  kind_word, workload_suffix,
}

-- A target is read at its first slash: what stands before it names the kind, in any case of
-- letters, and all that follows is the name; a target without a slash is refused as malformed.
pub split_target_lem :
    (kind name : Text)
    → Lacks b'/' kind
    → (split_target_type_name (kind ++ (b'/' ∷ name))
        ≡ (kind_of (lower kind) >>= λ t. ok (name, t)))
      × (split_target_type_name kind ≡ err mount_target_exception)
unfolding split_target_type_name
split_target_lem kind name h =
    (rw (split_once-append b'/' kind name h), rw (split_once_lacking b'/' kind h))

kind_word-Lacks : (kind : Kind) → Lacks b'/' (kind_word kind)
kind_word-Lacks deployment = ground arith
kind_word-Lacks stateful_set = ground arith
kind_word-Lacks pod = ground arith

kind_word-kind_of : (kind : Kind) → kind_of (lower (kind_word kind)) ≡ ok kind
unfolding kind_of lower text_eq
kind_word-kind_of deployment = refl
kind_word-kind_of stateful_set = refl
kind_word-kind_of pod = refl

-- For a target that reads as a name and a kind, the target that is built for the shadow's pods
-- reads as the same kind, with the name that uninstalling deletes.
pub gefyra_target_splits :
    (target name : Text) (kind : Kind)
    → split_target_type_name target ≡ ok (name, kind)
    → (gefyra_target target >>= split_target_type_name) ≡ ok (name ++ workload_suffix, kind)
unfolding gefyra_target
gefyra_target_splits target name kind h = rw h (
    (split_target_lem (kind_word kind) (name ++ workload_suffix) (kind_word-Lacks kind)).0
    ∙ rw (kind_word-kind_of kind))
