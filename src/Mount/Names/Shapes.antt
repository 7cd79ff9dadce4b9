-- ===== src/Mount/Names/Shapes.antt =====
-- The shape and the length of generated names (operator/gefyra/bridge_mount/utils.py).
use gefyra.Prelude.{
  ℕ, zero, suc, ◌+◌, ◌-◌, ◌≤◌, ◌≡◌, refl, sym, ap, inl, inr, ◌↔◌, [], ◌∷◌, ◌++◌, arith, Text, leb,
  length, take, length-append, length-take, Bool-cases,
}
use gefyra.Result.{Result, ok, err}
use gefyra.Mount.Names.{
  generate_k8s_conform_name, generate_duplicate_workload_name, gefyra_workload_name,
  split_target_type_name, Kind, max_name, workload_suffix,
}

pub take_all : (n : ℕ) (s : Text) → length s ≤ n → take n s ≡ s
take_all zero [] h = refl
take_all zero (c ∷ s) h = absurd (omega arith)
take_all (suc n) [] h = refl
take_all (suc n) (c ∷ s) h = ap (λ (t : Text). c ∷ t) (take_all n s (omega arith))

-- With a suffix that fits, the name is cut to what the suffix leaves, and the suffix follows.
pub conform_shape :
    (name suffix : Text) (max_length : ℕ)
    → length suffix ≤ max_length
    → generate_k8s_conform_name name suffix max_length
      ≡ take (max_length - length suffix) name ++ suffix
unfolding generate_k8s_conform_name
conform_shape name suffix m h = elim (Bool-cases (leb (length name + length suffix) m)) [
  | inl fits ↦
      rw fits
        (ap (λ (t : Text). t ++ suffix) (sym (take_all (m - length suffix) name (ground arith))))
  | inr long ↦ elim (Bool-cases (leb (length suffix) m)) [
    | inl room ↦ rw (long, room)
    | inr tight ↦ absurd (ground arith)
  ]
]

-- With a suffix that fits the limit, the generated name is the name, cut to what the suffix
-- leaves, before the suffix, and it is no longer than the limit.
pub conform_fits :
    (name suffix : Text) (max_length : ℕ)
    → length suffix ≤ max_length
    → (generate_k8s_conform_name name suffix max_length
        ≡ take (max_length - length suffix) name ++ suffix)
      × (length (generate_k8s_conform_name name suffix max_length) ≤ max_length)
conform_fits name suffix m h =
    let shape = conform_shape name suffix m h in
    (
      shape,
      rw shape (
          omega (
            arith,
            length-append (take (m - length suffix) name) suffix,
            length-take (m - length suffix) name,
          )),
    )

abbrev result_length : Result Text → ℕ
result_length (ok s) = length s
result_length (err e) = 0

agrees_short :
    (name : Text)
    → ok (name ++ workload_suffix) ≡ ok (generate_duplicate_workload_name name)
    → length name ≤ 56
unfolding generate_duplicate_workload_name
agrees_short name e = omega (
  arith,
  ap result_length e,
  length-append name workload_suffix,
  (conform_fits name workload_suffix max_name (omega arith)).1,
)

short_agrees :
    (name : Text)
    → length name ≤ 56
    → ok (name ++ workload_suffix) ≡ ok (generate_duplicate_workload_name name)
unfolding generate_duplicate_workload_name
short_agrees name h =
    rw (conform_shape name workload_suffix max_name (omega arith), take_all 56 name h)

-- The name that uninstalling deletes is the name of the clone exactly if the workload's name has
-- at most 56 characters.
pub uninstall_name_iff :
    (target name : Text) (kind : Kind)
    → split_target_type_name target ≡ ok (name, kind)
    → (gefyra_workload_name target ≡ ok (generate_duplicate_workload_name name))
      ↔ (length name ≤ 56)
unfolding gefyra_workload_name
uninstall_name_iff target name kind h = rw h (agrees_short name, short_agrees name)
