-- ===== src/Prelude/Dict.antt =====
-- Python's `dict` with text keys, in insertion order: an assignment to a key that is there keeps
-- its place, and one to a new key goes to the end.
use mathlib.Core.Path.{◌≡◌, refl, ap, ◌∙◌}
use mathlib.Core.Logic.{inl, inr}
use mathlib.Core.Bool.{Bool, true, false}
use mathlib.Core.Option.{Option, none, some}
use mathlib.Core.List.{List, [], ◌∷◌}
use native.Mathlib.Omega.{arith}
use gefyra.Prelude.Tests.{if◌then◌else◌, Bool-cases}
use gefyra.Prelude.Texts.{Text, text_eq, text_eq_iff, text_eq_refl}

abbrev pub Dict {ℓ} : Type ℓ → Type ℓ
Dict V = List (Text × V)

abbrev pub is_some {ℓ} : {A : Type ℓ} → Option A → Bool
is_some none = false
is_some (some a) = true

module _ {ℓ} {V : Type ℓ} where
  -- `d.get(k)`
  unfoldable pub lookup : Text → Dict V → Option V
  lookup k [] = none
  lookup k ((j, v) ∷ d) = if text_eq j k then some v else lookup k d

  -- `k in d`
  abbrev pub has_key : Text → Dict V → Bool
  has_key k d = is_some (lookup k d)

  -- `d[k] = v`
  unfoldable pub insert : Text → V → Dict V → Dict V
  insert k v [] = (k, v) ∷ []
  insert k v ((j, w) ∷ d) = if text_eq j k then (j, v) ∷ d else (j, w) ∷ insert k v d

  -- `del d[k]`, where a missing key is passed over; keys are unique, so one entry goes
  unfoldable pub remove : Text → Dict V → Dict V
  remove k [] = []
  remove k ((j, w) ∷ d) = let rest = remove k d in if text_eq j k then rest else (j, w) ∷ rest

  -- `d.update(e)`
  unfoldable pub update : Dict V → Dict V → Dict V
  update d [] = d
  update d ((k, v) ∷ e) = update (insert k v d) e

  pub lookup-insert :
      (k j : Text) (v : V) (d : Dict V)
      → lookup j (insert k v d) ≡ (if text_eq k j then some v else lookup j d)
  unfolding lookup insert
  lookup-insert k j v [] = refl
  lookup-insert k j v ((i, w) ∷ d) =
      ground (arith, text_eq_iff k j, text_eq_iff i k, text_eq_iff i j, lookup-insert k j v d)

  pub lookup-insert_self : (k : Text) (v : V) (d : Dict V) → lookup k (insert k v d) ≡ some v
  lookup-insert_self k v d = rw (lookup-insert, text_eq_refl k) refl

  pub lookup-remove :
      (k j : Text) (d : Dict V) → lookup j (remove k d) ≡ (if text_eq k j then none else lookup j d)
  unfolding lookup remove
  lookup-remove k j [] = ground arith
  lookup-remove k j ((i, w) ∷ d) =
      ground (arith, text_eq_iff k j, text_eq_iff i k, text_eq_iff i j, lookup-remove k j d)

-- No key twice, as in every dictionary that Python holds.
abbrev pub IsDict {ℓ} : {V : Type ℓ} → Dict V → Type ℓ
IsDict [] = Unit
IsDict ((k, v) ∷ d) = (lookup k d ≡ none) × IsDict d

-- A key that is there is another than one that is not.
pub text_eq_missing {ℓ} :
    {V : Type ℓ} (a k : Text) (d : Dict V) (v : V)
    → lookup a d ≡ none
    → lookup k d ≡ some v
    → text_eq a k ≡ false
text_eq_missing {V} a k d v gone here = elim (Bool-cases (text_eq a k)) [
  | inl same ↦ cc (gone, here, ap (λ (t : Text). lookup {V = V} t d) ((text_eq_iff a k).0 same))
  | inr other ↦ other
]

-- The value that an update gives, or else the one from before.
abbrev pub updated {ℓ} : {V : Type ℓ} → Option V → Option V → Option V
updated none before = before
updated (some v) before = some v

module _ {ℓ} {V : Type ℓ} where
  pub lookup-update :
      (d e : Dict V) (j : Text)
      → IsDict e
      → lookup j (update d e) ≡ updated (lookup j e) (lookup j d)
  unfolding update lookup
  lookup-update d [] j h = refl
  lookup-update d ((k, v) ∷ e) j h =
      lookup-update (insert k v d) e j h.1
      ∙ ground (arith, lookup-insert k j v d, text_eq_iff k j, h.0)

  pub insert-IsDict : (k : Text) (v : V) (d : Dict V) → IsDict d → IsDict (insert k v d)
  unfolding insert lookup
  insert-IsDict k v [] h = (refl, tt)
  insert-IsDict k v ((j, w) ∷ d) h = elim (Bool-cases (text_eq j k)) [
    | inl same ↦ rw same h
    | inr other ↦ rw other (
      lookup-insert k j v d ∙ ground (arith, text_eq_iff j k, text_eq_iff k j, h.0),
      insert-IsDict k v d h.1,
    )
  ]
