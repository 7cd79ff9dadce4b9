-- ===== src/Mount/Health/Quantified.antt =====
-- What the tests on all pods and on any pod say of each pod.
use gefyra.Prelude.{
  ◌≡◌, refl, ap, Bool, true, List, [], ◌∷◌, ◌++◌, arith, Text, All, Bool-cases, inl, inr,
}
use gefyra.Result.{Result, ok, >>=-eq-ok, ok-injective}
use gefyra.Cluster.{LivePod}
use gefyra.Mount.Health.{async_any, async_all, containers_have, carrier_installed}

-- An element of a list that satisfies a test, with what stands before and after it.
pub record Among {ℓ} {A : Type ℓ} (f : A → Result Bool) (xs : List A) : Type ℓ where
  pub before : List A
  pub element : A
  pub after : List A
  pub whole : xs ≡ before ++ (element ∷ after)
  pub holds : f element ≡ ok true

module _ {ℓ} {A : Type ℓ} (f : A → Result Bool) where
  pub async_all-All : (xs : List A) → async_all f xs ≡ ok true → All (λ x. f x ≡ ok true) xs
  unfolding async_all
  async_all-All [] e = tt
  async_all-All (x ∷ xs) e =
      let (b, here, rest) = >>=-eq-ok (f x) _ e in
      elim (Bool-cases b) [
        | inl yes_ ↦ (rw here (ap ok yes_), async_all-All xs (rw yes_ at rest))
        | inr no_ ↦ cc (ok-injective (rw no_ at rest))
      ]

  pub async_any-Among : (xs : List A) → async_any f xs ≡ ok true → Among f xs
  unfolding async_any
  async_any-Among [] e = cc (ok-injective e)
  async_any-Among (x ∷ xs) e =
      let (b, here, rest) = >>=-eq-ok (f x) _ e in
      elim (Bool-cases b) [
        | inl yes_ ↦ record {
          before = [];
          element = x;
          after = xs;
          whole = refl;
          holds = rw here (ap ok yes_);
        }
        | inr no_ ↦
            let found = async_any-Among xs (rw no_ at rest) in
            record {
              before = x ∷ found.before;
              element = found.element;
              after = found.after;
              whole = ap (λ (ys : List A). x ∷ ys) found.whole;
              holds = found.holds;
            }
      ]

pub carrier_installed-All :
    (name image : Text) (ps : List LivePod)
    → carrier_installed name image ps ≡ true
    → All (λ (p : LivePod). containers_have name image p.containers ≡ true) ps
unfolding carrier_installed
carrier_installed-All name image [] e = tt
carrier_installed-All name image (p ∷ ps) e =
    (ground (arith, e), carrier_installed-All name image ps (ground (arith, e)))
