-- ===== src/Lifecycle/Clients/Callbacks/Accounts.antt =====
-- The service account of a client.
use gefyra.Prelude.{
  ◌≡◌, refl, sym, ap, ◌∙◌, ℕ, inl, inr, ◌⊎◌, Bool, true, false, Option, none, some, Text, ◌==◌,
  Bool-cases,
}
use gefyra.Prelude.Dict.{Dict}
use gefyra.Result.{
  ok-injective, Result, ok, err, Error, Result-cases, ok-injective, api_exception, permanent_error,
}
use gefyra.Lifecycle.Machine.{
  Action, and_then, and_then-eq-ok, caught, raise, done, ◌>&&>◌, ◌>=>◌, catching,
}
use gefyra.Stowaway.ConfigMaps.{ConfigMapApi}
use gefyra.Lifecycle.Clients.{wait}
use gefyra.Lifecycle.Clients.Callbacks.{
  Client, World, Call, queue, write_account, create_account, create_binding, create_token, recorded,
  call, account_name, create_service_account_objects, get_serviceaccount_data,
  create_service_account, on_create, is_missing, is_conflict, create_role, is_api, created_token,
  data_or_retry, give,
}
use gefyra.Lifecycle.Clients.Callbacks.Cleaned.{made-ok}

module _ (api : ConfigMapApi) (client : Client)
    (outcome : World api → Call → Result (Unit {0})) where
  abbrev W : Type 0
  W = World api

  abbrev account : Text
  account = account_name api client

  abbrev Run : Type 0
  Run = W × Result (Unit {0})

  abbrev attempt : Action W (Unit {0})
  attempt =
      catching is_conflict done
        (call api outcome (create_account account) >&&> call api outcome (create_binding account))

  objects-attempt :
      (w : W)
      → client.role ≡ ok tt
      → create_service_account_objects api client outcome w ≡ attempt w
  unfolding create_service_account_objects
  objects-attempt w role =
      ap
        (λ (r : Result (Unit {0})).
          and_then (caught is_missing (call api outcome (create_role client.name)) (w, r))
            (λ _. attempt))
        role

  -- If the role is there, the account is created, its binding is refused with a status other than
  -- 409, and creating the account again is refused with 409, then the first run raises with the
  -- account left behind, and the second one returns without having made the binding.
  pub create_account_retried :
      (w : W) (status : ℕ)
      → client.role ≡ ok tt
      → outcome w (create_account account) ≡ ok tt
      → outcome (recorded api w (create_account account)) (create_binding account)
        ≡ err (api_exception status)
      → (status == 409) ≡ false
      → outcome (recorded api w (create_account account)) (create_account account)
        ≡ err (api_exception 409)
      → let first = create_service_account_objects api client outcome w in
        (first ≡ (recorded api w (create_account account), err (api_exception status)))
        × (create_service_account_objects api client outcome first.0
            ≡ (recorded api w (create_account account), ok tt))
  unfolding call
  create_account_retried w status role fine failed other there =
      let first = objects-attempt w role ∙ rw (fine, failed, other) refl in
      (
        first,
        ap (λ (r : Run). create_service_account_objects api client outcome r.0) first
            ∙ objects-attempt (recorded api w (create_account account)) role
            ∙ rw there refl,
      )

  -- The data of the token's secret, or of the one that is created.
  abbrev pub IsToken : Dict Text → Type 0
  IsToken d = (client.token ≡ ok (some d)) ⊎ (client.new_token ≡ some d)

  abbrev Tokened : Type 0
  Tokened = W × Result (Option (Dict Text))

  abbrev HasToken : Tokened → Type 0
  HasToken r = (u : W) (d : Dict Text) → r ≡ (u, ok (some d)) → IsToken d

  -- An exception that is turned into another one gives no token.
  refused-HasToken :
      (test : Error → Bool) (x : Error) (r : Tokened)
      → HasToken r
      → HasToken (caught test (raise x) r)
  refused-HasToken test x (w, ok o) h u d = h u d
  refused-HasToken test x (w, err y) h u d = elim (Bool-cases (test y)) [
    | inl known ↦ rw known (λ e. cc (ap (λ (z : Tokened). z.1) e))
    | inr other ↦ rw other (λ e. cc (ap (λ (z : Tokened). z.1) e))
  ]

  abbrev created : W → Tokened
  created = call api outcome (create_token account) >=> λ u. give api client.new_token

  created-HasToken : (w : W) → HasToken (created w)
  unfolding call
  created-HasToken w u d = elim (Result-cases (outcome w (create_token account))) [
    | inl (x, fine) ↦ rw fine (λ e. inr (ok-injective (ap (λ (y : Tokened). y.1) e)))
    | inr (x, failed) ↦ rw failed (λ e. cc (ap (λ (y : Tokened). y.1) e))
  ]

  read-HasToken :
      (w : W) (r : Result (Option (Dict Text)))
      → client.token ≡ r
      → HasToken (caught is_missing (created_token api client outcome) (w, r))
  read-HasToken w (ok o) t u d = λ e. inl (t ∙ ap (λ (y : Tokened). y.1) e)
  read-HasToken w (err x) t u d = elim (Bool-cases (is_missing x)) [
    | inl missing ↦
        rw missing (refused-HasToken is_api permanent_error (created w) (created-HasToken w) u d)
    | inr other ↦ rw other (λ e. cc (ap (λ (y : Tokened). y.1) e))
  ]

  some-IsToken :
      (w u v : W) (o : Option (Dict Text)) (d : Dict Text)
      → caught is_api
          (raise permanent_error)
          (caught is_missing (created_token api client outcome) (w, client.token))
        ≡ (u, ok o)
      → data_or_retry api client outcome o u ≡ (v, ok d)
      → IsToken d
  some-IsToken w u v none d e f = cc (ap (λ (y : W × Result (Dict Text)). y.1) f)
  some-IsToken w u v (some c) d e f =
      refused-HasToken is_api permanent_error _ (read-HasToken w client.token refl) u d (
        e
        ∙ ap (λ (b : Dict Text). (u, ok (some b)))
            (ok-injective (ap (λ (y : W × Result (Dict Text)). y.1) f)))

  data-IsToken :
      (w v : W) (d : Dict Text)
      → get_serviceaccount_data api client outcome w ≡ (v, ok d)
      → IsToken d
  unfolding get_serviceaccount_data
  data-IsToken w v d e =
      let (u, o, e1, e2) =
        and_then-eq-ok v
          (caught is_api (raise permanent_error)
            (caught is_missing (created_token api client outcome) (w, client.token)))
          (data_or_retry api client outcome) e in
      some-IsToken w u v o d e1 e2

  -- If creating a client succeeds, then either service accounts are not managed and all that was
  -- done is to send the event that lets it wait, or the last two things done are to write the
  -- account's name with the data of its token, which was read or is that of the token created, and
  -- then to send that event.
  pub on_create_lem :
      (w v : W)
      → on_create api client outcome w ≡ (v, ok tt)
      → ((client.unmanaged_accounts ≡ true) × (v ≡ recorded api w (queue wait)))
        ⊎ ((client.unmanaged_accounts ≡ false)
            × ((u : W) × (d : Dict Text) × IsToken d
                × (v ≡ recorded api (recorded api u (write_account account d)) (queue wait))))
  unfolding on_create create_service_account
  on_create_lem w v e = elim (Bool-cases client.unmanaged_accounts) [
    | inl skipped ↦ inl (skipped, ap (λ (y : Run). y.0) (sym (rw skipped at e)))
    | inr managed ↦ inr (
      managed,
      let (x, a, e1, e2) =
            and_then-eq-ok v (create_service_account_objects api client outcome w) _
              (rw managed at e) in
          let (y, d, f1, f2) =
            and_then-eq-ok v (get_serviceaccount_data api client outcome x) _ e2 in
          let (z, b, g1, g2) =
            and_then-eq-ok v (call api outcome (write_account account d) y) _ f2 in
          (
            y,
            d,
            data-IsToken x y d f1,
            ap (λ (r : Run). r.0) (sym g2)
                ∙ ap (λ (r : W). recorded api r (queue wait))
                    (made-ok api client outcome y z (write_account account d) g1),
          ),
    )
  ]
