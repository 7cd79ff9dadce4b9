-- ===== src/Stowaway/Watch/Written.antt =====
-- What the watcher of the WireGuard status writes.
use gefyra.Prelude.{
  subst, ◌∙◌, ◌⊎◌, if◌then◌else◌, ◌≡◌, refl, ap, inl, inr, Bool, true, false, List, [], ◌∷◌, Option,
  none, some, Text, codes, text_eq_iff, All, Occurs, Occurs-here, Occurs-cons, Bool-cases,
}
use gefyra.Prelude.Dict.{Dict, lookup}
use gefyra.Result.{Result, ok, err, key_error, or_raise, or_raise-eq-ok, >>=-eq-ok}
use gefyra.Lifecycle.Machine.{Action, and_then, done, raise, caught, ◌>&&>◌}
use gefyra.Stowaway.Status.{WgValue, text}
use gefyra.Stowaway.Watch.{
  update_with, WatchedClient, Patch, make_status, clear_wireguard, set_wireguard, Patched, patch_of,
  has_handshake, find_peer, is_key, patched, patch_object, is_stored, clear_if_lost, write_peer,
  update_status, with_peer, if_active, watch_client, watch_clients,
}

-- A peer that is found has the key that was looked for.
abbrev pub IsPeerOf : Result Text → List (Dict WgValue) → Dict WgValue → Type 0
IsPeerOf key peers p =
    Occurs p peers × ((k : Text) × (key ≡ ok k) × (lookup (codes "public_key") p ≡ some (text k)))

is_key-text : (v : WgValue) (k : Text) → is_key v k ≡ true → v ≡ text k
is_key-text (text a) k h = ap text ((text_eq_iff a k).0 h)
is_key-text v k h = cc

found_or_later :
    (b : Bool) (q p : Dict WgValue) (later : Result (Option (Dict WgValue)))
    → (if b then ok (some q) else later) ≡ ok (some p)
    → ((b ≡ true) × (q ≡ p)) ⊎ (later ≡ ok (some p))
found_or_later true q p later e = inl (refl, cc e)
found_or_later false q p later e = inr e

find_peer-IsPeerOf :
    (key : Result Text) (peers : List (Dict WgValue)) (p : Dict WgValue)
    → find_peer key peers ≡ ok (some p)
    → IsPeerOf key peers p
unfolding find_peer
find_peer-IsPeerOf key [] p e = cc
find_peer-IsPeerOf key (q ∷ qs) p e =
    let value = >>=-eq-ok (or_raise key_error (lookup (codes "public_key") q)) _ e in
    let wanted = >>=-eq-ok key _ value.2 in
    elim (found_or_later _ q p (find_peer key qs) wanted.2) [
      | inl (same, here) ↦
          let named =
            or_raise-eq-ok key_error _ value.0 value.1
            ∙ ap some (is_key-text value.0 wanted.0 same) in
          subst (IsPeerOf key (q ∷ qs)) here (Occurs-here q qs, (wanted.0, wanted.1, named))
      | inr later ↦
          let rest = find_peer-IsPeerOf key qs p later in (Occurs-cons p q qs rest.0, rest.1)
    ]

module _ (clients : List WatchedClient) (peers : List (Dict WgValue)) where
  -- A status that was written is that of the peer of a listed, active client, which had a status
  -- before, and one with `wireguard` unless the peer had a handshake.
  abbrev pub IsOwn : Patched → Type 0
  IsOwn q =
      (p : Dict WgValue)
      → q.patch ≡ set_wireguard p
      → (c : WatchedClient) × (before : Option (Dict WgValue)) × Occurs c clients
        × (c.name ≡ q.client)
        × (c.is_active ≡ ok true)
        × IsPeerOf c.public_key peers p
        × (c.status ≡ some before)
        × (before ≡ none → has_handshake p ≡ true)

  module _ (outcome : List Patched → Patched → Result (Unit {0})) where
    abbrev Run : Type 0
    Run = List Patched × Result (Unit {0})

    abbrev KeepsOwn : Action (List Patched) (Unit {0}) → Type 0
    KeepsOwn act = (w : List Patched) → All IsOwn w → All IsOwn (act w).0

    patched-IsOwn :
        (w : List Patched) (q : Patched) (r : Result (Unit {0}))
        → IsOwn q
        → All IsOwn w
        → All IsOwn (patched outcome w q r).0
    patched-IsOwn w q (ok u) o h = (o, h)
    patched-IsOwn w q (err e) o h = h

    patch_object-KeepsOwn :
        (name : Text) (patch : Patch)
        → IsOwn (patch_of name patch)
        → KeepsOwn (patch_object outcome name patch)
    unfolding patch_object
    patch_object-KeepsOwn name patch o w h =
        patched-IsOwn w (patch_of name patch) (outcome w (patch_of name patch)) o h

    next-IsOwn :
        (r : Run) (next : Action (List Patched) (Unit {0}))
        → All IsOwn r.0
        → KeepsOwn next
        → All IsOwn (and_then r (λ _. next)).0
    next-IsOwn (w, ok u) next h k = k w h
    next-IsOwn (w, err e) next h k = h

    then-KeepsOwn :
        (first second : Action (List Patched) (Unit {0}))
        → KeepsOwn first
        → KeepsOwn second
        → KeepsOwn (first >&&> second)
    then-KeepsOwn first second f s w h = next-IsOwn (first w) second (f w h) s

    caught-IsOwn : (r : Run) → All IsOwn r.0 → All IsOwn (caught (λ e. true) done r).0
    caught-IsOwn (w, ok u) h = h
    caught-IsOwn (w, err e) h = h

    raise_keeps : KeepsOwn (raise key_error)
    raise_keeps w h = h

    done_keeps : KeepsOwn done
    done_keeps w h = h

    module _ (c : WatchedClient) (p : Dict WgValue) (here : Occurs c clients)
        (active : c.is_active ≡ ok true) (peer : IsPeerOf c.public_key peers p) where
      set-IsOwn :
          (before : Option (Dict WgValue))
          → c.status ≡ some before
          → (before ≡ none → has_handshake p ≡ true)
          → IsOwn (patch_of c.name (set_wireguard p))
      set-IsOwn before e h q same = (
        c,
        before,
        here,
        refl,
        active,
        subst (IsPeerOf c.public_key peers) (cc same) peer,
        e,
        subst (λ (x : Dict WgValue). before ≡ none → has_handshake x ≡ true) (cc same) h,
      )

      clear_if_lost-KeepsOwn :
          (before : Dict WgValue) → KeepsOwn (clear_if_lost outcome c p (some before))
      clear_if_lost-KeepsOwn before = elim (Bool-cases (has_handshake p)) [
        | inl shaken ↦ rw shaken done_keeps
        | inr never ↦ rw never (elim (Bool-cases (has_handshake before)) [
          | inl lost ↦ rw lost (patch_object-KeepsOwn c.name clear_wireguard (λ q same. cc same))
          | inr neither ↦ rw neither done_keeps
        ])
      ]

      write_peer-KeepsOwn :
          (before : Option (Dict WgValue))
          → c.status ≡ some before
          → KeepsOwn (write_peer outcome c p before)
      write_peer-KeepsOwn none e = elim (Bool-cases (has_handshake p)) [
        | inl shaken ↦
            rw shaken
              (patch_object-KeepsOwn c.name (set_wireguard p) (set-IsOwn none e (λ _. shaken)))
        | inr never ↦ rw never raise_keeps
      ]
      write_peer-KeepsOwn (some before) e =
          then-KeepsOwn (clear_if_lost outcome c p (some before)) _ (clear_if_lost-KeepsOwn before)
            (patch_object-KeepsOwn c.name (set_wireguard p) (set-IsOwn (some before) e (λ n. cc n)))

      update_with-KeepsOwn :
          (st : Option (Option (Dict WgValue)))
          → c.status ≡ st
          → KeepsOwn (update_with outcome c p st)
      update_with-KeepsOwn none e =
          then-KeepsOwn (patch_object outcome c.name make_status) (raise key_error)
            (patch_object-KeepsOwn c.name make_status (λ q same. cc same)) raise_keeps
      update_with-KeepsOwn (some before) e = elim (Bool-cases (is_stored p before)) [
        | inl stored ↦ rw stored done_keeps
        | inr other ↦ rw other (write_peer-KeepsOwn before e)
      ]

      update_status-KeepsOwn : KeepsOwn (update_status outcome c p)
      unfolding update_status
      update_status-KeepsOwn = update_with-KeepsOwn c.status refl

    with_peer-KeepsOwn :
        (c : WatchedClient) (r : Result (Option (Dict WgValue)))
        → Occurs c clients
        → c.is_active ≡ ok true
        → find_peer c.public_key peers ≡ r
        → KeepsOwn (with_peer outcome c r)
    with_peer-KeepsOwn c (ok none) here active e w h = h
    with_peer-KeepsOwn c (ok (some p)) here active e w h =
        update_status-KeepsOwn c p here active (find_peer-IsPeerOf c.public_key peers p e) w h
    with_peer-KeepsOwn c (err key_error) here active e w h = h
    with_peer-KeepsOwn c (err x) here active e w h = h

    if_active-KeepsOwn :
        (c : WatchedClient)
        → Occurs c clients
        → (r : Result Bool) → c.is_active ≡ r
        → KeepsOwn (if_active outcome peers c r)
    if_active-KeepsOwn c here (ok true) e w h = with_peer-KeepsOwn c _ here e refl w h
    if_active-KeepsOwn c here (ok false) e w h = h
    if_active-KeepsOwn c here (err x) e w h = h

    watch_client-KeepsOwn :
        (c : WatchedClient) → Occurs c clients → KeepsOwn (watch_client outcome peers c)
    unfolding watch_client
    watch_client-KeepsOwn c here w h =
        caught-IsOwn _ (if_active-KeepsOwn c here c.is_active refl w h)

    pub watch_clients-KeepsOwn :
        (cs : List WatchedClient)
        → All (λ c. Occurs c clients) cs
        → KeepsOwn (watch_clients outcome peers cs)
    unfolding watch_clients
    watch_clients-KeepsOwn [] here = done_keeps
    watch_clients-KeepsOwn (c ∷ cs) here =
        then-KeepsOwn (watch_client outcome peers c) _ (watch_client-KeepsOwn c here.0)
          (watch_clients-KeepsOwn cs here.1)
