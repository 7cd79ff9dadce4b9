-- ===== src/Stowaway/Watch/Reached.antt =====
-- What the watcher of the WireGuard status has written when it is through with all clients.
use gefyra.Prelude.{
  ◌∙◌, ◌≡◌, refl, sym, ap, inl, inr, Bool, true, false, List, [], ◌∷◌, ◌++◌, Option, none, some,
  Text, Occurs, Occurs-here, Occurs-cons, Bool-cases, subst,
}
use gefyra.Prelude.Dict.{Dict}
use gefyra.Result.{Result, ok, err, key_error}
use gefyra.Lifecycle.Machine.{Action, and_then, done, raise, caught, ◌>&&>◌}
use gefyra.Stowaway.Status.{WgValue}
use gefyra.Stowaway.Watch.{
  WatchedClient, Patch, make_status, clear_wireguard, set_wireguard, Patched, patch_of,
  has_handshake, find_peer, is_stored, patched, patch_object, clear_if_lost, write_peer,
  update_with, update_status, with_peer, if_active, watch_client, watch_clients,
}

module _ (outcome : List Patched → Patched → Result (Unit {0})) where
  -- What was patched stays so.
  abbrev Grows : Action (List Patched) (Unit {0}) → Type 0
  Grows act = (q : Patched) (w : List Patched) → Occurs q w → Occurs q (act w).0

  patched-Grows :
      (q p : Patched) (w : List Patched) (r : Result (Unit {0}))
      → Occurs q w
      → Occurs q (patched outcome w p r).0
  patched-Grows q p w (ok u) h = Occurs-cons q p w h
  patched-Grows q p w (err e) h = h

  patch_object-Grows : (name : Text) (patch : Patch) → Grows (patch_object outcome name patch)
  unfolding patch_object
  patch_object-Grows name patch q w h = patched-Grows q (patch_of name patch) w _ h

  next-Grows :
      (r : List Patched × Result (Unit {0})) (next : Action (List Patched) (Unit {0})) (q : Patched)
      → Occurs q r.0
      → Grows next
      → Occurs q (and_then r (λ _. next)).0
  next-Grows (w, ok u) next q h g = g q w h
  next-Grows (w, err e) next q h g = h

  then-Grows :
      (first second : Action (List Patched) (Unit {0}))
      → Grows first
      → Grows second
      → Grows (first >&&> second)
  then-Grows first second f s q w h = next-Grows (first w) second q (f q w h) s

  caught-world : (r : List Patched × Result (Unit {0})) → (caught (λ e. true) done r).0 ≡ r.0
  caught-world (w, ok u) = refl
  caught-world (w, err e) = refl

  caught-ok : (r : List Patched × Result (Unit {0})) → (caught (λ e. true) done r).1 ≡ ok tt
  caught-ok (w, ok u) = refl
  caught-ok (w, err e) = refl

  done-Grows : Grows done
  done-Grows q w h = h

  clear_if_lost-Grows :
      (c : WatchedClient) (p : Dict WgValue) (before : Option (Dict WgValue))
      → Grows (clear_if_lost outcome c p before)
  clear_if_lost-Grows c p none = elim (Bool-cases (has_handshake p)) [
    | inl shaken ↦ rw shaken done-Grows
    | inr never ↦ rw never (λ q w h. h)
  ]
  clear_if_lost-Grows c p (some before) = elim (Bool-cases (has_handshake p)) [
    | inl shaken ↦ rw shaken done-Grows
    | inr never ↦ rw never (elim (Bool-cases (has_handshake before)) [
      | inl lost ↦ rw lost (patch_object-Grows c.name clear_wireguard)
      | inr neither ↦ rw neither done-Grows
    ])
  ]

  update_with-Grows :
      (c : WatchedClient) (p : Dict WgValue) (st : Option (Option (Dict WgValue)))
      → Grows (update_with outcome c p st)
  update_with-Grows c p none =
      then-Grows (patch_object outcome c.name make_status) (raise key_error)
        (patch_object-Grows c.name make_status) (λ q w h. h)
  update_with-Grows c p (some before) = elim (Bool-cases (is_stored p before)) [
    | inl stored ↦ rw stored done-Grows
    | inr other ↦ rw other (
        then-Grows (clear_if_lost outcome c p before) _ (clear_if_lost-Grows c p before)
          (patch_object-Grows c.name (set_wireguard p)))
  ]

  with_peer-Grows :
      (c : WatchedClient) (r : Result (Option (Dict WgValue))) → Grows (with_peer outcome c r)
  unfolding update_status
  with_peer-Grows c (ok none) q w h = h
  with_peer-Grows c (ok (some p)) q w h = update_with-Grows c p c.status q w h
  with_peer-Grows c (err key_error) q w h = h
  with_peer-Grows c (err x) q w h = h

  if_active-Grows :
      (peers : List (Dict WgValue)) (c : WatchedClient) (r : Result Bool)
      → Grows (if_active outcome peers c r)
  if_active-Grows peers c (ok true) q w h = with_peer-Grows c (find_peer c.public_key peers) q w h
  if_active-Grows peers c (ok false) q w h = h
  if_active-Grows peers c (err x) q w h = h

  watch_client-Grows :
      (peers : List (Dict WgValue)) (c : WatchedClient) → Grows (watch_client outcome peers c)
  unfolding watch_client
  watch_client-Grows peers c q w h =
      subst (λ (v : List Patched). Occurs q v) (sym (caught-world _))
        (if_active-Grows peers c c.is_active q w h)

  watch_client-ok :
      (peers : List (Dict WgValue)) (c : WatchedClient) (w : List Patched)
      → (watch_client outcome peers c w).1 ≡ ok tt
  unfolding watch_client
  watch_client-ok peers c w = caught-ok (if_active outcome peers c c.is_active w)

  and_then-ok :
      (r : List Patched × Result (Unit {0})) (next : Action (List Patched) (Unit {0}))
      → r.1 ≡ ok tt
      → and_then r (λ _. next) ≡ next r.0
  and_then-ok (w, ok u) next e = refl
  and_then-ok (w, err x) next e = cc

  watch_clients-cons :
      (peers : List (Dict WgValue)) (c : WatchedClient) (cs : List WatchedClient) (w : List Patched)
      → watch_clients outcome peers (c ∷ cs) w
        ≡ watch_clients outcome peers cs (watch_client outcome peers c w).0
  unfolding watch_clients
  watch_clients-cons peers c cs w =
      and_then-ok (watch_client outcome peers c w) _ (watch_client-ok peers c w)

  watch_clients-Grows :
      (peers : List (Dict WgValue)) (cs : List WatchedClient)
      → Grows (watch_clients outcome peers cs)
  unfolding watch_clients
  watch_clients-Grows peers [] = done-Grows
  watch_clients-Grows peers (c ∷ cs) =
      then-Grows (watch_client outcome peers c) _ (watch_client-Grows peers c)
        (watch_clients-Grows peers cs)

  -- A client whose status is out of date, with patches that succeed.
  module _ (peers : List (Dict WgValue)) (c : WatchedClient) (p : Dict WgValue)
      (before : Option (Dict WgValue)) (active : c.is_active ≡ ok true)
      (found : find_peer c.public_key peers ≡ ok (some p)) (status : c.status ≡ some before)
      (changed : is_stored p before ≡ false) (shaken : before ≡ none → has_handshake p ≡ true)
      (fine : (w : List Patched) (patch : Patch) → outcome w (patch_of c.name patch) ≡ ok tt) where
    patch_object-fine :
        (patch : Patch) (w : List Patched)
        → patch_object outcome c.name patch w ≡ (patch_of c.name patch ∷ w, ok tt)
    unfolding patch_object
    patch_object-fine patch w = rw (fine w patch) refl

    clear_if_lost-fine :
        (b : Option (Dict WgValue)) (w : List Patched)
        → (b ≡ none → has_handshake p ≡ true)
        → (v : List Patched) × (clear_if_lost outcome c p b w ≡ (v, ok tt))
    clear_if_lost-fine none w h = (w, rw (h refl) refl)
    clear_if_lost-fine (some b) w h = elim (Bool-cases (has_handshake p)) [
      | inl yet ↦ (w, rw yet refl)
      | inr never ↦ elim (Bool-cases (has_handshake b)) [
        | inl lost ↦ (
          patch_of c.name clear_wireguard ∷ w,
          rw (never, lost) (patch_object-fine clear_wireguard w),
        )
        | inr neither ↦ (w, rw (never, neither) refl)
      ]
    ]

    write_peer-Occurs :
        (w : List Patched)
        → Occurs (patch_of c.name (set_wireguard p)) (write_peer outcome c p before w).0
    write_peer-Occurs w =
        let cleared = clear_if_lost-fine before w shaken in
        rw (cleared.1, patch_object-fine (set_wireguard p) cleared.0) (Occurs-here _ cleared.0)

    watched :
        (w : List Patched)
        → if_active outcome peers c c.is_active w ≡ write_peer outcome c p before w
    unfolding update_status
    watched w =
        ap (λ r. if_active outcome peers c r w) active
        ∙ ap (λ r. with_peer outcome c r w) found
        ∙ ap (λ st. update_with outcome c p st w) status
        ∙ rw changed refl

    watch_client-Occurs :
        (w : List Patched)
        → Occurs (patch_of c.name (set_wireguard p)) (watch_client outcome peers c w).0
    unfolding watch_client
    watch_client-Occurs w =
        subst (λ (v : List Patched). Occurs (patch_of c.name (set_wireguard p)) v)
          (sym (caught-world _ ∙ ap (λ (r : List Patched × Result (Unit {0})). r.0) (watched w)))
          (write_peer-Occurs w)

    watched_after :
        (first rest : List WatchedClient) (w : List Patched)
        → Occurs
            (patch_of c.name (set_wireguard p))
            (watch_clients outcome peers (first ++ (c ∷ rest)) w).0
    watched_after [] rest w = rw (watch_clients-cons peers c rest w) (
        watch_clients-Grows peers rest (patch_of c.name (set_wireguard p)) _
          (watch_client-Occurs w))
    watched_after (d ∷ first) rest w =
        rw (watch_clients-cons peers d (first ++ (c ∷ rest)) w) (watched_after first rest _)

    pub watch_clients-Occurs :
        (cs : List WatchedClient) (w : List Patched)
        → Occurs c cs
        → Occurs (patch_of c.name (set_wireguard p)) (watch_clients outcome peers cs w).0
    watch_clients-Occurs cs w (first, rest, e) =
        subst
          (λ (l : List WatchedClient).
            Occurs (patch_of c.name (set_wireguard p)) (watch_clients outcome peers l w).0)
          (sym e) (watched_after first rest w)
