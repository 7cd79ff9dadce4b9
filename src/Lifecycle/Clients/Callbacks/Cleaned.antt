-- ===== src/Lifecycle/Clients/Callbacks/Cleaned.antt =====
-- Deleting the bridges of a client, and its end.
use gefyra.Prelude.{
  ◌≡◌, sym, ap, ◌∙◌, inl, inr, List, [], ◌∷◌, ◌++◌, map, Text, Bool-cases, append_assoc,
  if◌then◌else◌,
}
use mathlib.Core.List.{reverse, reverse-cons}
use gefyra.Result.{Result, ok, Result-cases}
use gefyra.Lifecycle.Machine.{and_then-eq-ok}
use gefyra.Stowaway.ConfigMaps.{ConfigMapApi}
use gefyra.Lifecycle.Clients.Callbacks.{
  Client, World, Call, delete_bridge, ListedBridge, recorded, call, is_own, delete_bridges,
  cleanup_all_bridges,
}

module _ (api : ConfigMapApi) (client : Client)
    (outcome : World api → Call → Result (Unit {0})) where
  abbrev W : Type 0
  W = World api

  -- The names of the listed bridges of the client.
  unfoldable pub own_bridges : List ListedBridge → List Text
  own_bridges [] = []
  own_bridges (b ∷ bs) =
      let rest = own_bridges bs in if is_own api client b then b.name ∷ rest else rest

  -- The deletions of bridges, the last one first, before the calls.
  abbrev deletions : List Text → List Call → List Call
  deletions bs calls = reverse (map delete_bridge bs) ++ calls

  deletions-cons :
      (b : Text) (bs : List Text) (calls : List Call)
      → deletions bs (delete_bridge b ∷ calls) ≡ deletions (b ∷ bs) calls
  deletions-cons b bs calls = sym (
      ap (λ (l : List Call). l ++ calls) (reverse-cons (delete_bridge b) (map delete_bridge bs))
      ∙ append_assoc (reverse (map delete_bridge bs)) (delete_bridge b ∷ []) calls)

  pub made-ok : (w v : W) (c : Call) → call api outcome c w ≡ (v, ok tt) → v ≡ recorded api w c
  unfolding call
  made-ok w v c e = elim (Result-cases (outcome w c)) [
    | inl (u, fine) ↦ ap (λ (y : W × Result (Unit {0})). y.0) (sym (rw fine at e))
    | inr (x, failed) ↦ cc (ap (λ (y : W × Result (Unit {0})). y.1) (rw failed at e))
  ]

  pub delete_bridges-calls :
      (bs : List ListedBridge) (w v : W)
      → delete_bridges api client outcome bs w ≡ (v, ok tt)
      → v ≡ record w { calls = deletions (own_bridges bs) w.calls }
  unfolding delete_bridges own_bridges
  delete_bridges-calls [] w v e = ap (λ (y : W × Result (Unit {0})). y.0) (sym e)
  delete_bridges-calls (b ∷ bs) w v e = elim (Bool-cases (is_own api client b)) [
    | inl own ↦
        let (u, a, e1, e2) =
          and_then-eq-ok v (call api outcome (delete_bridge b.name) w)
            (λ _. delete_bridges api client outcome bs) (rw own at e) in
        let here = made-ok w u (delete_bridge b.name) e1 in
        rw own (
          delete_bridges-calls bs u v e2
          ∙ ap (λ (x : W). record x { calls = deletions (own_bridges bs) x.calls }) here
          ∙ ap (λ (l : List Call). record w { calls = l })
              (deletions-cons b.name (own_bridges bs) w.calls))
    | inr other ↦ rw other (delete_bridges-calls bs w v (rw other at e))
  ]

  -- a
  pub cleanup_all_bridges_lem :
      (w v : W)
      → cleanup_all_bridges api client outcome w ≡ (v, ok tt)
      → (bs : List ListedBridge) × (client.bridges ≡ ok bs)
        × (v ≡ record w { calls = reverse (map delete_bridge (own_bridges bs)) ++ w.calls })
  unfolding cleanup_all_bridges
  cleanup_all_bridges_lem w v e = elim (Result-cases client.bridges) [
    | inl (bs, listed) ↦ (bs, listed, delete_bridges-calls bs w v (rw listed at e))
    | inr (x, failed) ↦ cc (ap (λ (y : W × Result (Unit {0})). y.1) (rw failed at e))
  ]
