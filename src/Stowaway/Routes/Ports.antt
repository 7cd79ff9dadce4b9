-- ===== src/Stowaway/Routes/Ports.antt =====
-- The free port that is found.
use gefyra.Prelude.{
  subst, ==_iff, Option-cases, Option-cases, ℕ, zero, suc, ◌+◌, ◌≤◌, ◌<◌, ◌≡◌, true, false, List,
  [], ◌∷◌, none, some, arith, ◌==◌, if◌then◌else◌, length, Signed, Bool-cases, inl, inr,
}
use gefyra.Carrier.Config.{denotes}
use gefyra.Stowaway.Routes.{is_taken, first_free}

-- A port that is found is in the range and free, and all ports of the range below it are taken.
pub first_free_lem :
    (count start port : ℕ) (taken : List Signed)
    → first_free count start taken ≡ some port
    → (start ≤ port)
      × (port < start + count)
      × (is_taken port taken ≡ false)
      × ((q : ℕ) → start ≤ q → q < port → is_taken q taken ≡ true)
unfolding first_free
first_free_lem zero start port taken e = cc
first_free_lem (suc count) start port taken e = elim (Bool-cases (is_taken start taken)) [
  | inl busy ↦
      let (low, high, free, below) = first_free_lem count (suc start) port taken (rw busy at e) in
      (
        omega arith,
        omega arith,
        free,
        λ q h k. elim (Bool-cases (start == q)) [
          | inl same ↦ subst (λ (x : ℕ). is_taken x taken ≡ true) ((==_iff start q).0 same) busy
          | inr other ↦ below q (ground arith) k
        ],
      )
  | inr free ↦
      let same : some start ≡ some port = rw free at e in
      let here : start ≡ port = cc in
      (omega arith, omega arith, rw (← here) free, λ q h k. absurd (omega arith))
]

-- The list without the first value that is equal to a port.
erase_port : ℕ → List Signed → List Signed
erase_port port [] = []
erase_port port (t ∷ ts) = if denotes t port then ts else t ∷ erase_port port ts

length-erase_port :
    (port : ℕ) (ts : List Signed)
    → is_taken port ts ≡ true
    → length ts ≡ suc (length (erase_port port ts))
unfolding erase_port
length-erase_port port [] h = cc
length-erase_port port (t ∷ ts) h = ground (arith, length-erase_port port ts)

is_taken-erase_port :
    (port q : ℕ) (ts : List Signed)
    → port < q
    → is_taken q ts ≡ true
    → is_taken q (erase_port port ts) ≡ true
unfolding erase_port denotes
is_taken-erase_port port q [] l h = cc
is_taken-erase_port port q (t ∷ ts) l h = ground (arith, is_taken-erase_port port q ts)

-- As many ports in a row as there are need as many values.
run-le-length :
    (count start : ℕ) (ts : List Signed)
    → ((q : ℕ) → start ≤ q → q < start + count → is_taken q ts ≡ true)
    → count ≤ length ts
run-le-length zero start ts all = omega arith
run-le-length (suc count) start ts all =
    let ih =
      run-le-length count (suc start) (erase_port start ts) (λ q h k.
        is_taken-erase_port start q ts (omega arith) (all q (omega arith) (omega arith))) in
    omega (arith, ih, length-erase_port start ts (all start (omega arith) (omega arith)))

first_free-none :
    (count start : ℕ) (taken : List Signed) (q : ℕ)
    → first_free count start taken ≡ none
    → start ≤ q
    → q < start + count
    → is_taken q taken ≡ true
unfolding first_free
first_free-none zero start taken q e h k = absurd (omega arith)
first_free-none (suc count) start taken q e h k = elim (Bool-cases (is_taken start taken)) [
  | inl busy ↦ elim (Bool-cases (start == q)) [
    | inl same ↦ subst (λ (x : ℕ). is_taken x taken ≡ true) ((==_iff start q).0 same) busy
    | inr other ↦
        first_free-none count (suc start) taken q (rw busy at e) (ground arith) (omega arith)
  ]
  | inr free ↦ cc (rw free at e)
]

-- With fewer taken ports than the range has, a free port is found.
pub first_free_total :
    (count start : ℕ) (taken : List Signed)
    → length taken < count
    → (port : ℕ) × (first_free count start taken ≡ some port)
first_free_total count start taken h = elim (Option-cases (first_free count start taken)) [
  | inl gone ↦ absurd (
      omega (
        arith,
        run-le-length count start taken (λ q a b. first_free-none count start taken q gone a b),
      ))
  | inr found ↦ found
]
