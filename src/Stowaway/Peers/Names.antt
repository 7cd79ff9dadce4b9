-- ===== src/Stowaway/Peers/Names.antt =====
-- Translated peer names, and lists of them as texts.
use gefyra.Prelude.{
  push_front, ℕ, ◌≡◌, ◌≢◌, refl, ap, false, ◌&&◌, not, List, [], ◌∷◌, ◌++◌, arith, Text, text_eq,
  text_eq_iff, ◌==◌, has_text, split_on, join_with, split_on-join_with, Lacks, All, Bool-cases, inl,
  inr,
}
use gefyra.Stowaway.Peers.{is_plain, translate_peer_name, remove_first}

pub translate_peer_name-Lacks : (s : Text) → Lacks b',' (translate_peer_name s)
unfolding translate_peer_name
translate_peer_name-Lacks [] = tt
translate_peer_name-Lacks (c ∷ s) = elim (Bool-cases (is_plain c)) [
  | inl plain ↦ rw plain (ground arith, translate_peer_name-Lacks s)
  | inr other ↦ rw other (refl, (refl, (refl, translate_peer_name-Lacks s)))
]

pub translate_peer_name-ne-nil : (c : ℕ) (s : Text) → translate_peer_name (c ∷ s) ≢ []
unfolding translate_peer_name
translate_peer_name-ne-nil c s e = ground arith

translate_peer_name-append :
    (s t : Text) → translate_peer_name (s ++ t) ≡ translate_peer_name s ++ translate_peer_name t
unfolding translate_peer_name
translate_peer_name-append [] t = refl
translate_peer_name-append (c ∷ s) t = ground (arith, translate_peer_name-append s t)

-- Two peers whose names differ only in one character, which is no letter and no digit in either,
-- have the same translated name.
pub translate_peer_name_collides :
    (s t : Text) (c d : ℕ)
    → is_plain c ≡ false
    → is_plain d ≡ false
    → translate_peer_name (s ++ (c ∷ t)) ≡ translate_peer_name (s ++ (d ∷ t))
unfolding translate_peer_name
translate_peer_name_collides [] t c d hc hd = rw (hc, hd)
translate_peer_name_collides (x ∷ s) t c d hc hd =
    ground (arith, translate_peer_name_collides s t c d hc hd)

-- The parts of a split have no separator.
push_front-Lacks :
    (c d : ℕ) (ws : List Text)
    → (d == c) ≡ false
    → All (Lacks c) ws
    → All (Lacks c) (push_front d ws)
push_front-Lacks c d [] h a = ((h, tt), tt)
push_front-Lacks c d (w ∷ ws) h a = ((h, a.0), a.1)

pub split_on-Lacks : (c : ℕ) (s : Text) → All (Lacks c) (split_on c s)
unfolding split_on
split_on-Lacks c [] = (tt, tt)
split_on-Lacks c (d ∷ s) = elim (Bool-cases (d == c)) [
  | inl cut ↦ rw cut (tt, split_on-Lacks c s)
  | inr other ↦ rw other (push_front-Lacks c d (split_on c s) other (split_on-Lacks c s))
]

-- Through a text, a list keeps its members that are not empty.
pub has_text-split_on-join_with :
    (w : Text) (ws : List Text)
    → w ≢ []
    → All (Lacks b',') ws
    → has_text w (split_on b',' (join_with b',' ws)) ≡ has_text w ws
has_text-split_on-join_with [] ws n h = absurd (n refl)
has_text-split_on-join_with (c ∷ w) [] n h = unfold split_on join_with text_eq in refl
has_text-split_on-join_with (c ∷ w) (v ∷ ws) n h =
    ap (has_text (c ∷ w)) (split_on-join_with b',' v ws h)

-- No text twice.
abbrev pub IsUnique : List Text → Type 0
IsUnique [] = Unit
IsUnique (w ∷ ws) = (has_text w ws ≡ false) × IsUnique ws

pub remove_first-Lacks :
    (w : Text) (ws : List Text) → All (Lacks b',') ws → All (Lacks b',') (remove_first w ws)
unfolding remove_first
remove_first-Lacks w [] h = tt
remove_first-Lacks w (v ∷ ws) h = elim (Bool-cases (text_eq v w)) [
  | inl same ↦ rw same h.1
  | inr other ↦ rw other (h.0, remove_first-Lacks w ws h.1)
]

pub has_text-remove_first :
    (w u : Text) (ws : List Text)
    → IsUnique ws
    → has_text u (remove_first w ws) ≡ (not (text_eq w u) && has_text u ws)
unfolding remove_first
has_text-remove_first w u [] h = ground arith
has_text-remove_first w u (v ∷ ws) h = ground (
  arith,
  has_text-remove_first w u ws h.1,
  text_eq_iff v w,
  text_eq_iff v u,
  text_eq_iff w u,
  h.0,
)

pub remove_first-IsUnique : (w : Text) (ws : List Text) → IsUnique ws → IsUnique (remove_first w ws)
unfolding remove_first
remove_first-IsUnique w [] h = tt
remove_first-IsUnique w (v ∷ ws) h = elim (Bool-cases (text_eq v w)) [
  | inl same ↦ rw same h.1
  | inr other ↦
      rw other
        (ground (arith, has_text-remove_first w v ws h.1, h.0), remove_first-IsUnique w ws h.1)
]
