-- ===== src/Stowaway/Services/Plain.antt =====
-- Services in a list, where a call fails only for a name that is there already or missing.
use gefyra.Prelude.{
  ◌≡◌, refl, ◌⊎◌, inl, inr, true, false, List, [], ◌∷◌, arith, Text, text_eq, text_eq_iff,
  text_eq_refl, if◌then◌else◌, Bool-cases,
}
use gefyra.Prelude.Dict.{Dict}
use gefyra.Result.{Result, ok, err, api_exception, ok-injective}
use gefyra.Stowaway.Services.{ProxyService, ServiceApi, selects, is_named}

abbrev Services : Type 0
Services = List ProxyService

abbrev pub listed : Dict Text → Services → Services
listed selector [] = []
listed selector (v ∷ vs) =
    let rest = listed selector vs in if selects selector v.labels then v ∷ rest else rest

abbrev pub without : Text → Services → Services
without n [] = []
without n (v ∷ vs) = let rest = without n vs in if text_eq v.name n then rest else v ∷ rest

abbrev pub create_in : ProxyService → Services → Result Services
create_in v s = if is_named v.name s then err (api_exception 409) else ok (v ∷ s)

abbrev pub delete_in : Text → Services → Result Services
delete_in n s = if is_named n s then ok (without n s) else err (api_exception 404)

is_named-listed :
    (n : Text) (selector : Dict Text) (vs : Services)
    → is_named n (listed selector vs) ≡ true
    → is_named n vs ≡ true
is_named-listed n selector [] h = cc
is_named-listed n selector (v ∷ vs) h = ground (arith, is_named-listed n selector vs)

pub is_named-without : (n : Text) (vs : Services) → is_named n (without n vs) ≡ false
is_named-without n [] = refl
is_named-without n (v ∷ vs) = ground (arith, is_named-without n vs)

pub listed-without :
    (n m : Text) (selector : Dict Text) (vs : Services)
    → is_named m (listed selector (without n vs)) ≡ true
    → is_named m (listed selector vs) ≡ true
listed-without n m selector [] h = h
listed-without n m selector (v ∷ vs) h = ground (arith, listed-without n m selector vs)

pub listed-missing :
    (n : Text) (selector : Dict Text) (vs : Services)
    → is_named n vs ≡ false
    → is_named n (listed selector vs) ≡ false
listed-missing n selector [] h = refl
listed-missing n selector (v ∷ vs) h = ground (arith, listed-missing n selector vs)

pub front_listed :
    (v : ProxyService) (s : Services) (selector : Dict Text)
    → selects selector v.labels ≡ true
    → is_named v.name (listed selector (v ∷ s)) ≡ true
front_listed v s selector h = rw (h, text_eq_refl v.name) refl

pub front_kept :
    (v : ProxyService) (s : Services) (selector : Dict Text) (n : Text)
    → is_named n (listed selector (v ∷ s)) ≡ true
    → (v.name ≡ n) ⊎ (is_named n (listed selector s) ≡ true)
front_kept v s selector n h = elim (Bool-cases (text_eq v.name n)) [
  | inl same ↦ inl ((text_eq_iff v.name n).0 same)
  | inr other ↦ inr (ground arith)
]

pub create_in-ok : (v : ProxyService) (s t : Services) → create_in v s ≡ ok t → v ∷ s ≡ t
create_in-ok v s t e = ground arith

pub delete_in-ok : (n : Text) (s t : Services) → delete_in n s ≡ ok t → without n s ≡ t
delete_in-ok n s t e = ground arith

pub delete_in-missing :
    (n : Text) (s : Services) → delete_in n s ≡ err (api_exception 404) → is_named n s ≡ false
delete_in-missing n s e = ground arith

-- The store.
abbrev pub plain_services : ServiceApi
plain_services = record {
  Store = Services;
  list = λ selector s. ok (listed selector s);
  create = create_in;
  patch = λ v s. ok (v ∷ without v.name s);
  delete = delete_in;
  created = λ v s t selector vs e f h.
      rw (← ok-injective f, ← create_in-ok v s t e) (front_listed v s selector h);
  create-kept = λ v s t selector n us vs e f g h.
      rw (← ok-injective f)
        (front_kept v s selector n (rw (← ok-injective g, ← create_in-ok v s t e) at h));
  patched = λ v s t selector vs e f h.
      rw (← ok-injective f, ← ok-injective e) (front_listed v (without v.name s) selector h);
  patch-kept = λ v s t selector n us vs e f g h.
      rw (← ok-injective f)
        (elim (front_kept v (without v.name s) selector n
          (rw (← ok-injective g, ← ok-injective e) at h)) [
            | inl same ↦ inl same
            | inr old ↦ inr (listed-without v.name n selector s old)
          ]);
  deleted = λ n s t selector vs e f.
      rw (← ok-injective f, ← delete_in-ok n s t e)
        (listed-missing n selector (without n s) (is_named-without n s));
  delete-kept = λ n m s t selector us vs e f g h.
      rw (← ok-injective f)
        (listed-without n m selector s (rw (← ok-injective g, ← delete_in-ok n s t e) at h));
  not_found = λ n s selector vs e f.
      rw (← ok-injective f) (listed-missing n selector s (delete_in-missing n s e));
}
