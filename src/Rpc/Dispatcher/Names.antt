-- ===== src/Rpc/Dispatcher/Names.antt =====
-- How a full method name splits into service and method.
use mcoro_rpc.Common.{
  ℕ, suc, ◌≡◌, ◌≢◌, ◌↔◌, refl, ap, ap₂, ◌∙◌, [], ◌∷◌, ◌++◌, none, some, Bytes, Option-cases, inl,
  inr, take, drop, arith,
}
use mcoro_rpc.Rpc.Dispatcher.{rfind, dot, parse_service_full_name}

-- No character of the name is this one.
abbrev pub Lacks : ℕ → Bytes → Type 0
Lacks k [] = Unit {0}
Lacks k (c ∷ cs) = (c ≢ k) × Lacks k cs

pub rfind-Lacks : (k : ℕ) (cs : Bytes) → Lacks k cs → rfind k cs ≡ none
unfolding rfind
rfind-Lacks k [] l = refl
rfind-Lacks k (c ∷ cs) l = ground (arith, rfind-Lacks k cs l.1)

pub rfind_last :
    (k : ℕ) (xs cs : Bytes)
    → Lacks k cs
    → (n : ℕ) × (rfind k (xs ++ (k ∷ cs)) ≡ some n)
      × (take n (xs ++ (k ∷ cs)) ≡ xs)
      × (drop (suc n) (xs ++ (k ∷ cs)) ≡ cs)
unfolding rfind
rfind_last k [] cs l = (0, ground (arith, rfind-Lacks k cs l), refl, refl)
rfind_last k (x ∷ xs) cs l =
    let (n, e, f, g) = rfind_last k xs cs l in (suc n, rw (e, rfind), ap (λ t. x ∷ t) f, g)

rfind-none : (k : ℕ) (cs : Bytes) → rfind k cs ≡ none → Lacks k cs
unfolding rfind
rfind-none k [] e = tt
rfind-none k (c ∷ cs) e = elim (Option-cases (rfind k cs)) [
  | inl f ↦ ground (arith, f, rfind-none k cs f)
  | inr (n, f) ↦ ground (arith, f)
]

rfind-some :
    (k : ℕ) (cs : Bytes) (n : ℕ)
    → rfind k cs ≡ some n
    → (cs ≡ take n cs ++ (k ∷ drop (suc n) cs)) × Lacks k (drop (suc n) cs)
unfolding rfind
rfind-some k [] n e = ground arith
rfind-some k (c ∷ cs) n e = elim (Option-cases (rfind k cs)) [
  | inl f ↦ ground (arith, f, rfind-none k cs f)
  | inr (m, f) ↦ ground (arith, f, rfind-some k cs m f)
]

parse_of_parts :
    (service method : Bytes)
    → Lacks dot method
    → parse_service_full_name (service ++ (dot ∷ method)) ≡ some (service, method)
unfolding parse_service_full_name
parse_of_parts [] method l =
    let (n, e, f, g) = rfind_last dot [] method l in
    rw (e, parse_service_full_name) (ap₂ (λ s m. some (s, m)) f g)
parse_of_parts (c ∷ cs) method l =
    let (n, e, f, g) = rfind_last dot (c ∷ cs) method l in
    rw (e, parse_service_full_name) (ap₂ (λ s m. some (s, m)) f g)

parts_of_parse :
    (full service method : Bytes)
    → parse_service_full_name full ≡ some (service, method)
    → (full ≡ service ++ (dot ∷ method)) × Lacks dot method
unfolding parse_service_full_name
parts_of_parse [] service method e = ground arith
parts_of_parse (c ∷ cs) service method e = elim (Option-cases (rfind dot (c ∷ cs))) [
  | inl f ↦ ground (arith, f)
  | inr (n, f) ↦ ground (arith, f, rfind-some dot (c ∷ cs) n f)
]

-- A full name splits into a service and a method exactly where they are joined by a dot and the
-- method has none: the split is at the last dot.
pub parse_service_full_name_iff :
    (full service method : Bytes)
    → (parse_service_full_name full ≡ some (service, method))
      ↔ ((full ≡ service ++ (dot ∷ method)) × Lacks dot method)
parse_service_full_name_iff full service method = (
  parts_of_parse full service method,
  λ h. ap parse_service_full_name h.0 ∙ parse_of_parts service method h.1,
)
