-- ===== src/Shim/Init/Ports.antt =====
-- The ports that an activator is started with (Listeners.Ports of activator/net.go).
use zeropod.Base.{
  ℕ, ◌≡◌, refl, false, List, [], ◌∷◌, contains_num, if-cases, ◌∙◌, arith, ◌==◌, ◌||◌,
}
use zeropod.Activator.Interface.{unique_ports}

-- No port stands twice.
abbrev pub Distinct : List ℕ → Type 0
Distinct [] = Unit
Distinct (p ∷ ps) = (contains_num ps p ≡ false) × Distinct ps

unique-contains : (ps : List ℕ) (p : ℕ) → contains_num (unique_ports ps) p ≡ contains_num ps p
unfolding unique_ports
unique-contains [] p = refl
unique-contains (q ∷ ps) p =
    if-cases (λ u. contains_num u p ≡ (q == p || contains_num ps p)) (contains_num ps q)
      (λ e. ground (arith, unique-contains ps p)) (λ e. ground (arith, unique-contains ps p))

unique-Distinct : (ps : List ℕ) → Distinct (unique_ports ps)
unfolding unique_ports
unique-Distinct [] = tt
unique-Distinct (q ∷ ps) =
    if-cases Distinct (contains_num ps q) (λ _. unique-Distinct ps)
      (λ e. (unique-contains ps q ∙ e, unique-Distinct ps))

-- The unique ports are distinct, and are the same ports.
pub unique_ports-Distinct :
    (ps : List ℕ) (p : ℕ)
    → Distinct (unique_ports ps) × (contains_num (unique_ports ps) p ≡ contains_num ps p)
unique_ports-Distinct ps p = (unique-Distinct ps, unique-contains ps p)
