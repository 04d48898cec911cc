-- ===== src/Activator/Reuse/Registered.antt =====
-- What registerListeners of activator/reuse/listener.go leaves: for each port and network the
-- application's listener that was found last.
use zeropod.Base.{
  ℕ, ◌≡◌, refl, sym, ◌∙◌, ap, Bool, true, false, not, ◌&&◌, Option, none, some, List, [], ◌∷◌, map,
  Text, same, eq_of_same, Result, ok, err, length, ltb, ◌==◌, ==_iff, if-cases, if_false,
  if◌then◌else◌, arith, same_refl,
}
use mathlib.Core.Path.{ap₂}
use zeropod.Activator.Interface.{ActivatorError}
use zeropod.Activator.Reuse.{
  Group, Found, Reuse, ReuseCalls, close_group, put_group, has_group, register_each, register_found,
}

-- The user and the descriptor of the application's listener in the group of a port and a network.
abbrev pub app_of : ℕ → Text → List Group → Option (ℕ × ℕ)
app_of p n [] = none
app_of p n (g ∷ gs) =
    let rest = app_of p n gs in
    if g.port == p && same g.network n then some (g.uid, g.app_fd) else rest

abbrev pub either : {A : Type 0} → Option A → Option A → Option A
either none o = o
either (some a) o = some a

abbrev pub found_app : ℕ → Text → Found → Option (ℕ × ℕ)
found_app p n f =
    if f.has_fd && (f.port == p && same f.network n) then some (f.uid, f.orig_fd) else none

-- The last of the sockets of a port and a network that were duplicated.
abbrev pub last_found : ℕ → Text → List Found → Option (ℕ × ℕ)
last_found p n [] = none
last_found p n (f ∷ fs) = either (last_found p n fs) (found_app p n f)

either_assoc : {A : Type 0} (a b c : Option A) → either (either a b) c ≡ either a (either b c)
either_assoc none b c = refl
either_assoc (some x) b c = refl

-- The keys of two groups that agree are hit by the same port and network.
hit-eq :
    (p q r : ℕ) (n x y : Text)
    → (q == r && same x y) ≡ true
    → (q == p && same x n) ≡ (r == p && same y n)
hit-eq p q r n x y h =
    let is_port : q ≡ r = (==_iff q r).0 (ground arith) in
    let is_network : x ≡ y = eq_of_same x y (ground arith) in
    ap₂ (λ i z. i == p && same z n) is_port is_network

-- Two keys that the same port and network hit agree.
hit-both :
    (p q r : ℕ) (n x y : Text)
    → (q == p && same x n) ≡ true
    → (r == p && same y n) ≡ true
    → (q == r && same x y) ≡ true
hit-both p q r n x y h k =
    let is_x : x ≡ n = eq_of_same x n (ground arith) in
    let is_y : y ≡ n = eq_of_same y n (ground arith) in
    let is_same : same x y ≡ true = ap₂ same is_x is_y ∙ same_refl n in ground arith

replaced :
    {A : Type 0} (a b : Bool) (x y z : A)
    → a ≡ b
    → (if a then x else z) ≡ (if b then x else (if a then y else z))
replaced true true x y z e = refl
replaced false false x y z e = refl
replaced true false x y z e = absurd cc
replaced false true x y z e = absurd cc

passed :
    {A : Type 0} (a b : Bool) (x y z t : A)
    → t ≡ (if b then x else z)
    → (a ≡ true → b ≡ true → ⊥)
    → (if a then y else t) ≡ (if b then x else (if a then y else z))
passed true true x y z t e h = absurd (h refl refl)
passed true false x y z t e h = refl
passed false true x y z t e h = e
passed false false x y z t e h = e

app-put_group :
    (p : ℕ) (n : Text) (f : Found) (gs : List Group)
    → app_of p n (put_group f gs)
      ≡ (if f.port == p && same f.network n then some (f.uid, f.orig_fd) else app_of p n gs)
unfolding put_group
app-put_group p n f [] = refl
app-put_group p n f (g ∷ gs) =
    if-cases {B = List Group}
      (λ hs. app_of p n hs ≡ (
        if f.port == p && same f.network n then some (f.uid, f.orig_fd) else app_of p n (g ∷ gs)))
      (g.port == f.port && same g.network f.network)
      (λ h.
        replaced (g.port == p && same g.network n) (f.port == p && same f.network n)
          (some (f.uid, f.orig_fd)) (some (g.uid, g.app_fd)) (app_of p n gs)
          (hit-eq p g.port f.port n g.network f.network h))
      (λ h.
        passed (g.port == p && same g.network n) (f.port == p && same f.network n)
          (some (f.uid, f.orig_fd)) (some (g.uid, g.app_fd)) (app_of p n gs)
          (app_of p n (put_group f gs)) (app-put_group p n f gs)
          (λ a b. let agree = hit-both p g.port f.port n g.network f.network a b in absurd cc))

pub app-close_group :
    (p : ℕ) (n : Text) (b : Bool) (gs : List Group)
    → app_of p n (map (close_group b) gs) ≡ app_of p n gs
unfolding close_group
app-close_group p n b [] = refl
app-close_group p n b (g ∷ gs) =
    ap (λ o. if g.port == p && same g.network n then some (g.uid, g.app_fd) else o)
      (app-close_group p n b gs)

module _ (w : ReuseCalls) (p : ℕ) (n : Text) where
  abbrev Holds : List Found → List Group → Result ActivatorError (Unit {0}) × List Group → Type 0
  Holds fs gs r = r.0 ≡ ok tt → app_of p n r.1 ≡ either (last_found p n fs) (app_of p n gs)

  found-either :
      (f : Found) (gs : List Group)
      → f.has_fd ≡ true
      → app_of p n (put_group f gs) ≡ either (found_app p n f) (app_of p n gs)
  found-either f gs h =
      app-put_group p n f gs
      ∙ chosen (app_of p n gs) (f.uid, f.orig_fd) f.has_fd (f.port == p && same f.network n) h
    where
      chosen :
          (x : Option (ℕ × ℕ)) (y : ℕ × ℕ) (a b : Bool)
          → a ≡ true
          → (if b then some y else x) ≡ either (if a && b then some y else none) x
      chosen x y true true e = refl
      chosen x y true false e = refl
      chosen x y false b e = absurd cc

  not_found : (f : Found) → not f.has_fd ≡ true → found_app p n f ≡ none
  not_found f h = if_false {b = f.has_fd && (f.port == p && same f.network n)} _ (ground arith)

  either-none : {A : Type 0} (o : Option A) → either o none ≡ o
  either-none none = refl
  either-none (some a) = refl

  register_each-Holds : (fs : List Found) (gs : List Group) → Holds fs gs (register_each w fs gs)
  unfolding register_each
  register_each-Holds [] gs = λ e. refl
  register_each-Holds (f ∷ fs) gs =
      if-cases {B = Result ActivatorError (Unit {0}) × List Group} (Holds (f ∷ fs) gs)
        (not f.has_fd)
        (λ h e.
          register_each-Holds fs gs e
          ∙ ap (λ o. either o (app_of p n gs))
              (sym (
                ap (either (last_found p n fs)) (not_found f h) ∙ either-none (last_found p n fs))))
        (λ h.
          if-cases {B = Result ActivatorError (Unit {0}) × List Group} (Holds (f ∷ fs) gs)
            (not (has_group f gs) && not (w.loads f.port)) (λ _ e. absurd cc)
            (λ _.
              if-cases {B = Result ActivatorError (Unit {0}) × List Group} (Holds (f ∷ fs) gs)
                (w.attaches f.port)
                (λ _ e.
                  register_each-Holds fs (put_group f gs) e
                  ∙ ap (either (last_found p n fs)) (found-either f gs (ground arith))
                  ∙ sym (either_assoc (last_found p n fs) (found_app p n f) (app_of p n gs)))
                (λ _ e. absurd cc)))

-- What a registration without an error found, and what it leaves of the groups `before`.
pub record Registered (x : Result ActivatorError (List Found)) (s : Reuse) (after : List Group)
    : Type 0 where
  pub found : List Found
  pub is_found : x ≡ ok found
  pub enough : ltb (length found) (length s.ports) ≡ false
  pub apps :
      (p : ℕ) (n : Text) → app_of p n after ≡ either (last_found p n found) (app_of p n s.groups)

pub register_found-Registered :
    (w : ReuseCalls) (x : Result ActivatorError (List Found)) (s : Reuse)
    → (register_found w x s).0 ≡ ok tt
    → Registered x s (register_found w x s).1.groups
unfolding register_found
register_found-Registered w (err e) s = λ h. absurd cc
register_found-Registered w (ok []) s = λ h. absurd cc
register_found-Registered w (ok (f ∷ fs)) s =
    if-cases {B = Result ActivatorError (Unit {0}) × Reuse}
      (λ r. r.0 ≡ ok tt → Registered (ok (f ∷ fs)) s r.1.groups)
      (ltb (length (f ∷ fs)) (length s.ports)) (λ _ h. absurd cc)
      (λ l h. record {
        found = f ∷ fs;
        is_found = refl;
        enough = l;
        apps = λ p n. register_each-Holds w p n (f ∷ fs) s.groups h;
      })

-- Closing the listeners of the groups leaves what is registered.
pub close-Registered :
    (x : Result ActivatorError (List Found)) (s : Reuse) (gs : List Group)
    → Registered x s gs
    → Registered x s (map (close_group true) gs)
close-Registered x s gs h = record {
  found = h.found;
  is_found = h.is_found;
  enough = h.enough;
  apps = λ p n. app-close_group p n true gs ∙ h.apps p n;
}
