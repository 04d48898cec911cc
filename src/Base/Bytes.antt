-- ===== src/Base/Bytes.antt =====
-- Go strings as lists of bytes, with equality and the splitting of the strings package.
use Prim.Native.Nat.{ℕ}
use Prim.Native.Char.{code}
use Prim.Native.String.{String}
use mathlib.Core.Path.{◌≡◌, refl, ap, ap₂, ◌∙◌}
use mathlib.Core.Logic.{◌↔◌}
use mathlib.Core.Bool.{Bool, true, false, ◌&&◌}
use mathlib.Core.List.{List, [], ◌∷◌, ◌++◌}
use native.Mathlib.Omega.{arith}
use zeropod.Base.Tests.{◌==◌, if◌then◌else◌}
use zeropod.Base.Lists.{any}

abbrev pub Text : Type 0
Text = List ℕ

abbrev pub codes : String → Text
codes String.[] = []
codes (String.◌∷◌ c s) = code c ∷ codes s

abbrev pub same : Text → Text → Bool
same [] [] = true
same [] (y ∷ ys) = false
same (x ∷ xs) [] = false
same (x ∷ xs) (y ∷ ys) = x == y && same xs ys

pub same_refl : (s : Text) → same s s ≡ true
same_refl [] = refl
same_refl (x ∷ xs) = ground (arith, same_refl xs)

pub eq_of_same : (s t : Text) → same s t ≡ true → s ≡ t
eq_of_same [] [] h = refl
eq_of_same [] (y ∷ ys) h = cc
eq_of_same (x ∷ xs) [] h = cc
eq_of_same (x ∷ xs) (y ∷ ys) h = ap₂ ◌∷◌ (ground arith) (eq_of_same xs ys (ground arith))

pub same_iff : (s t : Text) → (same s t ≡ true) ↔ (s ≡ t)
same_iff s t = (eq_of_same s t, λ e. rw e (same_refl t))

abbrev pub is_empty : Text → Bool
is_empty [] = true
is_empty (x ∷ xs) = false

-- slices.Contains
abbrev pub contains : List Text → Text → Bool
contains xs s = any (λ x. same x s) xs

abbrev push_head : ℕ → List Text → List Text
push_head c [] = (c ∷ []) ∷ []
push_head c (w ∷ ws) = (c ∷ w) ∷ ws

-- strings.Split and strings.SplitSeq with a separator of one byte
unfoldable pub split : ℕ → Text → List Text
split d [] = [] ∷ []
split d (c ∷ s) = let rest = split d s in if c == d then [] ∷ rest else push_head c rest

-- The separator does not occur in the text.
abbrev pub Free : ℕ → Text → Type 0
Free d [] = Unit {0}
Free d (c ∷ s) = (c == d) ≡ false × Free d s

-- strings.Join with a separator of one byte
unfoldable pub join : ℕ → List Text → Text
join d [] = []
join d (w ∷ []) = w
join d (w ∷ v ∷ ws) = w ++ (d ∷ join d (v ∷ ws))

pub split-Free : (d : ℕ) (w : Text) → Free d w → split d w ≡ w ∷ []
unfolding split
split-Free d [] h = refl
split-Free d (c ∷ s) h = rw (h.0, split-Free d s h.1)

pub split_at : (d : ℕ) (w rest : Text) → Free d w → split d (w ++ (d ∷ rest)) ≡ w ∷ split d rest
unfolding split
split_at d [] rest h = ground arith
split_at d (c ∷ s) rest h = rw (h.0, split_at d s rest h.1)

abbrev pub AllFree : ℕ → List Text → Type 0
AllFree d [] = Unit {0}
AllFree d (w ∷ ws) = Free d w × AllFree d ws

-- Splitting undoes joining, for one or more texts that do not hold the separator.
pub split-join :
    (d : ℕ) (w : Text) (ws : List Text) → AllFree d (w ∷ ws) → split d (join d (w ∷ ws)) ≡ w ∷ ws
unfolding join
split-join d w [] h = split-Free d w h.0
split-join d w (v ∷ ws) h = split_at d w (join d (v ∷ ws)) h.0 ∙ ap (◌∷◌ w) (split-join d v ws h.1)

pub Free-append : (d : ℕ) (v w : Text) → Free d v → Free d w → Free d (v ++ w)
Free-append d [] w hv hw = hw
Free-append d (c ∷ v) w hv hw = (hv.0, Free-append d v w hv.1 hw)

pub Free-join :
    (d sep : ℕ) (ws : List Text) → (sep == d) ≡ false → AllFree d ws → Free d (join sep ws)
unfolding join
Free-join d sep [] e h = tt
Free-join d sep (w ∷ []) e h = h.0
Free-join d sep (w ∷ v ∷ ws) e h = Free-append d w _ h.0 (e, Free-join d sep (v ∷ ws) e h.1)
