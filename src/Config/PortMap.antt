-- ===== src/Config/PortMap.antt =====
-- The port map annotation (NewConfig of api/shim/v1/config.go): what the parser reads is what was
-- written, for the container at hand.
use zeropod.Base.{
  ℕ, ◌+◌, ◌-◌, ◌*◌, ◌≤◌, ◌<◌, ◌^◌, false, ◌≡◌, refl, ap, ◌∙◌, ◌⊎◌, inl, inr, List, [], ◌∷◌, ◌++◌,
  map, Text, arith, is_empty, same, ok, All, join, split, split-join, split_at, split-Free, Free,
  AllFree, Free-join, Free-append, if◌then◌else◌, ◌==◌,
}
use zeropod.Config.Strconv.{parse_digits, parse_uint}
use zeropod.Config.{container_ports, collect_ports, mapping_ports, parse_ports}

-- A number written in decimal is its digits, most significant first.
abbrev pub AllDigits : List ℕ → Type 0
AllDigits = All (λ d. d < 10)

unfoldable pub digits_value : ℕ → List ℕ → ℕ
digits_value n [] = n
digits_value n (d ∷ ds) = digits_value (n * 10 + d) ds

abbrev pub value : List ℕ → ℕ
value = digits_value 0

abbrev pub written : List ℕ → Text
written = map (λ d. 48 + d)

le-digits_value : (n : ℕ) (ds : List ℕ) → n ≤ digits_value n ds
unfolding digits_value
le-digits_value n [] = omega arith
le-digits_value n (d ∷ ds) = omega (arith, le-digits_value (n * 10 + d) ds)

add_sub : (a b : ℕ) → a + b - a ≡ b
add_sub a b = omega arith

parse_digits-written :
    (limit n : ℕ) (ds : List ℕ)
    → AllDigits ds
    → digits_value n ds ≤ limit
    → parse_digits limit n (written ds) ≡ ok (digits_value n ds)
unfolding parse_digits digits_value
parse_digits-written limit n [] h b = refl
parse_digits-written limit n (d ∷ ds) h b = ground (
  arith,
  le-digits_value (n * 10 + d) ds,
  parse_digits-written limit (n * 10 + d) ds h.1,
  ap (λ (t : ℕ). n * 10 + t) (add_sub 48 d),
)

-- A port is written as one or more digits, and fits 16 bits.
abbrev pub IsPort : List ℕ → Type 0
IsPort [] = ⊥
IsPort (d ∷ ds) = AllDigits (d ∷ ds) × (value (d ∷ ds) < 2 ^ 16)

parse_uint-written : (ds : List ℕ) → IsPort ds → parse_uint 16 (written ds) ≡ ok (value ds)
unfolding parse_uint
parse_uint-written [] h = absurd h
parse_uint-written (d ∷ ds) h = parse_digits-written (2 ^ 16 - 1) 0 (d ∷ ds) h.0 (omega arith)

abbrev pub ArePorts : List (List ℕ) → Type 0
ArePorts = All IsPort

parse_ports-written :
    (ps : List (List ℕ)) → ArePorts ps → parse_ports (map written ps) ≡ ok (map value ps)
unfolding parse_ports
parse_ports-written [] h = refl
parse_ports-written (p ∷ ps) h =
    ground (arith, parse_uint-written p h.0, parse_ports-written ps h.1)

-- The digits hold no separator.
abbrev IsSeparator : ℕ → Type 0
IsSeparator c = (c < 48) ⊎ (57 < c)

written-Free : (c : ℕ) (ds : List ℕ) → IsSeparator c → AllDigits ds → Free c (written ds)
written-Free c [] s h = tt
written-Free c (d ∷ ds) s h = (ground arith, written-Free c ds s h.1)

port-Free : (c : ℕ) (p : List ℕ) → IsSeparator c → IsPort p → Free c (written p)
port-Free c [] s h = tt
port-Free c (d ∷ ds) s h = written-Free c (d ∷ ds) s h.0

ports-AllFree :
    (c : ℕ) (ps : List (List ℕ)) → IsSeparator c → ArePorts ps → AllFree c (map written ps)
ports-AllFree c [] s h = tt
ports-AllFree c (p ∷ ps) s h = (port-Free c p s h.0, ports-AllFree c ps s h.1)

-- One mapping: a container's name and its ports.
pub record Mapping : Type 0 where
  pub name : Text
  pub first : List ℕ
  pub others : List (List ℕ)

abbrev pub port_list : Mapping → List (List ℕ)
port_list m = m.first ∷ m.others

pub record IsMapping (m : Mapping) : Type 0 where
  pub no_equals : Free b'=' m.name
  pub no_semicolon : Free b';' m.name
  pub are_ports : ArePorts (port_list m)

abbrev print_ports : Mapping → Text
print_ports m = join b',' (map written (port_list m))

-- `name=port,port,...`
abbrev pub print_mapping : Mapping → Text
print_mapping m = m.name ++ (b'=' ∷ print_ports m)

-- The ports that a mapping adds for the container `name`.
abbrev pub ports_for : Text → Mapping → List ℕ
ports_for name m = if same m.name name then map value (port_list m) else []

print_ports-Free :
    (c : ℕ) (m : Mapping)
    → IsSeparator c
    → (b',' == c) ≡ false
    → IsMapping m
    → Free c (print_ports m)
print_ports-Free c m s e h = Free-join c b',' _ e (ports-AllFree c (port_list m) s h.are_ports)

split-print_mapping :
    (m : Mapping) → IsMapping m → split b'=' (print_mapping m) ≡ m.name ∷ print_ports m ∷ []
split-print_mapping m h =
    split_at b'=' m.name (print_ports m) h.no_equals
    ∙ ap (◌∷◌ m.name)
        (split-Free b'=' (print_ports m) (print_ports-Free b'=' m (inr (omega arith)) refl h))

split-print_ports :
    (m : Mapping) → IsMapping m → split b',' (print_ports m) ≡ map written (port_list m)
split-print_ports m h =
    split-join b',' (written m.first) (map written m.others)
      (ports-AllFree b',' (port_list m) (inl (omega arith)) h.are_ports)

mapping_ports-print :
    (name : Text) (m : Mapping)
    → IsMapping m
    → mapping_ports name (split b'=' (print_mapping m)) ≡ ok (ports_for name m)
unfolding mapping_ports
mapping_ports-print name m h =
    rw
      (
        split-print_mapping m h,
        mapping_ports,
        split-print_ports m h,
        parse_ports-written (port_list m) h.are_ports,
      )
      (ground arith)

abbrev pub selected : Text → List Mapping → List ℕ
selected name [] = []
selected name (m ∷ ms) = ports_for name m ++ selected name ms

abbrev pub print_map : List Mapping → Text
print_map ms = join b';' (map print_mapping ms)

collect_ports-print :
    (name : Text) (ms : List Mapping)
    → All IsMapping ms
    → collect_ports name (map print_mapping ms) ≡ ok (selected name ms)
unfolding collect_ports
collect_ports-print name [] h = refl
collect_ports-print name (m ∷ ms) h =
    rw (mapping_ports-print name m h.0, collect_ports-print name ms h.1)

print_mapping-Free : (m : Mapping) → IsMapping m → Free b';' (print_mapping m)
print_mapping-Free m h =
    Free-append b';' m.name _ h.no_semicolon
      (refl, print_ports-Free b';' m (inr (omega arith)) refl h)

print_mappings-AllFree :
    (ms : List Mapping) → All IsMapping ms → AllFree b';' (map print_mapping ms)
print_mappings-AllFree [] h = tt
print_mappings-AllFree (m ∷ ms) h = (print_mapping-Free m h.0, print_mappings-AllFree ms h.1)

is_empty-append : (v w : Text) (c : ℕ) → is_empty (v ++ (c ∷ w)) ≡ false
is_empty-append [] w c = refl
is_empty-append (b ∷ v) w c = refl

is_empty-append_left : (v w : Text) → is_empty v ≡ false → is_empty (v ++ w) ≡ false
is_empty-append_left [] w h = cc
is_empty-append_left (c ∷ v) w h = refl

is_empty-print_map : (m : Mapping) (ms : List Mapping) → is_empty (print_map (m ∷ ms)) ≡ false
unfolding join
is_empty-print_map m [] = is_empty-append m.name (print_ports m) b'='
is_empty-print_map m (m' ∷ ms) =
    is_empty-append_left (print_mapping m) _ (is_empty-append m.name (print_ports m) b'=')

-- From a written port map the container gets the ports of all mappings under its name, in order,
-- and no other container's.
pub container_ports-print_map :
    (name : Text) (m : Mapping) (ms : List Mapping)
    → All IsMapping (m ∷ ms)
    → container_ports name (print_map (m ∷ ms)) ≡ ok (selected name (m ∷ ms))
unfolding container_ports
container_ports-print_map name m ms h =
    rw
      (
        is_empty-print_map m ms,
        split-join b';' (print_mapping m) (map print_mapping ms)
            (print_mappings-AllFree (m ∷ ms) h),
      )
      (collect_ports-print name (m ∷ ms) h)
