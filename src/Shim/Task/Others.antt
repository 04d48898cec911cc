-- ===== src/Shim/Task/Others.antt =====
-- Deleting a container leaves the others alone (the map of wrapper in
-- shim/task/service_zeropod.go).
use zeropod.Base.{
  ℕ, ◌≡◌, refl, sym, ◌∙◌, ap, subst, false, none, some, [], ◌∷◌, Text, same, same_refl, eq_of_same,
  if-cases, if_true, if_false, if◌then◌else◌,
}
use zeropod.Shim.Types.{Container}
use zeropod.Shim.Task.{Table, get_container, set_container, delete_container, delete}

module _ {S : Type 0} where
  get-set :
      (id : Text) (c : Container S) (t : Table S) → get_container id (set_container id c t) ≡ some c
  unfolding get_container set_container
  get-set id c [] = if_true _ (same_refl id)
  get-set id c ((i, d) ∷ t) =
      if-cases (λ u. get_container id u ≡ some c) (same i id) (λ _. if_true _ (same_refl id))
        (λ e. if_false _ e ∙ get-set id c t)

  get-set_other :
      (id other : Text) (c : Container S) (t : Table S)
      → same id other ≡ false
      → get_container other (set_container id c t) ≡ get_container other t
  unfolding get_container set_container
  get-set_other id other c [] h = if_false _ h
  get-set_other id other c ((i, d) ∷ t) h =
      if-cases (λ u. get_container other u ≡ get_container other ((i, d) ∷ t)) (same i id)
        (λ e.
          if_false _ h
          ∙ sym (if_false _ (subst (λ n. same n other ≡ false) (sym (eq_of_same i id e)) h)))
        (λ _. ap (λ o. if same i other then some d else o) (get-set_other id other c t h))

  get-delete : (id : Text) (t : Table S) → get_container id (delete_container id t) ≡ none
  unfolding get_container delete_container
  get-delete id [] = refl
  get-delete id ((i, d) ∷ t) =
      if-cases {B = Table S} (λ u. get_container id u ≡ none) (same i id) (λ _. get-delete id t)
        (λ e. if_false _ e ∙ get-delete id t)

  get-delete_other :
      (id other : Text) (t : Table S)
      → same id other ≡ false
      → get_container other (delete_container id t) ≡ get_container other t
  unfolding get_container delete_container
  get-delete_other id other [] h = refl
  get-delete_other id other ((i, d) ∷ t) h =
      if-cases (λ u. get_container other u ≡ get_container other ((i, d) ∷ t)) (same i id)
        (λ e.
          get-delete_other id other t h
          ∙ sym (if_false _ (subst (λ n. same n other ≡ false) (sym (eq_of_same i id e)) h)))
        (λ _. ap (λ o. if same i other then some d else o) (get-delete_other id other t h))

  -- Deleting a container leaves none under its id, and the container under another id alone.
  delete-OnlyRemoves :
      (execs : ℕ) (id other : Text) (t : Table S)
      → same id other ≡ false
      → (get_container id (delete [] execs id t).1 ≡ none)
        × (get_container other (delete [] execs id t).1 ≡ get_container other t)
  unfolding delete
  delete-OnlyRemoves execs id other t h = (get-delete id t, get-delete_other id other t h)
