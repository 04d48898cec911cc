-- ===== src/Shim/Migration/Checkpoints.antt =====
-- The checkpoint that a container is created from (MigrationRestore of shim/restore.go).
use zeropod.Base.{
  ◌≡◌, refl, sym, ◌∙◌, ap, subst, Bool, true, false, not, ◌||◌, Option, none, some, [], Text,
  Result, ok, err, ok-injective, if◌then◌else◌, if-cases, if_true, if_false, Bool-cases,
  Result-cases, inl, inr, ◌⊎◌, arith,
}
use zeropod.Config.{Config}
use zeropod.Shim.Types.{ShimError, failed}
use zeropod.Shim.Task.{is_tolerated}
use zeropod.Manager.Node.Restore.{RestoreResponse}
use zeropod.Shim.Migration.{
  MigrationCalls, Creation, snapshot_path, get_sandbox_ip, ip_or_empty, pod_info, migrated_ports,
  await_pages, use_checkpoint, on_answer, migration_restore,
}

-- The checkpoint and CRIU's directory are what they were.
abbrev pub AsBefore : Creation → Creation → Type 0
AsBefore c d = (d.checkpoint ≡ c.checkpoint) × (d.work_path ≡ c.work_path)

err-injective : {a b : ShimError} → ◌≡◌ {A = Result ShimError Bool} (err a) (err b) → a ≡ b
err-injective p = cc

module _ (w : MigrationCalls) where
  -- A checkpoint that was pulled and whose memory is served, where it is served at all.
  abbrev pub is_usable : RestoreResponse → Bool
  is_usable r = not r.live_migration || w.has_socket (snapshot_path r.image_id)

  -- What a restore with an answer has done to the creation of the container.
  pub record Answered (c : Creation) (skip : Bool) (r : RestoreResponse) (d : Creation)
      : Type 0 where
    pub described : w.has_descriptors (snapshot_path r.image_id) ≡ true
    pub skips : skip ≡ not r.live_migration
    pub ports : d.ports ≡ migrated_ports w c.ports r.ports
    pub checkpoint : d.checkpoint ≡ (if is_usable r then snapshot_path r.image_id else [])
    pub work_path : d.work_path ≡ snapshot_path r.image_id

  use_checkpoint-Answered :
      (r : RestoreResponse) (c : Creation) (skip : Bool)
      → (use_checkpoint w r (record c { ports = migrated_ports w c.ports r.ports })).0 ≡ ok skip
      → Answered c skip r
          (use_checkpoint w r (record c { ports = migrated_ports w c.ports r.ports })).1
  unfolding use_checkpoint await_pages
  use_checkpoint-Answered r c skip =
      if-cases {B = Result ShimError Bool × Creation} (λ x. x.0 ≡ ok skip → Answered c skip r x.1)
        (not (w.has_descriptors (snapshot_path r.image_id))) (λ h e. absurd cc)
        (λ h.
          if-cases {B = Result ShimError Bool × Creation}
            (λ x. x.0 ≡ ok skip → Answered c skip r x.1) (not w.sets_work_path) (λ g e. absurd cc)
            (λ g.
              if-cases {B = Result ShimError Bool × Creation}
                (λ x. x.0 ≡ ok skip → Answered c skip r x.1) (not r.live_migration)
                (λ l e. record {
                  described = ground arith;
                  skips = sym (ok-injective e) ∙ sym l;
                  ports = refl;
                  checkpoint = sym (if_true {b = is_usable r} _ (ground arith));
                  work_path = refl;
                })
                (λ l.
                  if-cases {B = Result ShimError Bool × Creation}
                    (λ x. x.0 ≡ ok skip → Answered c skip r x.1)
                    (w.has_socket (snapshot_path r.image_id))
                    (λ s e. record {
                      described = ground arith;
                      skips = sym (ok-injective e) ∙ sym l;
                      ports = refl;
                      checkpoint = sym (if_true {b = is_usable r} _ (ground arith));
                      work_path = refl;
                    })
                    (λ s e. record {
                      described = ground arith;
                      skips = sym (ok-injective e) ∙ sym l;
                      ports = refl;
                      checkpoint = sym (if_false {b = is_usable r} _ (ground arith));
                      work_path = refl;
                    }))))

  migration_restore-Answered :
      (cfg : Config) (id : Text) (c : Creation) (skip : Bool)
      → (migration_restore w cfg id c).0 ≡ ok skip
      → (r : RestoreResponse) × (w.restores
            (pod_info w cfg (ip_or_empty w (get_sandbox_ip w cfg)))
            id
          ≡ some r)
        × Answered c skip r (migration_restore w cfg id c).1
  unfolding migration_restore on_answer
  migration_restore-Answered cfg id c skip =
      if-cases {B = Result ShimError Bool × Creation}
        (λ x.
          x.0 ≡ ok skip
          → (r : RestoreResponse) × (w.restores
                (pod_info w cfg (ip_or_empty w (get_sandbox_ip w cfg))) id
              ≡ some r)
            × Answered c skip r x.1)
        (not w.dials) (λ h e. absurd cc)
        (λ h. answered (w.restores (pod_info w cfg (ip_or_empty w (get_sandbox_ip w cfg))) id))
    where
      answered :
          (o : Option RestoreResponse)
          → (on_answer w o c).0 ≡ ok skip
          → (r : RestoreResponse) × (o ≡ some r) × Answered c skip r (on_answer w o c).1
      answered none e = absurd cc
      answered (some r) e = (r, refl, use_checkpoint-Answered r c skip e)

  use_checkpoint-tolerated :
      (r : RestoreResponse) (c : Creation) (e : ShimError)
      → (use_checkpoint w r c).0 ≡ err e
      → is_tolerated e ≡ true
      → AsBefore c (use_checkpoint w r c).1
  unfolding use_checkpoint await_pages is_tolerated
  use_checkpoint-tolerated r c e =
      if-cases {B = Result ShimError Bool × Creation}
        (λ x. x.0 ≡ err e → is_tolerated e ≡ true → AsBefore c x.1)
        (not (w.has_descriptors (snapshot_path r.image_id))) (λ h p t. (refl, refl))
        (λ h.
          if-cases {B = Result ShimError Bool × Creation}
            (λ x. x.0 ≡ err e → is_tolerated e ≡ true → AsBefore c x.1) (not w.sets_work_path)
            (λ g p t.
              let is_failed : failed ≡ e = err-injective p in
              let never : false ≡ is_tolerated e = ap is_tolerated is_failed in absurd cc)
            (λ g.
              if-cases {B = Result ShimError Bool × Creation}
                (λ x. x.0 ≡ err e → is_tolerated e ≡ true → AsBefore c x.1) (not r.live_migration)
                (λ l p t. absurd cc)
                (λ l.
                  if-cases {B = Result ShimError Bool × Creation}
                    (λ x. x.0 ≡ err e → is_tolerated e ≡ true → AsBefore c x.1)
                    (w.has_socket (snapshot_path r.image_id)) (λ s p t. absurd cc)
                    (λ s p t. absurd cc))))

  migration_restore-tolerated :
      (cfg : Config) (id : Text) (c : Creation) (e : ShimError)
      → (migration_restore w cfg id c).0 ≡ err e
      → is_tolerated e ≡ true
      → AsBefore c (migration_restore w cfg id c).1
  unfolding migration_restore on_answer
  migration_restore-tolerated cfg id c e =
      if-cases {B = Result ShimError Bool × Creation}
        (λ x. x.0 ≡ err e → is_tolerated e ≡ true → AsBefore c x.1) (not w.dials)
        (λ h p t. (refl, refl))
        (λ h. answered (w.restores (pod_info w cfg (ip_or_empty w (get_sandbox_ip w cfg))) id))
    where
      answered :
          (o : Option RestoreResponse)
          → (on_answer w o c).0 ≡ err e
          → is_tolerated e ≡ true
          → AsBefore c (on_answer w o c).1
      answered none p t = (refl, refl)
      answered (some r) p t =
          use_checkpoint-tolerated r (record c { ports = migrated_ports w c.ports r.ports }) e p t

  -- What each result means for the creation of the container.
  abbrev pub Fate : Config → Text → Creation → Result ShimError Bool → Creation → Type 0
  Fate cfg id c (ok skip) d =
      (r : RestoreResponse) × (w.restores (pod_info w cfg (ip_or_empty w (get_sandbox_ip w cfg))) id
        ≡ some r)
      × Answered c skip r d
  Fate cfg id c (err e) d = (is_tolerated e ≡ false) ⊎ AsBefore c d

  -- A restore without an error had an answer from the node service, whose checkpoint has its
  -- descriptors. The start is skipped exactly for a migration that is not live; the container is
  -- created from the checkpoint, but for a live migration whose pages are not served in time, which
  -- starts it from scratch; a container without ports gets those of the answer. After an error that
  -- the creation of a container tolerates, the checkpoint is what it was.
  pub migration_restore-Fate :
      (cfg : Config) (id : Text) (c : Creation)
      → Fate cfg id c (migration_restore w cfg id c).0 (migration_restore w cfg id c).1
  migration_restore-Fate cfg id c = elim (Result-cases (migration_restore w cfg id c).0) [
    | inl (skip, p) ↦
        subst (λ x. Fate cfg id c x (migration_restore w cfg id c).1) (sym p)
          (migration_restore-Answered cfg id c skip p)
    | inr (e, p) ↦
        subst (λ x. Fate cfg id c x (migration_restore w cfg id c).1) (sym p)
          (elim (Bool-cases (is_tolerated e)) [
            | inl t ↦ inr (migration_restore-tolerated cfg id c e p t)
            | inr t ↦ inl t
          ])
  ]
