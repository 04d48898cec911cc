-- ===== src/Manager/Node/Race/Invariant.antt =====
-- What every step of a race for a migration keeps (findMatchingMigration of manager/node/service.go).
use zeropod.Base.{
  ◌≡◌, ◌≤◌, ◌<◌, refl, sym, ◌∙◌, ap, subst, true, false, [], Text, is_empty, Result-cases, ok,
  Member, inl, inr, arith,
}
use zeropod.Api.Migrations.{Migration}
use zeropod.Kube.{Kube}
use zeropod.Manager.Node.Race.{OptimisticLock, World, Agrees, after_round, after_update}

-- What a version that was read still tells of the one that is stored.
pub record Snapshot (m n : Migration) : Type 0 where
  pub bounded : m.version ≤ n.version
  pub current : m.version ≡ n.version → Agrees m n
  pub kept : is_empty m.spec.target_node ≡ false → Agrees m n
  pub blank : is_empty m.spec.target_node ≡ true → m.spec.target_pod ≡ []

-- How the stored migration moves.
pub record Moves (m n : Migration) : Type 0 where
  pub later : m.version < n.version
  pub kept : is_empty m.spec.target_node ≡ false → Agrees m n
  pub blank : is_empty n.spec.target_node ≡ true → n.spec.target_pod ≡ []

Agrees-trans : {l m n : Migration} → Agrees l m → Agrees m n → Agrees l n
Agrees-trans a b = record { pod = a.pod ∙ b.pod; node = a.node ∙ b.node }

Snapshot-moved : {l m n : Migration} → Snapshot l m → Moves m n → Snapshot l n
Snapshot-moved s v = record {
  bounded = omega (arith, s.bounded, v.later);
  current = λ e. absurd (omega (arith, s.bounded, v.later, e));
  kept = λ h. let a = s.kept h in Agrees-trans a (v.kept (ap is_empty (sym a.node) ∙ h));
  blank = s.blank;
}

pub Snapshot-refl :
    {m : Migration} → (is_empty m.spec.target_node ≡ true → m.spec.target_pod ≡ []) → Snapshot m m
Snapshot-refl b = record {
  bounded = omega arith;
  current = λ e. record { pod = refl; node = refl };
  kept = λ h. record { pod = refl; node = refl };
  blank = b;
}

-- A holder's name, and a target that is set.
pub record Holds (name : Text) (n : Migration) : Type 0 where
  pub pod : n.spec.target_pod ≡ name
  pub node : is_empty n.spec.target_node ≡ false

pub Holds-moved : {name : Text} {m n : Migration} → Holds name m → Moves m n → Holds name n
Holds-moved h v =
    let a = v.kept h.node in
    record { pod = sym a.pod ∙ h.pod; node = ap is_empty (sym a.node) ∙ h.node }

module _ {S : Type 0} (kube : Kube S) (stored : S → Migration) where
  pub record Inv (w : World S) : Type 0 where
    pub read : (m : Migration) → Member m w.history → Snapshot m (stored w.cluster)
    pub now : Snapshot (stored w.cluster) (stored w.cluster)
    pub held : (name : Text) → Member name w.holders → Holds name (stored w.cluster)

  module _ (lock : OptimisticLock kube stored) where
    pub Inv-moved :
        (w : World S) (s : S)
        → Inv w
        → Moves (stored w.cluster) (stored s)
        → Inv (after_update kube stored w s)
    Inv-moved w s i v = record {
      read = λ m is_in. elim is_in [
        | inl e ↦ subst (λ x. Snapshot x (stored s)) (sym e) (Snapshot-refl v.blank)
        | inr before ↦ Snapshot-moved (i.read m before) v
      ];
      now = Snapshot-refl v.blank;
      held = λ name is_in. Holds-moved (i.held name is_in) v;
    }

    pub Inv-still :
        (w : World S) (s : S)
        → Inv w
        → stored s ≡ stored w.cluster
        → Inv (after_update kube stored w s)
    Inv-still w s i e = record {
      read = λ m is_in.
          subst (λ n. Snapshot m n) (sym e)
            (elim is_in [
              | inl p ↦ subst (λ x. Snapshot x (stored w.cluster)) (sym (p ∙ e)) i.now
              | inr before ↦ i.read m before
            ]);
      now = subst (λ n. Snapshot n n) (sym e) i.now;
      held = λ name is_in. subst (λ n. Holds name n) (sym e) (i.held name is_in);
    }

    pub Inv-taken :
        (w : World S) (name : Text) (n : Migration) (s : S)
        → Inv (after_update kube stored w s)
        → Holds name (stored s)
        → Inv (after_round kube stored w name (ok n, s))
    Inv-taken w name n s i h = record {
      read = i.read;
      now = i.now;
      held = λ x is_in. elim is_in [
        | inl e ↦ subst (λ y. Holds y (stored s)) (sym e) h
        | inr before ↦ i.held x before
      ];
    }

    pub edited :
        (w : World S) (m n : Migration)
        → Inv w
        → Member m w.history
        → n.version ≡ m.version
        → Agrees n m
        → Inv (after_update kube stored w (kube.update_migration n w.cluster).1)
    edited w m n i is_in same_version a =
        elim (Result-cases (kube.update_migration n w.cluster).0) [
          | inl (x, e) ↦
              let (current, later, sent) = lock.accepted n x w.cluster e in
              let snap = i.read m is_in in
              let agrees : Agrees m (stored w.cluster) =
                snap.current (sym same_version ∙ current) in
              Inv-moved w _ i record {
                later = later;
                kept = λ h. record {
                  pod = sym agrees.pod ∙ sym a.pod ∙ ap (λ p. p.target_pod) (sym sent);
                  node = sym agrees.node ∙ sym a.node ∙ ap (λ p. p.target_node) (sym sent);
                };
                blank = λ h.
                    ap (λ p. p.target_pod) sent
                    ∙ a.pod
                    ∙ snap.blank
                        (ap is_empty (sym a.node ∙ ap (λ p. p.target_node) (sym sent)) ∙ h);
              }
          | inr (x, e) ↦ Inv-still w _ i (lock.refused n x w.cluster e)
        ]

    pub marked :
        (w : World S) (m : Migration)
        → Inv w
        → Inv (after_update kube stored w (kube.update_migration_status m w.cluster).1)
    marked w m i = elim (Result-cases (kube.update_migration_status m w.cluster).0) [
      | inl (x, e) ↦
          let (later, spec) = lock.marked m x w.cluster e in
          Inv-moved w _ i record {
            later = later;
            kept = λ h. record {
              pod = ap (λ p. p.target_pod) (sym spec);
              node = ap (λ p. p.target_node) (sym spec);
            };
            blank = λ h.
                ap (λ p. p.target_pod) spec
                ∙ i.now.blank (ap (λ p. is_empty p.target_node) (sym spec) ∙ h);
          }
      | inr (x, e) ↦ Inv-still w _ i (lock.unmarked m x w.cluster e)
    ]
