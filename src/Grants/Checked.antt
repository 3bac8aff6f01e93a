-- ===== src/Grants/Checked.antt =====
-- grants.py: objects on which the check has nothing to report.
use workflow_runtime_core.Base.{String, ◌≡◌, refl, inl, inr, true, false, List, [], ◌∷◌, In, All}
use workflow_runtime_core.Exec.{ok, ◌>>=◌}
use workflow_runtime_core.Grants.{
  Privilege, operational_privileges, ledger_privileges, sequence_privileges, ledger_mutations,
  Object, table, sequence, Catalog, Server, has_privilege, lacking, holding, check_operational,
  check_ledgers, check_sequences,
}

module _ (server : Server) (role : String) (c : Catalog) where
  lacking-none :
      (o : Object) (ps : List Privilege)
      → server.exists o ≡ true
      → All (λ p. c role o p ≡ true) ps
      → lacking server role o ps c ≡ (ok [], c)
  unfolding lacking has_privilege ◌>>=◌
  lacking-none o [] there h = refl
  lacking-none o (p ∷ ps) there h = rw there (rw h.0 (rw (lacking-none o ps there h.1) refl))

  holding-none :
      (o : Object) (ps : List Privilege)
      → server.exists o ≡ true
      → All (λ p. (c role o p ≡ false) × (server.otherwise role o p ≡ false)) ps
      → holding server role o ps c ≡ (ok [], c)
  unfolding holding has_privilege ◌>>=◌
  holding-none o [] there h = refl
  holding-none o (p ∷ ps) there h =
      rw there (rw h.0.0 (rw h.0.1 (rw (holding-none o ps there h.1) refl)))

  abbrev pub Equipped : Object → List Privilege → Type 0
  Equipped o ps = (server.exists o ≡ true) × All (λ p. c role o p ≡ true) ps

  abbrev pub Guarded : Object → Type 0
  Guarded o =
      Equipped o ledger_privileges
      × All (λ p. (c role o p ≡ false) × (server.otherwise role o p ≡ false)) ledger_mutations

  pub operational-none :
      (schema : String) (tables : List String)
      → ((t : String) → In t tables → Equipped (table schema t) operational_privileges)
      → check_operational server role schema tables c ≡ (ok [], c)
  unfolding check_operational ◌>>=◌
  operational-none schema [] h = refl
  operational-none schema (t ∷ tables) h =
      let (there, held) = h t (inl refl) in
      rw (lacking-none (table schema t) operational_privileges there held)
        (rw (operational-none schema tables (λ u i. h u (inr i))) refl)

  pub ledgers-none :
      (schema : String) (tables : List String)
      → ((t : String) → In t tables → Guarded (table schema t))
      → check_ledgers server role schema tables c ≡ (ok [], c)
  unfolding check_ledgers ◌>>=◌
  ledgers-none schema [] h = refl
  ledgers-none schema (t ∷ tables) h =
      let ((there, held), free) = h t (inl refl) in
      rw (lacking-none (table schema t) ledger_privileges there held) (
        rw (holding-none (table schema t) ledger_mutations there free)
          (rw (ledgers-none schema tables (λ u i. h u (inr i))) refl))

  pub sequences-none :
      (schema : String) (names : List String)
      → ((n : String) → In n names → Equipped (sequence schema n) sequence_privileges)
      → check_sequences server role schema names c ≡ (ok [], c)
  unfolding check_sequences ◌>>=◌
  sequences-none schema [] h = refl
  sequences-none schema (n ∷ names) h =
      let (there, held) = h n (inl refl) in
      rw (lacking-none (sequence schema n) sequence_privileges there held)
        (rw (sequences-none schema names (λ u i. h u (inr i))) refl)
