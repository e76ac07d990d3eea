-- ===== src/Web/Hysteria/Admission.antt =====
-- web/routes/hysteria_auth.py with the lookup of profiles/repository.py: whom Hysteria lets in.
use ez_open_pn.Prelude.{
  ℕ, ◌≡◌, refl, sym, ◌∙◌, ap, subst, Bool, true, false, ◌&&◌, not, Option, none, some, List, Bytes,
  Text, isascii, length_within, if◌then◌else◌, Bool-cases, inl, inr,
}
use ez_open_pn.Errors.{
  Exn, Result, ok, err, operational_error, integrity_error, multiple_results_found,
}
use ez_open_pn.Models.{active, Database}
use ez_open_pn.World.{Env, World}
use ez_open_pn.Exec.{pure, lift, ◌>>=◌, session_scope}
use ez_open_pn.Exec.Keeps.{
  Ensures, Ensures-bind, Ensures-try, Ensures-ok, Ensures-session_scope, Work,
}
use ez_open_pn.Security.Secrets.{lookup_digest}
use ez_open_pn.Profiles.Types.{ProfileRecord, hysteria_lookup_value}
use ez_open_pn.Profiles.Tables.Query.{state_eq, hysteria_rows, find_row}
use ez_open_pn.Profiles.Repository.{find_by_hysteria_secret}
use ez_open_pn.Web.Hysteria.{
  JsonValue, Verdict, payload, judge, storage_failed, verdict_of, authorize,
}
use ez_open_pn.Web.Hysteria.Lookup.{admits, row-admits}

module _ (env : Env) (db : Database) where
  -- The secret has a profile that admits it under the identifier.
  pub record Admitted (auth id : Text) : Type 0 where
    pub value : Bytes
    pub encoded : hysteria_lookup_value auth ≡ ok value
    pub admitted : admits (lookup_digest env.crypto env.deployment.master_key value) id db ≡ true

  abbrev Finds : Text → Option ProfileRecord → Type 0
  Finds auth o =
      (r : ProfileRecord) → o ≡ some r → state_eq r.state active ≡ true → Admitted auth r.runtime_id

  row-Finds :
      (auth : Text) (value : Bytes)
      → hysteria_lookup_value auth ≡ ok value
      → (result : Result (Option ProfileRecord × Database))
      → find_row
          (lookup_digest env.crypto env.deployment.master_key value)
          (hysteria_rows (lookup_digest env.crypto env.deployment.master_key value) db)
          db
        ≡ result
      → Work (λ o _. Finds auth o) (λ _ _. Unit {0}) db result
  row-Finds auth value e (err x) k = tt
  row-Finds auth value e (ok (o, after)) k = λ r s live. record {
    value = value;
    encoded = e;
    admitted = row-admits _ db after r (k ∙ ap (λ y. ok (y, after)) s) live;
  }

  find-Finds :
      (auth : Text)
      → Ensures
          (λ w. w.db ≡ db)
          (find_by_hysteria_secret env auth)
          (λ o _. Finds auth o)
          (λ _ _. Unit {0})
  unfolding find_by_hysteria_secret
  find-Finds auth = go (not (length_within 1 512 auth && isascii auth))
    where
      scoped :
          (value : Bytes)
          → hysteria_lookup_value auth ≡ ok value
          → Ensures
              (λ w. w.db ≡ db)
              (session_scope env λ x.
                find_row
                  (lookup_digest env.crypto env.deployment.master_key value)
                  (hysteria_rows (lookup_digest env.crypto env.deployment.master_key value) x)
                  x)
              (λ o _. Finds auth o)
              (λ _ _. Unit {0})
      scoped value e =
          Ensures-session_scope env (λ x. x ≡ db) (λ o _. Finds auth o) (λ _ _. Unit {0}) _
            (λ x h.
              subst
                (λ y.
                  Work (λ o _. Finds auth o) (λ _ _. Unit {0}) y
                    (find_row (lookup_digest env.crypto env.deployment.master_key value)
                      (hysteria_rows (lookup_digest env.crypto env.deployment.master_key value) y)
                      y))
                (sym h) (row-Finds auth value e _ refl))
            (λ x h. tt)

      looked :
          (r : Result Bytes)
          → hysteria_lookup_value auth ≡ r
          → Ensures
              (λ w. w.db ≡ db)
              (lift r >>= λ value. session_scope env λ x.
                find_row
                  (lookup_digest env.crypto env.deployment.master_key value)
                  (hysteria_rows (lookup_digest env.crypto env.deployment.master_key value) x)
                  x)
              (λ o _. Finds auth o)
              (λ _ _. Unit {0})
      looked (err x) e =
          Ensures-bind {Q = λ _ _. ⊥} _ _ (record { at = λ w h. tt })
            λ v. record { at = λ w h. absurd h }
      looked (ok value) e =
          Ensures-bind {Q = λ v w. (v ≡ value) × (w.db ≡ db)} _ _ (record { at = λ w h. (refl, h) })
            λ v. record { at = λ w h. (scoped v (e ∙ ap ok (sym h.0))).at w h.1 }

      go :
          (b : Bool)
          → Ensures
              (λ w. w.db ≡ db)
              (if b
                then pure none
                else (lift (hysteria_lookup_value auth) >>= λ value. session_scope env λ x.
                    find_row
                      (lookup_digest env.crypto env.deployment.master_key value)
                      (hysteria_rows (lookup_digest env.crypto env.deployment.master_key value) x)
                      x))
              (λ o _. Finds auth o)
              (λ _ _. Unit {0})
      go true = record { at = λ w h r e. absurd cc }
      go false = looked (hysteria_lookup_value auth) refl

  -- What a verdict that lets in means.
  abbrev Means : Option Text → Verdict → Type 0
  Means secret v = v.ok ≡ true → (auth : Text) × (secret ≡ some auth) × Admitted auth v.id

  failed-Means :
      (secret : Option Text) (e : Exn)
      → Ensures (λ _. Unit {0}) (storage_failed e) (λ v _. Means secret v) (λ _ _. Unit {0})
  failed-Means secret operational_error = record { at = λ w h k. absurd cc }
  failed-Means secret integrity_error = record { at = λ w h k. absurd cc }
  failed-Means secret multiple_results_found = record { at = λ w h k. absurd cc }
  failed-Means secret _ = record { at = λ w h. tt }

  verdict-Means :
      (auth : Text) (o : Option ProfileRecord) → Finds auth o → Means (some auth) (verdict_of o)
  verdict-Means auth none f k = absurd cc
  verdict-Means auth (some r) f k = elim (Bool-cases (state_eq r.state active)) [
    | inl e ↦ (auth, refl, rw e (f r refl e))
    | inr e ↦ absurd (refused e (rw e at k))
  ]
    where
      refused : state_eq r.state active ≡ false → false ≡ true → ⊥
      refused e x = cc

  judge-Means :
      (secret : Option Text)
      → Ensures (λ w. w.db ≡ db) (judge env secret) (λ v _. Means secret v) (λ _ _. Unit {0})
  judge-Means none = record { at = λ w h k. absurd cc }
  judge-Means (some auth) =
      Ensures-try _ _
        (Ensures-bind _ _ (find-Finds auth) λ o. record { at = λ w h. verdict-Means auth o h })
        (failed-Means (some auth))

-- When Hysteria is told that a client may connect, the request had a secret, and there is an active
-- profile with the runtime identifier of the answer, whose Hysteria lookup has the digest of that
-- secret. No failure of the database lets anyone in.
pub authorize_admits :
    (env : Env) (w : World) (size : ℕ) (parsed : Option (List (Text × JsonValue))) (v : Verdict)
    → (authorize env size parsed w).0 ≡ ok v
    → v.ok ≡ true
    → (auth : Text) × (payload size parsed ≡ some auth) × Admitted env w.db auth v.id
unfolding authorize
authorize_admits env w size parsed v h k =
    Ensures-ok (judge-Means env w.db (payload size parsed)) w refl h k
