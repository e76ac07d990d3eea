-- ===== src/Web/Preauth/Issued.antt =====
-- web/preauth.py: the challenge that `issue` hands out.
use ez_open_pn.Prelude.{
  ℕ, ◌<◌, ◌≡◌, refl, ◌∙◌, ap, true, some, List, ◌∷◌, Bytes, Text, ◌==◌, bytes_eq_refl, select,
  length, arith, lt→ltb, ==_iff, Bool-cases, inl, inr, not,
}
use ez_open_pn.Errors.{Result, ok, err}
use ez_open_pn.Models.{SystemState, Database}
use ez_open_pn.World.{Env, World, aware, read_clock}
use ez_open_pn.Exec.{Exec, lift, ◌>>=◌, session_scope, utc, now, token_bytes}
use ez_open_pn.Exec.Keeps.{Ensures, Ensures-bind, Ensures-session_scope, Ensures-ok, Work}
use ez_open_pn.Encoding.Tokens.{url_token-IsTokenText}
use ez_open_pn.Security.Sessions.{is_token_text}
use ez_open_pn.Web.Preauth.{
  PreAuthService, PreAuthChallenge, state_of, delete_state, form_token, state_key, issue_rows,
  new_token, issue, consume_rows, consume, state_insertable, is_stale,
}

module _ (env : Env) (service : PreAuthService) where
  -- The row of the challenge is the first of the table.
  Stored : Text → ℕ → Database → Type 0
  Stored nonce expires_at after =
      (updated : ℕ) × (rest : List SystemState) × (after.system_state
        ≡ record {
          key = state_key env service nonce;
          value_json = env.texts.dump_expiry expires_at;
          updated_at = updated;
        }
          ∷ rest)

  -- What `issue` leaves.
  record Issued (c : PreAuthChallenge) (after : Database) : Type 0 where
    stored : Stored c.cookie_nonce c.expires_at after
    nonce_text : is_token_text c.cookie_nonce ≡ true
    form : c.form_token ≡ form_token env service c.cookie_nonce

  -- Nothing is asked of `m`, nor promised.
  any-Ensures :
      {A : Type 0} (m : Exec A) → Ensures (λ _. Unit {0}) m (λ _ _. Unit {0}) (λ _ _. Unit {0})
  any-Ensures m = record { at = λ w h. go (m w).0 (m w).1 }
    where
      go :
          {A : Type 0} (r : Result A) (w : World)
          → ez_open_pn.Exec.Keeps.Outcome (λ (_ : A) _. Unit {0}) (λ _ _. Unit {0}) r w
      go (ok a) w = tt
      go (err e) w = tt

  token-Ensures :
      Ensures
        (λ _. Unit {0})
        (new_token env)
        (λ nonce _. is_token_text nonce ≡ true)
        (λ _ _. Unit {0})
  unfolding new_token
  token-Ensures = Ensures-bind _ _ (any-Ensures (token_bytes env 32)) λ value. record {
    at = λ w h. elim (Bool-cases (length value == 32)) [
      | inr e ↦ rw e tt
      | inl e ↦
          let n = (==_iff (length value) 32).0 e in
          rw e (url_token-IsTokenText value (omega (arith, n)) (omega (arith, n)))
    ];
  }

  insert-Ensures :
      (nonce : Text) (expires_at t : ℕ)
      → Ensures
          (λ _. is_token_text nonce ≡ true)
          (session_scope env (
            issue_rows service.lifetime t (record {
              key = state_key env service nonce;
              value_json = env.texts.dump_expiry expires_at;
              updated_at = t;
            })))
          (λ _ w. (is_token_text nonce ≡ true) × Stored nonce expires_at w.db)
          (λ _ _. Unit {0})
  unfolding issue_rows Stored
  insert-Ensures nonce expires_at t =
      let s : SystemState = record {
        key = state_key env service nonce;
        value_json = env.texts.dump_expiry expires_at;
        updated_at = t;
      } in
      Ensures-session_scope env (λ _. is_token_text nonce ≡ true)
        (λ _ after. (is_token_text nonce ≡ true) × Stored nonce expires_at after) (λ _ _. Unit {0})
        _
        (λ db h.
          elim (Bool-cases (
            state_insertable s
              (select (λ r. not (is_stale service.lifetime t r)) db.system_state))) [
                | inl x ↦ rw x (h, (t, _, refl))
                | inr x ↦ rw x tt
              ])
        (λ d h. tt)

  issue-Issued :
      Ensures (λ _. Unit {0}) (issue env service) (λ c w. Issued c w.db) (λ _ _. Unit {0})
  unfolding issue
  issue-Issued = Ensures-bind _ _ (any-Ensures _) λ value. Ensures-bind _ _ (any-Ensures _) λ t.
      Ensures-bind _ _ token-Ensures λ nonce.
        Ensures-bind _ _ (insert-Ensures nonce _ t)
          λ _. record { at = λ w h. record { stored = h.1; nonce_text = h.0; form = refl } }

  found_row :
      (nonce : Text) (s : SystemState) (rest : List SystemState)
      → s.key ≡ state_key env service nonce
      → state_of (state_key env service nonce) (s ∷ rest) ≡ some s
  unfolding state_of
  found_row nonce s rest e = rw (e, bytes_eq_refl (state_key env service nonce)) refl

  row_accepted :
      (nonce : Text) (expires_at t : ℕ) (db : Database)
      → Stored nonce expires_at db
      → env.texts.load_expiry (env.texts.dump_expiry expires_at) ≡ some (aware expires_at)
      → t < expires_at
      → consume_rows env service (state_key env service nonce) t db
        ≡ ok (
          true,
          record db { system_state = delete_state (state_key env service nonce) db.system_state },
        )
  unfolding consume_rows utc Stored
  row_accepted nonce expires_at t db h loaded before =
      rw
        (
          ap (state_of (state_key env service nonce)) h.2 ∙ found_row nonce _ h.1 refl,
          loaded,
          lt→ltb t expires_at before,
        )
        refl

  -- When `issue` has returned a challenge, `consume` accepts it at every time before it expires, if the
  -- stored text of the expiry reads back as the expiry, an HMAC has 32 bytes, and SQLite completes the
  -- transaction of `consume`.
  pub issued_challenge_is_accepted :
      (w : World) (c : PreAuthChallenge) (t : ℕ)
      → ((key value : Bytes) → length (env.crypto.hmac_sha256 key value) ≡ 32)
      → ((time : ℕ) → env.texts.load_expiry (env.texts.dump_expiry time) ≡ some (aware time))
      → (issue env service w).0 ≡ ok c
      → env.clock (issue env service w).1.history ≡ aware t
      → t < c.expires_at
      → env.completes (read_clock ∷ (issue env service w).1.history) ≡ true
      → (consume env service c.cookie_nonce c.form_token (issue env service w).1).0 ≡ ok true
  unfolding consume form_token ◌>>=◌ session_scope utc now
  issued_challenge_is_accepted w c t digests loads issued clock before done =
      let k = Ensures-ok issue-Issued w tt issued in
      let n = digests service.form_key c.cookie_nonce in
      let form =
        url_token-IsTokenText (env.crypto.hmac_sha256 service.form_key c.cookie_nonce)
          (omega (arith, n)) (omega (arith, n)) in
      let row =
        row_accepted c.cookie_nonce c.expires_at t (issue env service w).1.db k.stored
          (loads c.expires_at) before in
      rw
        (
          k.form,
          k.nonce_text,
          form,
          bytes_eq_refl (form_token env service c.cookie_nonce),
          clock,
          done,
          row,
        )
        refl
