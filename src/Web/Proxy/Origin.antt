-- ===== src/Web/Proxy/Origin.antt =====
-- web/middleware.py: where the address of a client comes from.
use ez_open_pn.Prelude.{
  ◌≡◌, ◌≢◌, ◌↔◌, refl, sym, ap, ◌∙◌, Bool, true, false, ◌||◌, Option, none, some, List, [], Text,
  bytes_eq, bytes_eq_iff, any, Some, any-Some, ◌==◌, ==_iff, Bool-cases, Option-cases, inl, inr,
  ◌⊎◌, arith, subst, some_inj,
}
use ez_open_pn.World.{Env}
use ez_open_pn.Encoding.{strip}
use ez_open_pn.Web.Proxy.{
  same_address, resolved_to, trusted_address, is_trusted_proxy, peer, forwarded_client,
}

-- A host of this name has the address, in one of its spellings.
abbrev pub HasAddress : (Text → Option Text) → (Text → Option (List Text)) → Text → Text → Type 0
HasAddress ip resolve address host =
    (found : List Text) × (resolve host ≡ some found) × Some (λ a. ip a ≡ some address) found

-- The peer is one of the trusted hosts, by its name or by its address.
abbrev pub Trusted : (Text → Option Text) → (Text → Option (List Text)) → Text → List Text → Type 0
Trusted ip resolve direct hosts =
    Some (λ host. direct ≡ host) hosts
    ⊎ ((address : Text) × (ip direct ≡ some address) × Some (HasAddress ip resolve address) hosts)

module _ (ip : Text → Option Text) (resolve : Text → Option (List Text)) where
  same_address_iff :
      (address a : Text) → (same_address address (ip a) ≡ true) ↔ (ip a ≡ some address)
  same_address_iff address a = go (ip a)
    where
      go : (o : Option Text) → (same_address address o ≡ true) ↔ (o ≡ some address)
      go none = ((λ h. cc), (λ h. cc))
      go (some x) =
          ((λ h. ap some ((bytes_eq_iff x address).0 h)), (λ h. (bytes_eq_iff x address).1 cc))

  resolved-HasAddress :
      (address host : Text)
      → (resolved_to ip address (resolve host) ≡ true) ↔ HasAddress ip resolve address host
  resolved-HasAddress address host = go (resolve host) refl
    where
      go :
          (o : Option (List Text))
          → resolve host ≡ o
          → (resolved_to ip address o ≡ true) ↔ HasAddress ip resolve address host
      go none e = ((λ h. cc), (λ h. absurd (nothing h.1)))
        where
          nothing : {found : List Text} → resolve host ≡ some found → ⊥
          nothing q = cc
      go (some found) e = (
        (λ h. (
          found,
          e,
          (any-Some _ (λ a. ip a ≡ some address) (same_address_iff address) found).0 h,
        )),
        (λ h.
            rw (some_same h.1)
              ((any-Some _ (λ a. ip a ≡ some address) (same_address_iff address) h.0).1 h.2)),
      )
        where
          some_same : {other : List Text} → resolve host ≡ some other → found ≡ other
          some_same q = cc

  trusted_address-Some :
      (direct : Text) (hosts : List Text)
      → (trusted_address ip resolve hosts (ip direct) ≡ true) ↔ (
          (address : Text) × (ip direct ≡ some address)
          × Some (HasAddress ip resolve address) hosts)
  trusted_address-Some direct hosts = go (ip direct)
    where
      go :
          (o : Option Text)
          → (trusted_address ip resolve hosts o ≡ true)
            ↔ ((address : Text) × (o ≡ some address) × Some (HasAddress ip resolve address) hosts)
      go none = ((λ h. cc), (λ h. absurd (nothing h.1)))
        where
          nothing : {address : Text} → none ≡ some address → ⊥
          nothing q = cc
      go (some x) = (
        (λ h. (x, refl, (any-Some _ (HasAddress ip resolve x) (resolved-HasAddress x) hosts).0 h)),
        (λ h.
            (any-Some _ (HasAddress ip resolve x) (resolved-HasAddress x) hosts).1
              (subst (λ y. Some (HasAddress ip resolve y) hosts) (sym (some_inj h.1)) h.2)),
      )

  is_trusted_proxy-Trusted :
      (direct : Text) (hosts : List Text)
      → (is_trusted_proxy ip resolve direct hosts ≡ true) ↔ Trusted ip resolve direct hosts
  unfolding is_trusted_proxy
  is_trusted_proxy-Trusted direct hosts = (there, back)
    where
      named : (any (bytes_eq direct) hosts ≡ true) ↔ Some (λ host. direct ≡ host) hosts
      named =
          any-Some (bytes_eq direct) (λ host. direct ≡ host) (λ host. bytes_eq_iff direct host)
            hosts

      there :
          (any (bytes_eq direct) hosts || trusted_address ip resolve hosts (ip direct)) ≡ true
          → Trusted ip resolve direct hosts
      there h = elim (Bool-cases (any (bytes_eq direct) hosts)) [
        | inl e ↦ inl (named.0 e)
        | inr e ↦ inr ((trusted_address-Some direct hosts).0 (rw e at h))
      ]

      back :
          Trusted ip resolve direct hosts
          → (any (bytes_eq direct) hosts || trusted_address ip resolve hosts (ip direct)) ≡ true
      back (inl h) = rw (named.1 h) refl
      back (inr h) = ground (arith, (trusted_address-Some direct hosts).1 h)

-- The peer is trusted and forwards one address, of this compressed form.
pub record Forwards (env : Env) (resolve : Text → Option (List Text)) (direct header : Text)
    (hosts : List Text) (address : Text) : Type 0 where
  pub trusted : Trusted env.texts.ip_address resolve direct hosts
  pub nonempty : strip env.unicode.isspace header ≢ []
  pub single : Some (λ c. c ≡ b',') (strip env.unicode.isspace header) → ⊥
  pub parsed : env.texts.ip_address (strip env.unicode.isspace header) ≡ some address

commas : (t : Text) → (any (λ c. c == b',') t ≡ true) ↔ Some (λ c. c ≡ b',') t
commas t = any-Some (λ c. c == b',') (λ c. c ≡ b',') (λ c. ==_iff c b',') t

never_both : {b : Bool} → b ≡ true → b ≡ false → ⊥
never_both h e = cc

-- The address that the handlers see is the forwarded one, in its compressed form, if the peer is a
-- trusted proxy, by its name or by an address that a trusted host resolves to, and its header is one
-- address and no list; if there is no such forwarded address, it is the peer's own.
pub forwarded_client-Forwards :
    (env : Env) (resolve : Text → Option (List Text)) (client : Option Text) (header : Text)
    (hosts : List Text)
    → Forwards env resolve
        (peer client)
        header
        hosts
        (forwarded_client env resolve client header hosts)
      ⊎ (((address : Text) → ¬ Forwards env resolve (peer client) header hosts address)
          × (forwarded_client env resolve client header hosts ≡ peer client))
unfolding forwarded_client
forwarded_client-Forwards env resolve client header hosts =
    elim (Bool-cases (is_trusted_proxy env.texts.ip_address resolve (peer client) hosts)) [
      | inr e ↦ inr ((λ a h. never_both (trust.1 h.trusted) e), rw e refl)
      | inl e ↦ elim (Bool-cases (bytes_eq forwarded [])) [
        | inl x ↦ inr ((λ a h. h.nonempty ((bytes_eq_iff forwarded []).0 x)), rw (e, x) refl)
        | inr x ↦ elim (Bool-cases (any (λ c. c == b',') forwarded)) [
          | inl y ↦ inr ((λ a h. h.single ((commas forwarded).0 y)), rw (e, x, y) refl)
          | inr y ↦ elim (Option-cases (env.texts.ip_address forwarded)) [
            | inl z ↦ inr ((λ a h. some_none (sym h.parsed ∙ z)), rw (e, x, y, z) refl)
            | inr (address, z) ↦ inl (record {
              trusted = trust.0 e;
              nonempty = λ h. never_both ((bytes_eq_iff forwarded []).1 h) x;
              single = λ h. never_both ((commas forwarded).1 h) y;
              parsed = rw (e, x, y, z) refl;
            })
          ]
        ]
      ]
    ]
  where
    forwarded : Text
    forwarded = strip env.unicode.isspace header

    trust :
        (is_trusted_proxy env.texts.ip_address resolve (peer client) hosts ≡ true)
        ↔ Trusted env.texts.ip_address resolve (peer client) hosts
    trust = is_trusted_proxy-Trusted env.texts.ip_address resolve (peer client) hosts

    some_none : {a : Text} → some a ≡ none → ⊥
    some_none h = cc
