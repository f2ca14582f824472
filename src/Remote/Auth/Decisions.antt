-- ===== src/Remote/Auth/Decisions.antt =====
-- Whom the authentication backends let in.
use Prim.Native.String.{len, slice}
use text.Mathlib.Text.{starts_with}
use text.Mathlib.TextPositions.{len-append, slice-append_right}
use text.Mathlib.TextEquality.{starts_with_iff}
use django_event_bus.Prelude.{
  String, string_eq, eq_iff, ◌<>◌, true, false, Option, none, some, ◌≡◌, refl, sym, ap, subst, ◌∙◌,
  ◌==◌, ◌⊎◌, ◌↔◌, arith, Bool-cases, inl, inr,
}
use django_event_bus.Exceptions.{ok, err, type_error}
use django_event_bus.Exceptions.Pure.{ok-injective}
use django_event_bus.Platform.{Platform, Json, null, Fields, field_get, format}
use django_event_bus.Remote.Auth.{
  AuthResult, allow, deny, bearer_prefix, is_ascii, compare_digest, or_empty, static_token, Decoded,
  claims_of, invalid_token, decode_failed, on_decoded, identity_of, caller_name, jwt, truthy,
  get_or_null,
}

-- With an ASCII token and an ASCII header, or none, the shared-token backend lets in exactly the
-- callers whose header is `Bearer ` with the token behind it, and denies all others.
pub static_token_iff :
    (token : String) (authorization : Option String)
    → is_ascii (bearer_prefix <> token) ≡ true
    → is_ascii (or_empty authorization) ≡ true
    → (r : AuthResult) × (static_token token authorization ≡ ok r)
      × ((r.granted ≡ true) ↔ (or_empty authorization ≡ bearer_prefix <> token))
unfolding static_token compare_digest
static_token_iff token authorization plain plain' =
    elim (Bool-cases (or_empty authorization == bearer_prefix <> token)) [
      | inl same ↦ (
        allow (some "shared-token"),
        rw (plain, plain', same) refl,
        (λ _. (eq_iff _ _).0 same, λ _. refl),
      )
      | inr other ↦ (
        deny "invalid or missing shared token",
        rw (plain, plain', other) refl,
        (λ granted. absurd (cc (granted)), λ same. absurd (cc (sym other ∙ (eq_iff _ _).1 same))),
      )
    ]

-- A header with a character outside of ASCII makes the shared-token backend raise a TypeError: the
-- caller is neither let in nor denied.
pub static_token_raises :
    (token authorization : String)
    → is_ascii authorization ≡ false
    → static_token token (some authorization) ≡ err type_error
unfolding static_token compare_digest
static_token_raises token authorization h = rw h refl

-- The text behind a prefix.
slice-behind : (s u : String) {t : String} → s <> u ≡ t → slice t (len s) (len t) ≡ u
slice-behind s u {t} e =
    ap (λ w. slice w (len s) (len w)) (sym e)
    ∙ ap (λ n. slice (s <> u) (len s) n) (len-append s u)
    ∙ slice-append_right s u

-- A key that is missing, or whose value counts as false.
abbrev pub IsAbsent : String → Fields → Type 0
IsAbsent k d = (field_get k d ≡ none) ⊎ ((v : Json) × (field_get k d ≡ some v) × (truthy v ≡ false))

-- The caller that claims name: their `sub`, or their `iss` where there is no true `sub`, or none.
pub data Names (p : Platform) (claims : Fields) : Option String → Type 0 where
  by_sub :
      (v : Json)
      → field_get "sub" claims ≡ some v
      → truthy v ≡ true
      → Names p claims (some (format p v))
  by_iss :
      (v : Json)
      → IsAbsent "sub" claims
      → field_get "iss" claims ≡ some v
      → truthy v ≡ true
      → Names p claims (some (format p v))
  nameless : IsAbsent "sub" claims → IsAbsent "iss" claims → Names p claims none

-- What the JWT backend knows of a caller that it lets in.
pub record Verified (p : Platform) (decode : String → Decoded) (authorization : Option String)
    (r : AuthResult) : Type 0 where
  pub token : String
  pub presented : authorization ≡ some (bearer_prefix <> token)
  pub claims : Fields
  pub valid : decode token ≡ claims_of claims
  pub named : Names p claims r.caller

caller_name-truthy :
    (p : Platform) (v : Json) → truthy v ≡ true → caller_name p v ≡ some (format p v)
unfolding caller_name
caller_name-truthy p v h = rw h refl

caller_name-falsy : (p : Platform) (v : Json) → truthy v ≡ false → caller_name p v ≡ none
unfolding caller_name
caller_name-falsy p v h = rw h refl

get_or_null-truthy :
    (k : String) (d : Fields)
    → truthy (get_or_null k d) ≡ true
    → field_get k d ≡ some (get_or_null k d)
unfolding truthy
get_or_null-truthy k d h = of (field_get k d) refl h
  where
    of :
        (o : Option Json)
        → field_get k d ≡ o
        → truthy (elim o [ none ↦ null | some v ↦ v ]) ≡ true
        → field_get k d ≡ some (elim (field_get k d) [ none ↦ null | some v ↦ v ])
    of none e t = absurd (cc (t))
    of (some v) e t = rw e refl

get_or_null-falsy : (k : String) (d : Fields) → truthy (get_or_null k d) ≡ false → IsAbsent k d
get_or_null-falsy k d h = of (field_get k d) refl h
  where
    of :
        (o : Option Json)
        → field_get k d ≡ o
        → truthy (elim o [ none ↦ null | some v ↦ v ]) ≡ false
        → IsAbsent k d
    of none e f = inl e
    of (some v) e f = inr (v, e, f)

module _ (p : Platform) (decode : String → Decoded) where
  caller_name-Names :
      (claims : Fields) → Names p claims (caller_name p (identity_of p decode claims))
  caller_name-Names claims =
      let sub = get_or_null "sub" claims in
      let iss = get_or_null "iss" claims in
      elim (Bool-cases (truthy sub)) [
        | inl given ↦
            subst (Names p claims) (sym (rw given (caller_name-truthy p sub given)))
              (by_sub sub (get_or_null-truthy "sub" claims given) given)
        | inr missing ↦ elim (Bool-cases (truthy iss)) [
          | inl given ↦ subst (Names p claims) (sym (rw missing (caller_name-truthy p iss given))) (
              by_iss iss (get_or_null-falsy "sub" claims missing)
                (get_or_null-truthy "iss" claims given) given)
          | inr neither ↦
              subst (Names p claims) (sym (rw missing (caller_name-falsy p iss neither))) (
                nameless (get_or_null-falsy "sub" claims missing)
                  (get_or_null-falsy "iss" claims neither))
        ]
      ]

  on_decoded-granted :
      (d : Decoded) (r : AuthResult)
      → on_decoded p decode d ≡ ok r
      → r.granted ≡ true
      → (claims : Fields) × (d ≡ claims_of claims) × Names p claims r.caller
  on_decoded-granted (claims_of claims) r h granted = (
    claims,
    refl,
    subst (λ (a : AuthResult). Names p claims a.caller) (ok-injective h) (caller_name-Names claims),
  )
  on_decoded-granted (invalid_token message) r h granted = absurd (ground arith)
  on_decoded-granted (decode_failed x) r h granted = absurd (ground arith)

  -- The JWT backend lets a caller in only when the header is `Bearer ` and a token that PyJWT
  -- decodes to claims; the caller is then the `sub` of those claims, or their `iss` where `sub` is
  -- missing or counts as false, or none if both are.
  pub jwt-Verified :
      (authorization : Option String) (r : AuthResult)
      → jwt p decode authorization ≡ ok r
      → r.granted ≡ true
      → Verified p decode authorization r
  unfolding jwt
  jwt-Verified none r h granted = absurd (ground arith)
  jwt-Verified (some header) r h granted = elim (Bool-cases (starts_with header bearer_prefix)) [
    | inr other ↦ absurd (ground arith)
    | inl begins ↦
        let (token, split) = (starts_with_iff header bearer_prefix).0 begins in
        let (claims, valid, named) =
          on_decoded-granted (decode (slice header (len bearer_prefix) (len header))) r
            (rw begins at h) granted in
        record {
          token = token;
          presented = ap (λ t. some t) (sym split);
          claims = claims;
          valid = ap decode (sym (slice-behind bearer_prefix token split)) ∙ valid;
          named = named;
        }
  ]
