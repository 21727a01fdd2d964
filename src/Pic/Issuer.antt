-- ===== src/Pic/Issuer.antt =====
-- packages/pic-vouchers/src/sip_pic/issuer.py: vouchers of one unit, which redemptions validate.
use sovereign_inference.Base.{
  ℕ, ◌+◌, ◌-◌, ◌*◌, ◌%◌, ◌<◌, String, true, none, List, [], ◌∷◌, map, All, length, contains,
  is_empty, ◌≡◌, sym, subst,
}
use sovereign_inference.Json.{Dict}
use sovereign_inference.Runtime.{Runtime, Moment, microseconds, SigningLaws, TimeLaws}
use sovereign_inference.Protocol.Signing.{KeyPair, public_key_str}
use sovereign_inference.Protocol.Artifacts.{build_voucher, sign_voucher}
use sovereign_inference.Protocol.Artifacts.Issue.{issued}
use sovereign_inference.Pic.Payment.{Terms, validate_voucher}
use sovereign_inference.Pic.Payment.Completeness.{validate_voucher-issued}

pub record Issuer : Type 0 where
  pub keypair : KeyPair
  pub unit : String

-- `pubkey`
abbrev pub issuer_pubkey : Runtime → Issuer → String
issuer_pubkey R issuer = public_key_str R issuer.keypair

-- `issue`: one voucher for each id that is drawn. `ttl_seconds` is not negative.
unfoldable pub issue : Runtime → Issuer → String → List String → ℕ → Moment → List Dict
issue R issuer denomination ids ttl_seconds issued_at =
    map
      (λ id.
        sign_voucher R
          (build_voucher R id denomination issuer.unit (issuer_pubkey R issuer) issued_at
            (issued_at + ttl_seconds * microseconds) none)
          issuer.keypair)
      ids

module _ (R : Runtime) (laws : SigningLaws R) (times : TimeLaws R) (issuer : Issuer)
    (size : length issuer.keypair.private_key ≡ 32) (denomination : String) (ttl_seconds : ℕ)
    (issued_at : Moment) (t : Terms) where
  -- The schema finds nothing wrong with the voucher that has this id.
  abbrev pub InSchema : String → Type 0
  InSchema id =
      is_empty (
        R.iter_errors "voucher" (
          issued R issuer.keypair id denomination t.unit issued_at
            (issued_at + ttl_seconds * microseconds) none))
      ≡ true

  -- Every voucher of a batch is validated by terms that accept the issuer and its unit, as long as its
  -- second of expiry has not begun. Holds under the laws of Ed25519, base64 and times, for a private
  -- key of 32 bytes and ids that the schema accepts.
  pub issue-validated :
      issuer.unit ≡ t.unit
      → contains t.issuer_pubkeys (issuer_pubkey R issuer) ≡ true
      → t.now
        < issued_at
          + ttl_seconds * microseconds
          - (issued_at + ttl_seconds * microseconds) % microseconds
      → (ids : List String) → All InSchema ids
      → All
          (λ v. validate_voucher R v t ≡ none)
          (issue R issuer denomination ids ttl_seconds issued_at)
  unfolding issue
  issue-validated unit trusted later [] h = tt
  issue-validated unit trusted later (id ∷ ids) h = (
    subst
        (λ u.
          validate_voucher R
            (issued R issuer.keypair id denomination u issued_at
              (issued_at + ttl_seconds * microseconds) none)
            t
          ≡ none)
        (sym unit)
        (validate_voucher-issued R laws issuer.keypair size times id denomination issued_at
          (issued_at + ttl_seconds * microseconds) none t h.0 trusted later),
    issue-validated unit trusted later ids h.1,
  )
