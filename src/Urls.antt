-- ===== src/Urls.antt =====
-- The guards on addresses of apps/relay/src/sip_relay/app.py (`_is_safe_forward_url`) and of
-- apps/openai-proxy/src/sip_openai_proxy/sources.py (`is_safe_remote_url`). Python's `urlsplit`,
-- `str.lower` and `ipaddress.ip_address` are a parameter.
use sovereign_inference.Base.{
  String, Bool, true, false, not, ◌||◌, Option, none, some, List, [], ◌∷◌, ◌==◌, contains,
  if◌then◌else◌, ◌≡◌, ◌↔◌, inl, inr, refl, Option-cases, Bool-cases, arith,
}

-- `scheme` and `hostname` of `urlsplit`
pub record Url : Type 0 where
  pub scheme : String
  pub hostname : Option String

-- What `ipaddress` knows of an address
pub record Address : Type 0 where
  pub is_private : Bool
  pub is_loopback : Bool
  pub is_link_local : Bool
  pub is_reserved : Bool
  pub is_multicast : Bool
  pub is_unspecified : Bool

-- `none` is ValueError.
pub record Urls : Type 0 where
  pub split : String → Option Url
  pub lower : String → String
  pub address : String → Option Address

-- `_BLOCKED_HOSTNAMES`, the same set in both files
abbrev pub blocked_hostnames : List String
blocked_hostnames = "localhost" ∷ "metadata" ∷ "metadata.google.internal" ∷ []

-- `s.endswith(suffix)`
unfoldable pub ends_with : String → String → Bool
ends_with String.[] suffix = "" == suffix
ends_with (String.◌∷◌ c s) suffix = String.◌∷◌ c s == suffix || ends_with s suffix

abbrev pub is_internal : Address → Bool
is_internal ip =
    ip.is_private || ip.is_loopback || ip.is_link_local || ip.is_reserved || ip.is_multicast
    || ip.is_unspecified

-- `_is_safe_forward_url`, after the host has been read
unfoldable pub is_safe_host : Urls → Option String → Bool
unfolding contains ends_with
is_safe_host U none = false
is_safe_host U (some host) =
    if host == ""
    then false
    else if contains blocked_hostnames (U.lower host) || ends_with (U.lower host) ".localhost"
    then false
    else elim (U.address host) [ none ↦ true | some ip ↦ not (is_internal ip) ]

unfoldable pub is_safe_forward_url : Urls → String → Bool
unfolding is_safe_host
is_safe_forward_url U base_url = elim (U.split base_url) [
  | none ↦ false
  | some url ↦ is_safe_host U url.hostname
]

-- `is_safe_remote_url`, whose lines after the scheme are those of the relay
unfoldable pub is_safe_remote_url : Urls → String → Bool
unfolding is_safe_host
is_safe_remote_url U url = elim (U.split url) [
  | none ↦ false
  | some parts ↦
      if not (contains ("http" ∷ "https" ∷ []) parts.scheme)
      then false
      else is_safe_host U parts.hostname
]

-- A host on the public side: not blocked by name, and no literal address of an internal range
pub record PublicHost (U : Urls) (host : String) : Type 0 where
  pub there : (host == "") ≡ false
  pub unblocked : contains blocked_hostnames (U.lower host) ≡ false
  pub not_local : ends_with (U.lower host) ".localhost" ≡ false
  pub not_internal : (ip : Address) → U.address host ≡ some ip → is_internal ip ≡ false

-- A URL that splits, with a host on the public side
abbrev pub PublicUrl : Urls → String → Type 0
PublicUrl U url =
    (parts : Url) × (host : String) × (U.split url ≡ some parts)
    × (parts.hostname ≡ some host)
    × PublicHost U host

module _ (U : Urls) where
  is_safe_host-PublicHost : (host : String) → is_safe_host U (some host) ≡ true → PublicHost U host
  unfolding is_safe_host
  is_safe_host-PublicHost host h = elim (Bool-cases (host == "")) [
    | inl e ↦ absurd (ground arith)
    | inr there ↦ elim (Bool-cases (contains blocked_hostnames (U.lower host))) [
      | inl e ↦ absurd (ground arith)
      | inr unblocked ↦ elim (Bool-cases (ends_with (U.lower host) ".localhost")) [
        | inl e ↦ absurd (ground arith)
        | inr not_local ↦ record {
          there = there;
          unblocked = unblocked;
          not_local = not_local;
          not_internal = λ ip e. ground arith;
        }
      ]
    ]
  ]

  PublicHost-is_safe_host : (host : String) → PublicHost U host → is_safe_host U (some host) ≡ true
  unfolding is_safe_host
  PublicHost-is_safe_host host p = elim (Option-cases (U.address host)) [
    | inl n ↦ rw (is_safe_host, p.there, p.unblocked, p.not_local, n) refl
    | inr (ip, e) ↦
        rw (is_safe_host, p.there, p.unblocked, p.not_local, e, p.not_internal ip e) refl
  ]

  unsafe_none : is_safe_host U none ≡ false
  unfolding is_safe_host
  unsafe_none = refl

  -- The relay's guard lets a URL pass only if its host is on the public side.
  pub is_safe_forward_url-PublicUrl :
      (url : String) → is_safe_forward_url U url ≡ true → PublicUrl U url
  unfolding is_safe_forward_url
  is_safe_forward_url-PublicUrl url h = elim (Option-cases (U.split url)) [
    | inl n ↦ absurd (ground arith)
    | inr (parts, p) ↦ elim (Option-cases parts.hostname) [
      | inl n ↦ absurd (ground (arith, unsafe_none))
      | inr (host, e) ↦ (parts, host, p, e, is_safe_host-PublicHost host (ground arith))
    ]
  ]

  pub is_safe_forward_url-of_PublicUrl :
      (url : String) → PublicUrl U url → is_safe_forward_url U url ≡ true
  unfolding is_safe_forward_url
  is_safe_forward_url-of_PublicUrl url (parts, host, p, e, h) =
      rw (is_safe_forward_url, p, e) (PublicHost-is_safe_host host h)

  -- The application's guard is the relay's with one more question, the scheme; and the relay's guard
  -- lets a URL pass exactly if its host is there, not blocked by name, and not the literal address of
  -- an internal range.
  pub is_safe_remote_url_iff :
      (url : String)
      → ((is_safe_remote_url U url ≡ true) ↔ (
          (is_safe_forward_url U url ≡ true)
          × ((parts : Url)
              → U.split url ≡ some parts
              → contains ("http" ∷ "https" ∷ []) parts.scheme ≡ true)))
        × ((is_safe_forward_url U url ≡ true) ↔ PublicUrl U url)
  unfolding is_safe_remote_url is_safe_forward_url
  is_safe_remote_url_iff url = (
    (forward, λ h. backward h.0 h.1),
    (is_safe_forward_url-PublicUrl url, is_safe_forward_url-of_PublicUrl url),
  )
    where
      forward :
          is_safe_remote_url U url ≡ true
          → (is_safe_forward_url U url ≡ true)
            × ((parts : Url)
                → U.split url ≡ some parts
                → contains ("http" ∷ "https" ∷ []) parts.scheme ≡ true)
      forward h = elim (Option-cases (U.split url)) [
        | inl n ↦ absurd (ground arith)
        | inr (parts, p) ↦ elim (Bool-cases (contains ("http" ∷ "https" ∷ []) parts.scheme)) [
          | inr bad ↦ absurd (ground arith)
          | inl good ↦ (ground arith, λ other e. ground arith)
        ]
      ]

      backward :
          is_safe_forward_url U url ≡ true
          → ((parts : Url)
              → U.split url ≡ some parts
              → contains ("http" ∷ "https" ∷ []) parts.scheme ≡ true)
          → is_safe_remote_url U url ≡ true
      backward h http = elim (Option-cases (U.split url)) [
        | inl n ↦ absurd (ground arith)
        | inr (parts, p) ↦ ground (arith, http parts p)
      ]
