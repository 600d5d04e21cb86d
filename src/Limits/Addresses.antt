-- ===== src/Limits/Addresses.antt =====
-- The addresses of callbacks: `validate_callback` of packages/vscommon/callbacks.py.
use vulnscan.Base.{
  String, Bool, true, false, not, ◌||◌, Option, none, some, List, [], ◌∷◌, contains, str_eq,
  if◌then◌else◌, ◌≡◌, ◌↔◌, refl, arith,
}

-- What `urlsplit` finds in an address.
pub record UrlParts : Type 0 where
  pub scheme : String
  pub username : Option String
  pub password : Option String
  pub hostname : Option String

-- `ALLOWED_SCHEMES`
abbrev pub allowed_schemes : List String
allowed_schemes = "http" ∷ "https" ∷ []

-- `NEVER_ALLOWED_HOSTS`
abbrev pub never_allowed_hosts : List String
never_allowed_hosts =
    "169.254.169.254" ∷ "metadata.google.internal" ∷ "metadata.goog" ∷ "instance-data" ∷ []

-- The address, or `CallbackRejectedError` with its text.
pub data Validation : Type 0 where
  accepted rejected : String → Validation

-- `bool(text)`
abbrev pub is_set : Option String → Bool
is_set none = false
is_set (some s) = not (str_eq s "")

abbrev pub text_or_empty : Option String → String
text_or_empty none = ""
text_or_empty (some s) = s

abbrev pub is_nil : List String → Bool
is_nil [] = true
is_nil (h ∷ hs) = false

-- `urlsplit` and `str.lower` are Python's; `is_link_local` says of a host whether `ipaddress` reads it as
-- a link-local address.
module _ (urlsplit : String → UrlParts) (lower : String → String)
    (is_link_local : String → Bool) where
  abbrev pub host_of : String → String
  host_of url = lower (text_or_empty (urlsplit url).hostname)

  -- `validate_callback`
  unfoldable pub validate_callback : String → List String → Validation
  validate_callback url allowed_hosts =
      let parts = urlsplit url in
      let host = host_of url in
      if not (contains (lower parts.scheme) allowed_schemes)
      then rejected "допустимы только схемы http и https"
      else if is_set parts.username || is_set parts.password
      then rejected "учётные данные в адресе не допускаются"
      else if str_eq host ""
      then rejected "в адресе не указан хост"
      else if contains host never_allowed_hosts || is_link_local host
      then rejected "адрес запрещён"
      else if is_nil allowed_hosts
      then rejected "для этого ключа коллбэки не разрешены"
      else if not (contains host allowed_hosts)
      then rejected "адрес коллбэка не разрешён для этого ключа"
      else accepted url

  is_nil-contains : (h : String) (hs : List String) → contains h hs ≡ true → is_nil hs ≡ false
  is_nil-contains h [] e = cc
  is_nil-contains h (x ∷ hs) e = refl

  -- An address is accepted exactly if it is an HTTP address without credentials whose host is on the
  -- key's list, and is neither empty nor one that gives out the metadata of a cloud, which being on the
  -- list does not change.
  pub validate_callback-accepted_iff :
      (url : String) (allowed_hosts : List String)
      → (validate_callback url allowed_hosts ≡ accepted url) ↔ (
          (contains (lower (urlsplit url).scheme) allowed_schemes ≡ true)
          × (is_set (urlsplit url).username ≡ false)
          × (is_set (urlsplit url).password ≡ false)
          × (str_eq (host_of url) "" ≡ false)
          × (contains (host_of url) never_allowed_hosts ≡ false)
          × (is_link_local (host_of url) ≡ false)
          × (contains (host_of url) allowed_hosts ≡ true))
  unfolding validate_callback
  validate_callback-accepted_iff url allowed_hosts =
      ground (arith, is_nil-contains (host_of url) allowed_hosts)
