-- ===== src/Login/Logout.antt =====
-- /logout of fief/apps/auth/routers/auth.py. `UrlLibrary` holds pydantic's `str` of an `AnyUrl`, which
-- normalises the address that was given, urllib's urlparse, `str.replace` for backslashes and the
-- f-string of an origin.
use fief.Prelude.{
  String, Option, Bool, none, some, true, if◌then◌else◌, ◌&&◌, ◌==◌, not, str_eq, ◌≡◌, exists,
  delete, select, arith, ok, err, Result, Bool-cases, inl, inr, ◌⊎◌, ◌≢◌, Memᴰ, exists-select,
  false, sym, exists-Memᴰ, eq_iff, refl,
}
use fief.Models.{World, Tenant, SessionToken, Client}

pub record UrlLibrary : Type 0 where
  pub str_url : String → String
  pub urlparse : String → String × String
  pub without_backslashes : String → String
  pub origin : String → String → String

pub data LogoutError : Type 0 where
  redirect_uri_missing redirect_uri_not_allowed : LogoutError

abbrev pub is_absolute : String × String → Bool
is_absolute (scheme, netloc) = not (str_eq scheme "") && not (str_eq netloc "")

-- the session row of the request is deleted
abbrev pub ended : Option SessionToken → World → World
ended none w = w
ended (some t) w = record w { session_tokens = delete (λ x. x.id == t.id) w.session_tokens }

module _ (lib : UrlLibrary) where
  -- a registered redirect URI has this origin
  abbrev pub has_origin : String × String → String → Bool
  has_origin wanted uri =
      let parsed = lib.urlparse uri in
      is_absolute parsed && str_eq (lib.origin parsed.0 parsed.1) (lib.origin wanted.0 wanted.1)

  -- the origin is one of the allowed origins of the tenant's clients
  unfoldable pub is_allowed_origin : Tenant → String × String → World → Bool
  unfolding exists select
  is_allowed_origin tenant wanted w =
      exists (λ (c : Client). exists (has_origin wanted) c.redirect_uris)
        (select (λ c. c.tenant_id == tenant.id) w.clients)

  unfoldable pub logout_to :
      Tenant
      → Option SessionToken
      → String
      → String × String
      → World
      → Result LogoutError String × World
  unfolding is_allowed_origin
  logout_to tenant session_token uri parsed w =
      if is_absolute parsed && not (is_allowed_origin tenant parsed w)
      then (err redirect_uri_not_allowed, w)
      else (ok uri, ended session_token w)

  -- the route /logout: the address of the redirect
  unfoldable pub logout :
      Tenant → Option SessionToken → Option String → World → Result LogoutError String × World
  unfolding logout_to
  logout tenant session_token none w = (err redirect_uri_missing, w)
  logout tenant session_token (some uri) w =
      logout_to tenant session_token (lib.str_url uri)
        (lib.urlparse (lib.without_backslashes (lib.str_url uri))) w

  -- the address has the origin of a redirect URI, with scheme and host, of a client of the tenant
  abbrev pub IsRegistered : Tenant → String × String → World → Type 0
  IsRegistered tenant wanted w =
      (client : Client) × Memᴰ client w.clients
      × (client.tenant_id ≡ tenant.id)
      × (uri : String) × Memᴰ uri client.redirect_uris
      × ((lib.urlparse uri).0 ≢ "")
      × ((lib.urlparse uri).1 ≢ "")
      × (lib.origin (lib.urlparse uri).0 (lib.urlparse uri).1 ≡ lib.origin wanted.0 wanted.1)

  filled : (s : String) → not (str_eq s "") ≡ true → s ≢ ""
  filled s h e = ground (arith, eq_iff s "")

  empty : (s : String) → not (str_eq s "") ≡ false → s ≡ ""
  empty s h = (eq_iff s "").0 (ground arith)

  allowed-IsRegistered :
      (tenant : Tenant) (wanted : String × String) (w : World)
      → is_allowed_origin tenant wanted w ≡ true
      → IsRegistered tenant wanted w
  unfolding is_allowed_origin
  allowed-IsRegistered tenant wanted w h =
      let (client, m, own, p) =
        exists-select (λ (c : Client). exists (has_origin wanted) c.redirect_uris)
          (λ c. c.tenant_id == tenant.id) w.clients h in
      let (uri, n, q) = exists-Memᴰ (has_origin wanted) client.redirect_uris p in
      (
        client,
        m,
        ground (arith, own),
        uri,
        n,
        filled (lib.urlparse uri).0 (ground (arith, q)),
        filled (lib.urlparse uri).1 (ground (arith, q)),
        (eq_iff (lib.origin (lib.urlparse uri).0 (lib.urlparse uri).1)
              (lib.origin wanted.0 wanted.1)).0
            (ground (arith, q)),
      )

  -- Where /logout redirects, it goes to the normalised address that was given, which without its
  -- backslashes has no scheme, or no host, or the origin of a redirect URI, with scheme and host, of a
  -- client of the tenant; and the session row of the request, if there is one, is deleted.
  pub logout-redirect :
      (tenant : Tenant) (session_token : Option SessionToken) (given : Option String)
      (target : String) (w w' : World)
      → logout tenant session_token given w ≡ (ok target, w')
      → (let parsed = lib.urlparse (lib.without_backslashes target) in
          (url : String) × (given ≡ some url)
          × (target ≡ lib.str_url url)
          × ((parsed.0 ≡ "") ⊎ (parsed.1 ≡ "") ⊎ IsRegistered tenant parsed w)
          × (w' ≡ ended session_token w))
  unfolding logout logout_to
  logout-redirect tenant session_token none target w w' h = absurd (ground arith)
  logout-redirect tenant session_token (some url) target w w' h =
      let parsed = lib.urlparse (lib.without_backslashes (lib.str_url url)) in
      let judged = λ (v : String).
        (let p = lib.urlparse (lib.without_backslashes v) in
          (p.0 ≡ "") ⊎ (p.1 ≡ "") ⊎ IsRegistered tenant p w) in
      elim (Bool-cases (is_absolute parsed && not (is_allowed_origin tenant parsed w))) [
        | inl refused ↦ absurd (ground arith)
        | inr passed ↦
            let same : lib.str_url url ≡ target = ground arith in
            let fine : judged (lib.str_url url) = elim (Bool-cases (not (str_eq parsed.0 ""))) [
              | inr e ↦ inl (empty parsed.0 e)
              | inl scheme ↦ elim (Bool-cases (not (str_eq parsed.1 ""))) [
                | inr e ↦ inr (inl (empty parsed.1 e))
                | inl host ↦ inr (inr (allowed-IsRegistered tenant parsed w (ground arith)))
              ]
            ] in
            (url, refl, sym same, (rw same at fine), ground arith)
      ]
