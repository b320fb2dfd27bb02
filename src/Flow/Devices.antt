-- ===== src/Flow/Devices.antt =====
-- The device list and the revocation of one device: `list_for_user` and `revoke` of
-- fief/services/security/device_sessions.py. `DeviceLibrary` holds the parser of user agents, the module
-- ipaddress, and the hash of the sorted ids. Rows created or seen at one time keep the order of the
-- table. The names of the clients in a row are left out.
use fief.Prelude.{
  ℕ, String, Option, List, Bool, none, some, false, if◌then◌else◌, ◌&&◌, str_eq, [], ◌∷◌, ◌++◌, map,
  ltb, select, delete, ◌||◌, select_one, exists, or_else, ◌==◌, not, length,
}
use fief.Models.{
  World, SessionToken, RefreshToken, Time, audit_logger, user_session_revoked, is_expired, text,
  number,
}

pub data DeviceKind : Type 0 where
  phone tablet computer unknown : DeviceKind

pub record UserAgent : Type 0 where
  pub browser : String
  pub os : String
  pub is_mobile : Bool
  pub is_tablet : Bool
  pub is_pc : Bool

pub record DeviceLibrary : Type 0 where
  pub parse_ua : String → UserAgent
  pub network_address : String → Option String
  pub label : String → String → String
  pub device_hash : List ℕ → String

-- what the aggregates read of a token of either kind
pub record Seen : Type 0 where
  pub id : ℕ
  pub created_at : Time
  pub last_seen_at : Option Time
  pub ip : Option String
  pub user_agent : Option String

pub record DeviceRow : Type 0 where
  pub device_key : String
  pub device_label : String
  pub device_kind : DeviceKind
  pub first_seen : Time
  pub last_seen : Time
  pub last_seen_ip : Option String
  pub session_token_ids : List ℕ
  pub refresh_token_ids : List ℕ
  pub is_current : Bool

pub record DeviceKey : Type 0 where
  pub browser : String
  pub os : String
  pub ip_bucket : String

pub record DeviceGroup : Type 0 where
  pub key : DeviceKey
  pub sessions : List Seen
  pub refreshes : List Seen

-- `a or b` on addresses: an empty text counts as none
unfoldable pub or_ip : Option String → Option String → Option String
or_ip none b = b
or_ip (some a) b = if str_eq a "" then b else some a

abbrev pub seen_session : SessionToken → Seen
seen_session t = record {
  id = t.id;
  created_at = t.created_at;
  last_seen_at = t.last_seen_at;
  ip = or_ip t.last_seen_ip t.created_ip;
  user_agent = t.created_user_agent;
}

abbrev pub seen_refresh : RefreshToken → Seen
seen_refresh t = record {
  id = t.id;
  created_at = t.created_at;
  last_seen_at = t.last_seen_at;
  ip = or_ip t.last_seen_ip t.created_ip;
  user_agent = t.created_user_agent;
}

-- ORDER BY … DESC and sort(reverse=True): later ones first
unfoldable pub insert_later {ℓ} : {A : Type ℓ} → (A → Time) → A → List A → List A
insert_later f x [] = x ∷ []
insert_later f x (y ∷ ys) =
    let rest = insert_later f x ys in if ltb (f x) (f y) then y ∷ rest else x ∷ y ∷ ys

unfoldable pub latest_first {ℓ} : {A : Type ℓ} → (A → Time) → List A → List A
unfolding insert_later
latest_first f [] = []
latest_first f (x ∷ xs) = insert_later f x (latest_first f xs)

-- list_by_user_id of the session tokens and of the refresh tokens
unfoldable pub sessions_of_user : ℕ → Time → World → List SessionToken
unfolding latest_first select
sessions_of_user user_id now w =
    latest_first (λ (t : SessionToken). t.created_at)
      (select (λ t. (t.user_id == user_id) && not (is_expired now t.expires_at)) w.session_tokens)

unfoldable pub refreshes_of_user : ℕ → Time → World → List RefreshToken
unfolding latest_first select
refreshes_of_user user_id now w =
    latest_first (λ (t : RefreshToken). t.created_at)
      (select (λ t. (t.user_id == user_id) && ltb now t.expires_at) w.refresh_tokens)

abbrev pub same_key : DeviceKey → DeviceKey → Bool
same_key a b = str_eq a.browser b.browser && str_eq a.os b.os && str_eq a.ip_bucket b.ip_bucket

abbrev eff_last : Seen → Time
eff_last t = or_else t.last_seen_at t.created_at

-- max(…, key=_eff_last) of a group: the first of the latest
unfoldable pub most_recent : Seen → List Seen → Seen
most_recent t [] = t
most_recent t (u ∷ l) = if ltb (eff_last t) (eff_last u) then most_recent u l else most_recent t l

unfoldable pub earliest : Time → List Seen → Time
earliest m [] = m
earliest m (u ∷ l) = if ltb u.created_at m then earliest u.created_at l else earliest m l

abbrev pub ids : List Seen → List ℕ
ids l = map (λ (t : Seen). t.id) l

abbrev is_current_id : Option ℕ → List ℕ → Bool
is_current_id none l = false
is_current_id (some id) l = exists (λ i. i == id) l

module _ (lib : DeviceLibrary) where
  abbrev known_network : Option String → String
  known_network none = "unknown"
  known_network (some n) = n

  -- _ip_bucket
  abbrev ip_bucket : Option String → String
  ip_bucket none = "unknown"
  ip_bucket (some ip) = if str_eq ip "" then "unknown" else known_network (lib.network_address ip)

  abbrev kind_of : UserAgent → DeviceKind
  kind_of ua =
      if ua.is_mobile
      then phone
      else if ua.is_tablet
      then tablet
      else if ua.is_pc
      then computer
      else unknown

  abbrev label_of : UserAgent → String
  label_of ua =
      if str_eq ua.browser ""
        || str_eq ua.os ""
        || str_eq ua.browser "Other"
        || str_eq ua.os "Other"
      then "Unknown device"
      else lib.label ua.browser ua.os

  -- _label_and_kind
  abbrev label_and_kind : Option String → String × DeviceKind
  label_and_kind none = ("Unknown device", unknown)
  label_and_kind (some s) =
      if str_eq s ""
      then ("Unknown device", unknown)
      else (label_of (lib.parse_ua s), kind_of (lib.parse_ua s))

  abbrev families : Option String → String × String
  families none = ("", "")
  families (some s) =
      if str_eq s "" then ("", "") else ((lib.parse_ua s).browser, (lib.parse_ua s).os)

  -- _dedup_key
  abbrev pub dedup_key : Seen → DeviceKey
  dedup_key t =
      let (browser, os) = families t.user_agent in
      record { browser = browser; os = os; ip_bucket = ip_bucket t.ip }

  -- groups.setdefault(key, …), then an append
  unfoldable pub add_session : Seen → List DeviceGroup → List DeviceGroup
  add_session t [] = record { key = dedup_key t; sessions = t ∷ []; refreshes = [] } ∷ []
  add_session t (g ∷ gs) =
      let rest = add_session t gs in
      if same_key g.key (dedup_key t)
      then record g { sessions = g.sessions ++ t ∷ [] } ∷ gs
      else g ∷ rest

  unfoldable pub add_refresh : Seen → List DeviceGroup → List DeviceGroup
  add_refresh t [] = record { key = dedup_key t; sessions = []; refreshes = t ∷ [] } ∷ []
  add_refresh t (g ∷ gs) =
      let rest = add_refresh t gs in
      if same_key g.key (dedup_key t)
      then record g { refreshes = g.refreshes ++ t ∷ [] } ∷ gs
      else g ∷ rest

  unfoldable pub group_sessions : List Seen → List DeviceGroup → List DeviceGroup
  unfolding add_session
  group_sessions [] gs = gs
  group_sessions (t ∷ l) gs = group_sessions l (add_session t gs)

  unfoldable pub group_refreshes : List Seen → List DeviceGroup → List DeviceGroup
  unfolding add_refresh
  group_refreshes [] gs = gs
  group_refreshes (t ∷ l) gs = group_refreshes l (add_refresh t gs)

  -- the row of a group, whose tokens are `t` and `l`
  abbrev pub row_of : Option ℕ → DeviceGroup → List Seen → List DeviceRow
  row_of current g [] = []
  row_of current g (t ∷ l) =
      let recent = most_recent t l in
      let (label, kind) = label_and_kind recent.user_agent in
      record {
        device_key = lib.device_hash (ids g.sessions ++ ids g.refreshes);
        device_label = label;
        device_kind = kind;
        first_seen = earliest t.created_at l;
        last_seen = eff_last recent;
        last_seen_ip = recent.ip;
        session_token_ids = ids g.sessions;
        refresh_token_ids = ids g.refreshes;
        is_current = is_current_id current (ids g.sessions);
      }
      ∷ []

  unfoldable pub device_rows : Option ℕ → List DeviceGroup → List DeviceRow
  unfolding most_recent earliest
  device_rows current [] = []
  device_rows current (g ∷ gs) =
      row_of current g (g.sessions ++ g.refreshes) ++ device_rows current gs

  -- DeviceSessionsService.list_for_user
  unfoldable pub list_for_user : ℕ → Option ℕ → Time → World → List DeviceRow
  unfolding device_rows group_sessions group_refreshes sessions_of_user refreshes_of_user
      latest_first or_ip
  list_for_user user_id current now w =
      latest_first (λ (r : DeviceRow). r.last_seen)
        (device_rows current (
          group_refreshes (map seen_refresh (refreshes_of_user user_id now w))
            (group_sessions (map seen_session (sessions_of_user user_id now w)) [])))

  -- delete_by_id_for_user for each id
  unfoldable pub delete_sessions : ℕ → List ℕ → List SessionToken → List SessionToken
  unfolding delete
  delete_sessions user_id [] l = l
  delete_sessions user_id (id ∷ is) l =
      delete_sessions user_id is (delete (λ t. (t.id == id) && (t.user_id == user_id)) l)

  unfoldable pub delete_refreshes : ℕ → List ℕ → List RefreshToken → List RefreshToken
  unfolding delete
  delete_refreshes user_id [] l = l
  delete_refreshes user_id (id ∷ is) l =
      delete_refreshes user_id is (delete (λ t. (t.id == id) && (t.user_id == user_id)) l)

  unfoldable pub revoke_match : ℕ → Option DeviceRow → World → Option DeviceRow × World
  unfolding delete_sessions delete_refreshes audit_logger
  revoke_match user_id none w = (none, w)
  revoke_match user_id (some r) w = (
    some r,
    audit_logger user_session_revoked (some user_id)
        (("device_label", text r.device_label)
          ∷ ("revoked_session_count", number (length r.session_token_ids))
          ∷ ("revoked_refresh_count", number (length r.refresh_token_ids))
          ∷ [])
        (record w {
          session_tokens = delete_sessions user_id r.session_token_ids w.session_tokens;
          refresh_tokens = delete_refreshes user_id r.refresh_token_ids w.refresh_tokens;
        }),
  )

  -- DeviceSessionsService.revoke
  unfoldable pub revoke : ℕ → String → Time → World → Option DeviceRow × World
  unfolding revoke_match list_for_user select_one
  revoke user_id device_key now w =
      revoke_match user_id
        (select_one (λ r. str_eq r.device_key device_key) (list_for_user user_id none now w)) w
