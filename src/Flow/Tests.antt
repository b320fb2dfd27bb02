-- ===== src/Flow/Tests.antt =====
-- The devices of a concrete user.
use fief.Flow.DeviceRevoke.{Revoked, revoke_lem}
use fief.Prelude.{
  false, true, some, none, ◌≡◌, ◌∷◌, count, [], ◌==◌, ◌&&◌, not, select, ltb, delete, select_one,
  str_eq, refl,
}
use fief.Samples.{world, browser_session}
use fief.Flow.DeviceList.{listed_sessions, listed_refreshes, list_for_user_lem}
use fief.Models.{World, audit_logger, user_session_revoked, text, number, is_expired}
use fief.Flow.Devices.{
  DeviceRow, DeviceLibrary, revoke, unknown, list_for_user, revoke_match, sessions_of_user,
  refreshes_of_user, device_rows, group_sessions, group_refreshes, add_session, latest_first,
  insert_later, most_recent, earliest, or_ip, delete_sessions, delete_refreshes,
}

abbrev device_lib : DeviceLibrary
device_lib = record {
  parse_ua = λ s. record {
    browser = "Firefox";
    os = "Linux";
    is_mobile = false;
    is_tablet = false;
    is_pc = true;
  };
  network_address = λ ip. none;
  label = λ browser os. browser;
  device_hash = λ l. "key";
}

abbrev device : DeviceRow
device = record {
  device_key = "key";
  device_label = "Unknown device";
  device_kind = unknown;
  first_seen = 0;
  last_seen = 0;
  last_seen_ip = none;
  session_token_ids = 30 ∷ [];
  refresh_token_ids = [];
  is_current = false;
}

abbrev one_device : World
one_device = record world { session_tokens = browser_session ∷ []; refresh_tokens = [] }

abbrev no_device : World
no_device =
    audit_logger user_session_revoked (some 1)
      (("device_label", text "Unknown device")
        ∷ ("revoked_session_count", number 1)
        ∷ ("revoked_refresh_count", number 0)
        ∷ [])
      (record world { session_tokens = []; refresh_tokens = [] })

list_for_user_lem_example :
    (listed_sessions device_lib 30 (list_for_user device_lib 1 (some 30) 7 one_device)
      ≡ count
          (λ t. (t.id == 30) && ((t.user_id == 1) && not (is_expired 7 t.expires_at)))
          one_device.session_tokens)
    × (listed_refreshes device_lib 30 (list_for_user device_lib 1 (some 30) 7 one_device)
        ≡ count
            (λ t. (t.id == 30) && ((t.user_id == 1) && ltb 7 t.expires_at))
            one_device.refresh_tokens)
list_for_user_lem_example = list_for_user_lem device_lib 30 1 (some 30) 7 one_device

revoke_lem_example :
    (select_one (λ x. str_eq x.device_key "key") (list_for_user device_lib 1 none 7 one_device)
      ≡ some device)
    × (str_eq device.device_key "key" ≡ true)
    × Revoked device_lib 1 one_device device no_device
unfolding revoke revoke_match list_for_user sessions_of_user refreshes_of_user device_rows
    group_sessions group_refreshes add_session latest_first insert_later select most_recent earliest
    or_ip delete_sessions delete_refreshes delete audit_logger select_one
revoke_lem_example = revoke_lem device_lib 1 "key" 7 one_device no_device device refl
