-- ===== src/ZoneManager/History.antt =====
-- Any sequence of calls to the zone manager, and zones looked up by their connection.
use netsystem.Base.{
  ℕ, ◌≤◌, ◌^◌, ◌≡◌, refl, sym, ap, subst, inl, inr, false, none, some, List, [], ◌∷◌, ◌==◌, if-both,
  arith, Bool-cases, lookup, erase_if, lookup-erase_if, keep_if, Each, >>=-eq-some, some_eq,
}
use netsystem.ZoneManager.{
  ZoneInfo, ChannelInfo, Zones, new_zones, unregister, unregister_by_conn_id, register_channel,
  get_zone_with_create, zone_or_new, add_channel_peer, remove_channel_peer, find_zone,
  get_zone_by_conn_id,
}
use netsystem.ZoneManager.Address.{
  zone_info, check_ip_in_white_list, split_ip, set_white_name, register,
}
use netsystem.ZoneManager.Inv.{
  AtKey, IsValid, new_zones-IsValid, unregister-IsValid, unregister_by_conn_id-IsValid,
  register_channel-IsValid, add_channel_peer-IsValid, remove_channel_peer-IsValid,
}
use netsystem.ZoneManager.Dirty.{add_zone_lem}

get_zone_with_create_lem :
    (zone_id : ℕ) (z : Zones) {info : ZoneInfo}
    → lookup zone_id z.zone_infos ≡ some info
    → get_zone_with_create zone_id z ≡ (info, z)
unfolding get_zone_with_create zone_or_new
get_zone_with_create_lem zone_id z found = ap (λ o. zone_or_new zone_id o z) found

module _ (atoi : List ℕ → ℕ) (format_server : ℕ → List ℕ) where
  register-IsValid :
      (junk : List ℕ) (zone_id conn_id : ℕ) (domain ip : List ℕ) (port : ℕ) (z : Zones) {z' : Zones}
      → register atoi format_server junk zone_id conn_id domain ip port z ≡ some z'
      → IsValid z
      → IsValid z'
  unfolding register
  register-IsValid junk zone_id conn_id domain ip port z done v =
      let (allowed, _, is) =
        >>=-eq-some (check_ip_in_white_list atoi format_server junk ip z) _ done in
      let info = zone_info atoi format_server zone_id conn_id domain ip port in
      let at : AtKey zone_id info = unfold zone_info in (refl, omega arith) in
      subst IsValid (some_eq is) (
        if-both IsValid allowed (λ _. (add_zone_lem atoi format_server zone_id z info v at).2)
          (λ _. v))

  set_white_name-IsValid :
      (junk_ip junk_mask ip mask : List ℕ) (z : Zones) {z' : Zones}
      → set_white_name atoi format_server junk_ip junk_mask ip mask z ≡ some z'
      → IsValid z
      → IsValid z'
  unfolding set_white_name
  set_white_name-IsValid junk_ip junk_mask ip mask z done v =
      let (r, _, rest) = >>=-eq-some (split_ip atoi format_server ip junk_ip) _ done in
      let (s, _, is) = >>=-eq-some (split_ip atoi format_server mask junk_mask) _ rest in
      subst IsValid (some_eq is) (record {
        one_zone = v.one_zone;
        one_channel = v.one_channel;
        one_list = v.one_list;
        zone_ids = v.zone_ids;
        channel_ids = v.channel_ids;
        peer_ids = v.peer_ids;
      })

  -- The calls up to now. `GetZoneWithCreate` is called for a registered zone, or by `Register`: for another
  -- id it leaves a zone whose own id is 0.
  pub data Reach : Zones → Type 0 where
    start : Reach new_zones
    registers :
        {z z' : Zones} (junk : List ℕ) (zone_id conn_id : ℕ) (domain ip : List ℕ) (port : ℕ)
        → Reach z
        → register atoi format_server junk zone_id conn_id domain ip port z ≡ some z'
        → Reach z'
    gets_with_create :
        {z : Zones} (zone_id : ℕ) {info : ZoneInfo}
        → Reach z
        → lookup zone_id z.zone_infos ≡ some info
        → Reach (get_zone_with_create zone_id z).1
    unregisters : {z : Zones} (zone_id : ℕ) → Reach z → Reach (unregister zone_id z)
    unregisters_by_conn_id :
        {z : Zones} (conn_id : ℕ) → Reach z → Reach (unregister_by_conn_id conn_id z)
    sets_white_name :
        {z z' : Zones} (junk_ip junk_mask ip mask : List ℕ)
        → Reach z
        → set_white_name atoi format_server junk_ip junk_mask ip mask z ≡ some z'
        → Reach z'
    registers_channel : {z : Zones} (info : ChannelInfo) → Reach z → Reach (register_channel info z)
    adds_peer :
        {z : Zones} (channel_id peer_id : ℕ)
        → Reach z
        → Reach (add_channel_peer channel_id peer_id z).1
    removes_peer :
        {z : Zones} (channel_id peer_id : ℕ)
        → Reach z
        → Reach (remove_channel_peer channel_id peer_id z)

  -- Whatever calls are made, `GetZoneWithCreate` only for zones that are registered: no zone, channel or
  -- list of peers has two entries, each zone and each channel stands under its own id, the connection ids
  -- of the zones fit 32 bits, and no peer stands twice in a channel.
  pub Reach-IsValid : {z : Zones} → Reach z → IsValid z
  Reach-IsValid start = new_zones-IsValid
  Reach-IsValid (registers {z} junk zone_id conn_id domain ip port r e) =
      register-IsValid junk zone_id conn_id domain ip port z e (Reach-IsValid r)
  Reach-IsValid (gets_with_create {z} zone_id r found) =
      subst (λ z'. IsValid z'.1) (sym (get_zone_with_create_lem zone_id z found)) (Reach-IsValid r)
  Reach-IsValid (unregisters zone_id r) = unregister-IsValid zone_id (Reach-IsValid r)
  Reach-IsValid (unregisters_by_conn_id conn_id r) =
      unregister_by_conn_id-IsValid conn_id (Reach-IsValid r)
  Reach-IsValid (sets_white_name {z} junk_ip junk_mask ip mask r e) =
      set_white_name-IsValid junk_ip junk_mask ip mask z e (Reach-IsValid r)
  Reach-IsValid (registers_channel info r) = register_channel-IsValid info (Reach-IsValid r)
  Reach-IsValid (adds_peer channel_id peer_id r) =
      add_channel_peer-IsValid channel_id peer_id (Reach-IsValid r)
  Reach-IsValid (removes_peer channel_id peer_id r) =
      remove_channel_peer-IsValid channel_id peer_id (Reach-IsValid r)

find_zone-erase_if :
    (conn_id : ℕ) (zones : List (ℕ × ZoneInfo))
    → find_zone conn_id (erase_if (λ _ info. info.conn_id == conn_id) zones) ≡ none
unfolding find_zone erase_if
find_zone-erase_if conn_id [] = refl
find_zone-erase_if conn_id ((k, info) ∷ zones) = elim (Bool-cases (info.conn_id == conn_id)) [
  | inl gone ↦ rw gone (find_zone-erase_if conn_id zones)
  | inr stays ↦ rw (stays, stays) (find_zone-erase_if conn_id zones)
]

large_not_found :
    (conn_id : ℕ) (zones : List (ℕ × ZoneInfo))
    → Each AtKey zones
    → 2 ^ 32 ≤ conn_id
    → (find_zone conn_id zones ≡ none)
      × (erase_if (λ _ info. info.conn_id == conn_id) zones ≡ zones)
unfolding find_zone erase_if Each
large_not_found conn_id [] all large = (refl, refl)
large_not_found conn_id ((k, info) ∷ zones) all large =
    let apart : (info.conn_id == conn_id) ≡ false = ground (arith, all.0.1) in
    let (rest, same) = large_not_found conn_id zones all.1 large in
    rw apart (rest, ap (◌∷◌ (k, info)) same)

-- Taking zones out by their connection: no zone of the connection is found by it after that, and
-- under each zone id what was found before, unless it is a zone of the connection.
unregister_by_conn_id_lem :
    (conn_id : ℕ) (z : Zones)
    → IsValid z
    → let z' = unregister_by_conn_id conn_id z in
      (get_zone_by_conn_id conn_id z' ≡ none)
      × ((k : ℕ)
          → lookup k z'.zone_infos
            ≡ keep_if (λ info. info.conn_id == conn_id) (lookup k z.zone_infos))
unfolding unregister_by_conn_id get_zone_by_conn_id
unregister_by_conn_id_lem conn_id z v = (
  find_zone-erase_if conn_id z.zone_infos,
  λ k. lookup-erase_if (λ _ info. info.conn_id == conn_id) k z.zone_infos v.one_zone,
)

-- A connection id of 2^32 or more matches no zone, even if a zone was registered with it: no zone is
-- found by it, and `UnregisterByConnId` leaves all zones registered.
large_conn_id_lem :
    (conn_id : ℕ) (z : Zones)
    → IsValid z
    → 2 ^ 32 ≤ conn_id
    → (get_zone_by_conn_id conn_id z ≡ none)
      × ((unregister_by_conn_id conn_id z).zone_infos ≡ z.zone_infos)
unfolding unregister_by_conn_id get_zone_by_conn_id
large_conn_id_lem conn_id z v large = large_not_found conn_id z.zone_infos v.zone_ids large
