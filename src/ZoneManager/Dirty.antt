-- ===== src/ZoneManager/Dirty.antt =====
-- What registering a zone, or taking it out, leaves of the channels and of their peers.
use netsystem.Base.{
  not, take, ℕ, ◌^◌, ◌%◌, ◌≡◌, refl, sym, ap, subst, ◌∙◌, inl, inr, Bool, true, false, Option, none,
  some, List, ◌==◌, ◌&&◌, ltb, if◌then◌else◌, arith, Bool-cases, Option-cases, ==_iff, lookup, put,
  erase, lookup-put, lookup-erase, lookup-erase_if, keep_if, put-Unique, Each-put, Each-lookup,
}
use netsystem.ZoneManager.{
  ZoneInfo, ChannelInfo, Zones, is_natural, get_zone, get_channel, zone_of, get_zone_by_channel,
  is_dirty, remove_dirty_peers, remove_dirty_channels, unregister_found, unregister,
}
use netsystem.ZoneManager.Address.{zone_info, add_zone, check_ip_in_white_list, register}
use netsystem.ZoneManager.Inv.{AtKey, IsValid, remove_dirty-IsValid, unregister-IsValid}

-- A test on the zone of a channel is the same before and after the zone map is changed at the zone,
-- as long as the zone is dirty in both.
is_dirty-same :
    (zone_id channel_id : ℕ) (z : Zones) (zones : List (ℕ × ZoneInfo))
    → ((k : ℕ) → is_dirty zone_id (lookup k zones) ≡ is_dirty zone_id (lookup k z.zone_infos))
    → is_dirty zone_id (get_zone_by_channel channel_id (record z { zone_infos = zones }))
      ≡ is_dirty zone_id (get_zone_by_channel channel_id z)
unfolding get_zone_by_channel get_channel zone_of get_zone is_dirty
is_dirty-same zone_id channel_id z zones same =
    elim (Bool-cases (ltb 0 channel_id && is_natural channel_id)) [
      | inl valid ↦ rw valid (of (lookup channel_id z.channels))
      | inr bad ↦ rw bad refl
    ]
  where
    of :
        (info : Option ChannelInfo)
        → is_dirty zone_id (zone_of info (record z { zone_infos = zones }))
          ≡ is_dirty zone_id (zone_of info z)
    of none = refl
    of (some info) = same info.zone_id

abbrev pub is_found : Option ZoneInfo → Bool
is_found none = false
is_found (some _) = true

-- Whether a channel is a registered one of another zone than the one given, which is registered too. Channel
-- 0 and those with a negative number are not.
abbrev pub is_of_other : (zone_id : ℕ) → Option ChannelInfo → List (ℕ × ZoneInfo) → Bool
is_of_other zone_id none zones = false
is_of_other zone_id (some info) zones =
    not (info.zone_id == zone_id) && is_found (lookup info.zone_id zones)

abbrev pub keeps_peers : (zone_id channel_id : ℕ) → Zones → Bool
keeps_peers zone_id c z =
    (ltb 0 c && ltb c (2 ^ 31)) && is_of_other zone_id (lookup c z.channels) z.zone_infos

-- The channels of the zone are gone, and all peers but those in a channel above 0 of another registered
-- zone. The rest is as it was.
abbrev pub Cleaned : ℕ → Zones → Zones → Type 0
Cleaned zone_id z z' =
    ((c : ℕ)
      → lookup c z'.channels ≡ keep_if (λ info. info.zone_id == zone_id) (lookup c z.channels))
    × ((c : ℕ)
        → lookup c z'.channel_peers
          ≡ (if keeps_peers zone_id c z then lookup c z.channel_peers else none))

-- The test of `RemoveDirtyPeers`, in a valid map.
is_dirty-keeps_peers :
    (zone_id c : ℕ) (z : Zones)
    → IsValid z
    → is_dirty zone_id (get_zone_by_channel c z) ≡ not (keeps_peers zone_id c z)
unfolding get_zone_by_channel get_channel zone_of get_zone is_dirty
is_dirty-keeps_peers zone_id c z v = elim (Bool-cases (ltb 0 c && ltb c (2 ^ 31))) [
  | inl valid ↦ rw valid (of (lookup c z.channels))
  | inr bad ↦ rw bad refl
]
  where
    unfound : (b : Bool) → true ≡ not (not b && false)
    unfound b = ground arith

    found : (b : Bool) → b ≡ not (not b && true)
    found b = ground arith

    of :
        (info : Option ChannelInfo)
        → is_dirty zone_id (zone_of info z) ≡ not (is_of_other zone_id info z.zone_infos)
    of none = refl
    of (some info) = elim (Option-cases (lookup info.zone_id z.zone_infos)) [
      | inl e ↦ rw e (unfound (info.zone_id == zone_id))
      | inr (zone, e) ↦
          let is = (Each-lookup AtKey info.zone_id z.zone_infos v.zone_ids e).0 in
          rw e (ap (λ k. k == zone_id) is ∙ found (info.zone_id == zone_id))
    ]

if-not {ℓ} : {A : Type ℓ} (b : Bool) (x y : A) → (if not b then x else y) ≡ (if b then y else x)
if-not true x y = refl
if-not false x y = refl

keep_if-const {ℓ} :
    {A : Type ℓ} (b : Bool) (o : Option A) → keep_if (λ _. b) o ≡ (if b then none else o)
unfolding keep_if
keep_if-const true none = refl
keep_if-const false none = refl
keep_if-const b (some a) = refl

remove_dirty-Cleaned :
    (zone_id : ℕ) (z : Zones) (zones : List (ℕ × ZoneInfo))
    → IsValid z
    → ((k : ℕ) → is_dirty zone_id (lookup k zones) ≡ is_dirty zone_id (lookup k z.zone_infos))
    → Cleaned zone_id z (
        remove_dirty_channels zone_id
          (remove_dirty_peers zone_id (record z { zone_infos = zones })))
unfolding remove_dirty_channels remove_dirty_peers
remove_dirty-Cleaned zone_id z zones v same = (
  λ c. lookup-erase_if (λ _ info. info.zone_id == zone_id) c z.channels v.one_channel,
  λ c.
      let z' = record z { zone_infos = zones } in
      lookup-erase_if (λ k _. is_dirty zone_id (get_zone_by_channel k z')) c z.channel_peers
        v.one_list
      ∙ keep_if-const (is_dirty zone_id (get_zone_by_channel c z')) (lookup c z.channel_peers)
      ∙ ap (λ b. if b then none else lookup c z.channel_peers)
          (is_dirty-same zone_id c z zones same ∙ is_dirty-keeps_peers zone_id c z v)
      ∙ if-not (keeps_peers zone_id c z) none (lookup c z.channel_peers),
)

-- In a valid map, the zone that is found under an id has that id.
is_dirty-lookup :
    (zone_id : ℕ) (z : Zones) → IsValid z → is_dirty zone_id (lookup zone_id z.zone_infos) ≡ true
unfolding is_dirty
is_dirty-lookup zone_id z v = elim (Option-cases (lookup zone_id z.zone_infos)) [
  | inl e ↦ rw e refl
  | inr (info, e) ↦
      let is = (Each-lookup AtKey zone_id z.zone_infos v.zone_ids e).0 in
      rw e ((==_iff info.zone_id zone_id).1 is)
]

is_dirty-if :
    (zone_id k : ℕ) (z : Zones) (o : Option ZoneInfo)
    → IsValid z
    → is_dirty zone_id o ≡ true
    → is_dirty zone_id (if k == zone_id then o else lookup k z.zone_infos)
      ≡ is_dirty zone_id (lookup k z.zone_infos)
is_dirty-if zone_id k z o v dirty = elim (Bool-cases (k == zone_id)) [
  | inl same ↦ rw same (
      dirty
      ∙ sym (
          ap (λ i. is_dirty zone_id (lookup i z.zone_infos)) ((==_iff k zone_id).0 same)
          ∙ is_dirty-lookup zone_id z v))
  | inr other ↦ rw other refl
]

-- Taking a registered zone out: it is not found any more and each other zone is found as before; its
-- channels are gone, and all peers but those in a channel above 0 of another registered zone; these and
-- the other channels are found as before; and the maps stay valid.
pub unregister_lem :
    (zone_id : ℕ) (z : Zones) {info : ZoneInfo}
    → IsValid z
    → lookup zone_id z.zone_infos ≡ some info
    → let z' = unregister zone_id z in
      ((k : ℕ) → lookup k z'.zone_infos ≡ (if k == zone_id then none else lookup k z.zone_infos))
      × Cleaned zone_id z z'
      × IsValid z'
unfolding remove_dirty_channels remove_dirty_peers
unregister_lem zone_id z {info} v found =
    subst
      (λ z'.
        ((k : ℕ) → lookup k z'.zone_infos ≡ (if k == zone_id then none else lookup k z.zone_infos))
        × Cleaned zone_id z z'
        × IsValid z')
      (sym is)
      (
        λ k. lookup-erase zone_id k z.zone_infos v.one_zone,
        remove_dirty-Cleaned zone_id z (erase zone_id z.zone_infos) v (λ k.
            ap (is_dirty zone_id) (lookup-erase zone_id k z.zone_infos v.one_zone)
            ∙ is_dirty-if zone_id k z none v (unfold is_dirty in refl)),
        subst IsValid is (unregister-IsValid zone_id v),
      )
  where
    is :
        unregister zone_id z
        ≡ remove_dirty_channels zone_id
            (remove_dirty_peers zone_id (record z { zone_infos = erase zone_id z.zone_infos }))
    is = unfold unregister in rw found (unfold unregister_found in refl)

add_zone-IsValid :
    (zone_id : ℕ) (z : Zones) (info : ZoneInfo)
    → IsValid z
    → AtKey zone_id info
    → IsValid (record z { zone_infos = put zone_id info z.zone_infos })
add_zone-IsValid zone_id z info v at = record {
  one_zone = put-Unique zone_id info z.zone_infos v.one_zone;
  one_channel = v.one_channel;
  one_list = v.one_list;
  zone_ids = Each-put AtKey zone_id info z.zone_infos at v.zone_ids;
  channel_ids = v.channel_ids;
  peer_ids = v.peer_ids;
}

module _ (atoi : List ℕ → ℕ) (format_server : ℕ → List ℕ) where
  pub add_zone_lem :
      (zone_id : ℕ) (z : Zones) (info : ZoneInfo)
      → IsValid z
      → AtKey zone_id info
      → let z' = add_zone atoi format_server info zone_id z in
        ((k : ℕ)
          → lookup k z'.zone_infos ≡ (if k == zone_id then some info else lookup k z.zone_infos))
        × Cleaned zone_id z z'
        × IsValid z'
  unfolding add_zone remove_dirty_channels remove_dirty_peers
  add_zone_lem zone_id z info v at = (
    λ k. lookup-put zone_id k info z.zone_infos,
    remove_dirty-Cleaned zone_id z (put zone_id info z.zone_infos) v (λ k.
        ap (is_dirty zone_id) (lookup-put zone_id k info z.zone_infos)
        ∙ is_dirty-if zone_id k z (some info) v
            (unfold is_dirty in (==_iff info.zone_id zone_id).1 at.0)),
    remove_dirty-IsValid zone_id (add_zone-IsValid zone_id z info v at),
  )

  -- Registering a zone from an address that the white list lets through: the call does not fail, the
  -- zone is found with its id, the name that is made of it, the address and the domain, cut to 31, 31 and
  -- 63 bytes, the port and the connection id modulo 2^32, and each other zone as before; the channels that
  -- the zone had are gone, and all peers but those in a channel above 0 of another registered zone; these
  -- and the other channels are found as before; and the maps stay valid.
  pub register_lem :
      (junk : List ℕ) (zone_id conn_id : ℕ) (domain ip : List ℕ) (port : ℕ) (z : Zones)
      → IsValid z
      → check_ip_in_white_list atoi format_server junk ip z ≡ some true
      → let info : ZoneInfo = record {
        zone_id = zone_id;
        zone_type = 0;
        name = take 31 (format_server zone_id);
        ip = take 31 ip;
        domain = take 63 domain;
        port = port;
        conn_id = conn_id % 2 ^ 32;
      } in
        (z' : Zones) × (register atoi format_server junk zone_id conn_id domain ip port z ≡ some z')
        × ((k : ℕ)
            → lookup k z'.zone_infos ≡ (if k == zone_id then some info else lookup k z.zone_infos))
        × Cleaned zone_id z z'
        × IsValid z'
  unfolding register zone_info
  register_lem junk zone_id conn_id domain ip port z v allowed =
      let info = zone_info atoi format_server zone_id conn_id domain ip port in
      let at : AtKey zone_id info = (refl, omega arith) in
      let (zones, cleaned, valid) = add_zone_lem zone_id z info v at in
      rw allowed (add_zone atoi format_server info zone_id z, refl, zones, cleaned, valid)
