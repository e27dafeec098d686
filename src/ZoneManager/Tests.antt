-- ===== src/ZoneManager/Tests.antt =====
-- The theorems about the zone manager at one zone with a channel and a white list.
use netsystem.Base.{
  ℕ, ◌+◌, ◌^◌, ◌%◌, ◌*◌, ◌≡◌, refl, true, false, none, some, List, [], ◌∷◌, ◌==◌, if◌then◌else◌,
  lookup, replicate, put, take,
}
use netsystem.ZoneManager.{
  ZoneInfo, ChannelInfo, Zones, new_zones, unregister, register_channel, remove_dirty_peers,
  remove_dirty_channels,
}
use netsystem.ZoneManager.Address.{
  zone_info, add_zone, check_list, check_ip_in_white_list, register,
}
use netsystem.ZoneManager.Inv.{IsValid}
use netsystem.ZoneManager.Dirty.{Cleaned, unregister_lem, register_lem}
use netsystem.ZoneManager.History.{Reach, start, registers, registers_channel, Reach-IsValid}

-- the number that the first two digits make
abbrev digits : List ℕ → ℕ
digits [] = 0
digits (c ∷ []) = c % 48
digits (c ∷ d ∷ str) = c % 48 * 10 + d % 48

abbrev server : ℕ → List ℕ
server n = 83 ∷ n ∷ []

-- "10.1"
abbrev address : List ℕ
address = 49 ∷ 48 ∷ 46 ∷ 49 ∷ []

abbrev junk : List ℕ
junk = replicate 8 7

-- a zone registered by the connection with the first id of the manager
abbrev registered : Zones
registered = add_zone digits server (zone_info digits server 3 1000000001 [] address 80) 3 new_zones

allowed : check_ip_in_white_list digits server junk address new_zones ≡ some true
unfolding check_ip_in_white_list check_list new_zones
allowed = refl

registers_3 : register digits server junk 3 1000000001 [] address 80 new_zones ≡ some registered
unfolding register check_ip_in_white_list check_list new_zones
registers_3 = refl

abbrev channel : ChannelInfo
channel = record {
  channel_id = 5;
  channel_type = 0;
  channel_desc = [];
  has_lock = false;
  zone_id = 3;
}

abbrev with_channel : Zones
with_channel = register_channel channel registered

with_channel-Reach : Reach digits server with_channel
with_channel-Reach =
    registers_channel channel (registers junk 3 1000000001 [] address 80 start registers_3)

Reach-IsValid_example : IsValid with_channel
Reach-IsValid_example = Reach-IsValid digits server with_channel-Reach

new-IsValid : IsValid new_zones
new-IsValid = Reach-IsValid digits server start

registered-found :
    lookup 3 registered.zone_infos ≡ some (zone_info digits server 3 1000000001 [] address 80)
unfolding add_zone new_zones remove_dirty_channels remove_dirty_peers put lookup
registered-found = refl

registered-IsValid : IsValid registered
registered-IsValid =
    Reach-IsValid digits server (registers junk 3 1000000001 [] address 80 start registers_3)

unregister_lem_example :
    let z' = unregister 3 registered in
    ((k : ℕ) → lookup k z'.zone_infos ≡ (if k == 3 then none else lookup k registered.zone_infos))
    × Cleaned 3 registered z'
    × IsValid z'
unregister_lem_example = unregister_lem 3 registered registered-IsValid registered-found

register_lem_example :
    let info : ZoneInfo = record {
      zone_id = 3;
      zone_type = 0;
      name = take 31 (server 3);
      ip = take 31 address;
      domain = take 63 [];
      port = 80;
      conn_id = 1000000001 % 2 ^ 32;
    } in
    (z' : Zones) × (register digits server junk 3 1000000001 [] address 80 new_zones ≡ some z')
    × ((k : ℕ)
        → lookup k z'.zone_infos ≡ (if k == 3 then some info else lookup k new_zones.zone_infos))
    × Cleaned 3 new_zones z'
    × IsValid z'
register_lem_example =
    register_lem digits server junk 3 1000000001 [] address 80 new_zones new-IsValid allowed
