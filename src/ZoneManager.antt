-- ===== src/ZoneManager.antt =====
-- src/lobby/SimpleZoneManager.cpp and src/lobby/SimpleZoneManager.h, with the types of
-- src/lobby/IZoneManager.h and `split_ip` of src/base/MyUtil.cpp: the zones (game servers) that are
-- registered with a lobby, their channels, the peers in each channel, and the list of addresses from
-- which a zone may register. An `int` is its bit pattern, a C string is its bytes.
pub mod Address
pub mod Inv
pub mod Dirty
pub mod History
mod Tests
use netsystem.Base.{
  ℕ, ◌+◌, ◌-◌, ◌%◌, ◌^◌, Bool, true, false, ◌&&◌, not, Option, none, some, List, [], ◌∷◌, ◌++◌, ltb,
  leb, ◌==◌, if◌then◌else◌, length, get_or, set, take, bit_and, lookup, put, erase, erase_if, ◌>>=◌,
}

-- `MyZoneInfo`, without `misc`
pub record ZoneInfo : Type 0 where
  pub zone_id : ℕ
  pub zone_type : ℕ
  pub name : List ℕ
  pub ip : List ℕ
  pub domain : List ℕ
  pub port : ℕ
  pub conn_id : ℕ

pub record ChannelInfo : Type 0 where
  pub channel_id : ℕ
  pub channel_type : ℕ
  pub channel_desc : List ℕ
  pub has_lock : Bool
  pub zone_id : ℕ

pub record ChannelPeer : Type 0 where
  pub peer_id : ℕ
  pub nick : List ℕ
  pub sex : ℕ
  pub title_id : ℕ
  pub flag : ℕ

pub record IpPair : Type 0 where
  pub ip : List ℕ
  pub mask : List ℕ

pub record Zones : Type 0 where
  pub zone_infos : List (ℕ × ZoneInfo)
  pub channels : List (ℕ × ChannelInfo)
  pub channel_peers : List (ℕ × List ChannelPeer)
  pub white_list : List IpPair

unfoldable pub new_zones : Zones
new_zones = record { zone_infos = []; channels = []; channel_peers = []; white_list = [] }

-- `nChannelId >= 0`
abbrev pub is_natural : ℕ → Bool
is_natural n = ltb n (2 ^ 31)

unfoldable pub get_zone : ℕ → Zones → Option ZoneInfo
get_zone zone_id z = lookup zone_id z.zone_infos

unfoldable pub get_channel : ℕ → Zones → Option ChannelInfo
get_channel channel_id z = lookup channel_id z.channels

-- The zone that stands under the id, and what `m_mapZoneInfos[nZoneId]` makes if there is none.
unfoldable pub new_zone : ZoneInfo
new_zone = record {
  zone_id = 0;
  zone_type = 0;
  name = [];
  ip = [];
  domain = [];
  port = 0;
  conn_id = 0;
}

unfoldable pub zone_or_new : ℕ → Option ZoneInfo → Zones → ZoneInfo × Zones
zone_or_new zone_id none z = (new_zone, record z { zone_infos = put zone_id new_zone z.zone_infos })
zone_or_new zone_id (some info) z = (info, z)

unfoldable pub get_zone_with_create : ℕ → Zones → ZoneInfo × Zones
get_zone_with_create zone_id z = zone_or_new zone_id (lookup zone_id z.zone_infos) z

-- The zone of a channel that was found, or not.
unfoldable pub zone_of : Option ChannelInfo → Zones → Option ZoneInfo
zone_of none z = none
zone_of (some info) z = get_zone info.zone_id z

unfoldable pub get_zone_by_channel : ℕ → Zones → Option ZoneInfo
get_zone_by_channel channel_id z =
    if ltb 0 channel_id && is_natural channel_id then zone_of (get_channel channel_id z) z else none

-- The test of `RemoveDirtyPeers` on the zone of a channel.
unfoldable pub is_dirty : ℕ → Option ZoneInfo → Bool
is_dirty zone_id none = true
is_dirty zone_id (some info) = info.zone_id == zone_id

unfoldable pub remove_dirty_peers : ℕ → Zones → Zones
remove_dirty_peers zone_id z = record z {
  channel_peers =
      erase_if (λ channel_id peers. is_dirty zone_id (get_zone_by_channel channel_id z))
        z.channel_peers;
}

unfoldable pub remove_dirty_channels : ℕ → Zones → Zones
remove_dirty_channels zone_id z = record z {
  channels = erase_if (λ channel_id info. info.zone_id == zone_id) z.channels;
}

-- What `Unregister` does if it finds the zone, or not.
unfoldable pub unregister_found : ℕ → Option ZoneInfo → Zones → Zones
unregister_found zone_id none z = z
unregister_found zone_id (some info) z =
    let z = record z { zone_infos = erase zone_id z.zone_infos } in
    remove_dirty_channels zone_id (remove_dirty_peers zone_id z)

unfoldable pub unregister : ℕ → Zones → Zones
unregister zone_id z = unregister_found zone_id (lookup zone_id z.zone_infos) z

unfoldable pub unregister_by_conn_id : ℕ → Zones → Zones
unregister_by_conn_id conn_id z = record z {
  zone_infos = erase_if (λ zone_id info. info.conn_id == conn_id) z.zone_infos;
}

-- The loop of `GetZoneByConnId`.
unfoldable pub find_zone : ℕ → List (ℕ × ZoneInfo) → Option ZoneInfo
find_zone conn_id [] = none
find_zone conn_id ((zone_id, info) ∷ zones) =
    let rest = find_zone conn_id zones in if info.conn_id == conn_id then some info else rest

unfoldable pub get_zone_by_conn_id : ℕ → Zones → Option ZoneInfo
get_zone_by_conn_id conn_id z = find_zone conn_id z.zone_infos

unfoldable pub register_channel : ChannelInfo → Zones → Zones
register_channel info z =
    if is_natural info.channel_id
    then record z { channels = put info.channel_id info z.channels }
    else z

-- `m_mapChannelPeers[nChannelId]`, which is empty at first
unfoldable pub peers_of : Option (List ChannelPeer) → List ChannelPeer
peers_of none = []
peers_of (some peers) = peers

-- The loop of `AddChannelPeer`.
unfoldable pub find_peer : ℕ → List ChannelPeer → Option ChannelPeer
find_peer peer_id [] = none
find_peer peer_id (peer ∷ peers) =
    let rest = find_peer peer_id peers in if peer_id == peer.peer_id then some peer else rest

-- -1 is the sex of a new peer.
unfoldable pub new_peer : ℕ → ChannelPeer
new_peer peer_id = record { peer_id = peer_id; nick = []; sex = 2 ^ 32 - 1; title_id = 0; flag = 0 }

-- The peer that was found, or a new one at the end of the list.
unfoldable pub found_or_added :
    ℕ → ℕ → List ChannelPeer → Option ChannelPeer → Zones → ChannelPeer × Zones
found_or_added channel_id peer_id peers (some peer) z = (peer, z)
found_or_added channel_id peer_id peers none z =
    let peer = new_peer peer_id in
    (peer, record z { channel_peers = put channel_id (peers ++ (peer ∷ [])) z.channel_peers })

unfoldable pub add_channel_peer : ℕ → ℕ → Zones → ChannelPeer × Zones
add_channel_peer channel_id peer_id z =
    let peers = peers_of (lookup channel_id z.channel_peers) in
    found_or_added channel_id peer_id peers (find_peer peer_id peers) z

-- The loop of `RemoveChannelPeer`, which stops at the first.
unfoldable pub erase_peer : ℕ → List ChannelPeer → List ChannelPeer
erase_peer peer_id [] = []
erase_peer peer_id (peer ∷ peers) =
    let rest = erase_peer peer_id peers in if peer_id == peer.peer_id then peers else peer ∷ rest

-- What `RemoveChannelPeer` does if it finds the list, or not.
unfoldable pub remove_found_peer : ℕ → ℕ → Option (List ChannelPeer) → Zones → Zones
remove_found_peer channel_id peer_id none z = z
remove_found_peer channel_id peer_id (some peers) z = record z {
  channel_peers = put channel_id (erase_peer peer_id peers) z.channel_peers;
}

unfoldable pub remove_channel_peer : ℕ → ℕ → Zones → Zones
remove_channel_peer channel_id peer_id z =
    remove_found_peer channel_id peer_id (lookup channel_id z.channel_peers) z
