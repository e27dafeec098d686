-- ===== src/ZoneManager/Inv.antt =====
-- What holds of the maps between two calls.
use netsystem.Base.{
  ℕ, ◌+◌, ◌≤◌, ◌<◌, ◌^◌, ◌≡◌, refl, ap, inl, inr, true, false, Option, none, some, List, [], ◌∷◌,
  ◌++◌, ◌==◌, if◌then◌else◌, if-both, arith, Bool-cases, ==_iff, count-nil, unit, unit_same,
  unit_other, lookup, put, Unique, put-Unique, erase-Unique, erase_if-Unique, Each, Each-put,
  Each-erase, Each-erase_if, Each-nil, Each-lookup, Option-cases,
}
use netsystem.ZoneManager.{
  ZoneInfo, ChannelInfo, ChannelPeer, Zones, new_zones, is_natural, remove_dirty_peers,
  remove_dirty_channels, unregister_found, unregister, unregister_by_conn_id, register_channel,
  peers_of, find_peer, new_peer, found_or_added, add_channel_peer, erase_peer, remove_found_peer,
  remove_channel_peer, get_zone_by_channel, is_dirty,
}

-- how often a peer stands in a channel
pub stands : ℕ → List ChannelPeer → ℕ
stands p [] = 0
stands p (peer ∷ peers) = unit p peer.peer_id + stands p peers

abbrev pub AtKey : ℕ → ZoneInfo → Type 0
AtKey k info = (info.zone_id ≡ k) × (info.conn_id < 2 ^ 32)

abbrev ChannelAtKey : ℕ → ChannelInfo → Type 0
ChannelAtKey k info = info.channel_id ≡ k

abbrev Apart : ℕ → List ChannelPeer → Type 0
Apart k peers = (p : ℕ) → stands p peers ≤ 1

pub record IsValid (z : Zones) : Type 0 where
  pub one_zone : Unique z.zone_infos
  pub one_channel : Unique z.channels
  pub one_list : Unique z.channel_peers
  pub zone_ids : Each AtKey z.zone_infos
  pub channel_ids : Each ChannelAtKey z.channels
  pub peer_ids : Each Apart z.channel_peers

pub new_zones-IsValid : IsValid new_zones
unfolding new_zones
new_zones-IsValid = record {
  one_zone = λ k. omega (arith, count-nil k);
  one_channel = λ k. omega (arith, count-nil k);
  one_list = λ k. omega (arith, count-nil k);
  zone_ids = Each-nil AtKey;
  channel_ids = Each-nil ChannelAtKey;
  peer_ids = Each-nil Apart;
}

-- The two loops over the dirty entries, as `Register` and `Unregister` call them.
pub remove_dirty-IsValid :
    {z : Zones} (zone_id : ℕ)
    → IsValid z
    → IsValid (remove_dirty_channels zone_id (remove_dirty_peers zone_id z))
unfolding remove_dirty_channels remove_dirty_peers
remove_dirty-IsValid {z} zone_id v =
    let dirty = λ (c : ℕ) (peers : List ChannelPeer). is_dirty zone_id (get_zone_by_channel c z) in
    let of_zone = λ (c : ℕ) (info : ChannelInfo). info.zone_id == zone_id in
    record {
      one_zone = v.one_zone;
      one_channel = erase_if-Unique of_zone z.channels v.one_channel;
      one_list = erase_if-Unique dirty z.channel_peers v.one_list;
      zone_ids = v.zone_ids;
      channel_ids = Each-erase_if ChannelAtKey of_zone z.channels v.channel_ids;
      peer_ids = Each-erase_if Apart dirty z.channel_peers v.peer_ids;
    }

pub unregister-IsValid : {z : Zones} (zone_id : ℕ) → IsValid z → IsValid (unregister zone_id z)
unfolding unregister unregister_found
unregister-IsValid {z} zone_id v = elim (Option-cases (lookup zone_id z.zone_infos)) [
  | inl e ↦ rw e v
  | inr (info, e) ↦ rw e (
      remove_dirty-IsValid zone_id (record {
        one_zone = erase-Unique zone_id z.zone_infos v.one_zone;
        one_channel = v.one_channel;
        one_list = v.one_list;
        zone_ids = Each-erase AtKey zone_id z.zone_infos v.zone_ids;
        channel_ids = v.channel_ids;
        peer_ids = v.peer_ids;
      }))
]

pub unregister_by_conn_id-IsValid :
    {z : Zones} (conn_id : ℕ) → IsValid z → IsValid (unregister_by_conn_id conn_id z)
unfolding unregister_by_conn_id
unregister_by_conn_id-IsValid {z} conn_id v =
    let test = λ (k : ℕ) (info : ZoneInfo). info.conn_id == conn_id in
    record {
      one_zone = erase_if-Unique test z.zone_infos v.one_zone;
      one_channel = v.one_channel;
      one_list = v.one_list;
      zone_ids = Each-erase_if AtKey test z.zone_infos v.zone_ids;
      channel_ids = v.channel_ids;
      peer_ids = v.peer_ids;
    }

pub register_channel-IsValid :
    {z : Zones} (info : ChannelInfo) → IsValid z → IsValid (register_channel info z)
unfolding register_channel
register_channel-IsValid {z} info v =
    if-both IsValid (is_natural info.channel_id)
      (λ _. record {
        one_zone = v.one_zone;
        one_channel = put-Unique info.channel_id info z.channels v.one_channel;
        one_list = v.one_list;
        zone_ids = v.zone_ids;
        channel_ids = Each-put ChannelAtKey info.channel_id info z.channels refl v.channel_ids;
        peer_ids = v.peer_ids;
      })
      (λ _. v)

-- The peers of one channel replaced by others, each of which stands once.
put_peers-IsValid :
    {z : Zones} (channel_id : ℕ) (peers : List ChannelPeer)
    → Apart channel_id peers
    → IsValid z
    → IsValid (record z { channel_peers = put channel_id peers z.channel_peers })
put_peers-IsValid {z} channel_id peers apart v = record {
  one_zone = v.one_zone;
  one_channel = v.one_channel;
  one_list = put-Unique channel_id peers z.channel_peers v.one_list;
  zone_ids = v.zone_ids;
  channel_ids = v.channel_ids;
  peer_ids = Each-put Apart channel_id peers z.channel_peers apart v.peer_ids;
}

stands-append :
    (p : ℕ) (peers : List ChannelPeer) (peer : ChannelPeer)
    → stands p (peers ++ (peer ∷ [])) ≡ stands p peers + unit p peer.peer_id
unfolding stands
stands-append p [] peer = omega arith
stands-append p (peer' ∷ peers) peer = omega (arith, stands-append p peers peer)

-- A peer that the loop does not find stands nowhere.
find_peer-none : (p : ℕ) (peers : List ChannelPeer) → find_peer p peers ≡ none → stands p peers ≡ 0
unfolding find_peer stands
find_peer-none p [] e = refl
find_peer-none p (peer ∷ peers) e = elim (Bool-cases (p == peer.peer_id)) [
  | inl same ↦ absurd (found same e)
  | inr other ↦
      omega (arith, unit_other p peer.peer_id other, find_peer-none p peers (later other e))
]
  where
    found :
        (p == peer.peer_id) ≡ true
        → (if p == peer.peer_id then some peer else find_peer p peers) ≡ none
        → ⊥
    found same e = ground arith

    later :
        (p == peer.peer_id) ≡ false
        → (if p == peer.peer_id then some peer else find_peer p peers) ≡ none
        → find_peer p peers ≡ none
    later other e = ground arith

stands-erase_peer :
    (p q : ℕ) (peers : List ChannelPeer) → stands p (erase_peer q peers) ≤ stands p peers
unfolding stands erase_peer
stands-erase_peer p q [] = omega arith
stands-erase_peer p q (peer ∷ peers) =
    let rest = stands-erase_peer p q peers in
    if-both (λ l. stands p l ≤ stands p (peer ∷ peers)) (q == peer.peer_id) (λ _. omega arith)
      (λ _. omega (arith, rest))

peers_of-Apart :
    {z : Zones} (channel_id : ℕ)
    → IsValid z
    → Apart channel_id (peers_of (lookup channel_id z.channel_peers))
unfolding peers_of stands
peers_of-Apart {z} channel_id v = elim (Option-cases (lookup channel_id z.channel_peers)) [
  | inl e ↦ rw e (λ p. omega arith)
  | inr (peers, e) ↦ rw e (Each-lookup Apart channel_id z.channel_peers v.peer_ids e)
]

found_or_added-IsValid :
    {z : Zones} (channel_id peer_id : ℕ) (peers : List ChannelPeer) (found : Option ChannelPeer)
    → find_peer peer_id peers ≡ found
    → Apart channel_id peers
    → IsValid z
    → IsValid (found_or_added channel_id peer_id peers found z).1
unfolding found_or_added new_peer
found_or_added-IsValid channel_id peer_id peers (some peer) e apart v = v
found_or_added-IsValid channel_id peer_id peers none e apart v =
    put_peers-IsValid channel_id (peers ++ (new_peer peer_id ∷ []))
      (λ p. elim (Bool-cases (p == peer_id)) [
        | inl same ↦ omega (
          arith,
          stands-append p peers (new_peer peer_id),
          unit_same p peer_id same,
          ap (λ q. stands q peers) ((==_iff p peer_id).0 same),
          find_peer-none peer_id peers e,
        )
        | inr other ↦
            omega
              (arith, apart p, stands-append p peers (new_peer peer_id), unit_other p peer_id other)
      ])
      v

pub add_channel_peer-IsValid :
    {z : Zones} (channel_id peer_id : ℕ)
    → IsValid z
    → IsValid (add_channel_peer channel_id peer_id z).1
unfolding add_channel_peer
add_channel_peer-IsValid {z} channel_id peer_id v =
    found_or_added-IsValid channel_id peer_id (peers_of (lookup channel_id z.channel_peers)) _ refl
      (peers_of-Apart channel_id v) v

pub remove_channel_peer-IsValid :
    {z : Zones} (channel_id peer_id : ℕ)
    → IsValid z
    → IsValid (remove_channel_peer channel_id peer_id z)
unfolding remove_channel_peer remove_found_peer
remove_channel_peer-IsValid {z} channel_id peer_id v =
    elim (Option-cases (lookup channel_id z.channel_peers)) [
      | inl e ↦ rw e v
      | inr (peers, e) ↦
          let apart = Each-lookup Apart channel_id z.channel_peers v.peer_ids e in
          rw e (
            put_peers-IsValid channel_id (erase_peer peer_id peers)
              (λ p. omega (arith, apart p, stands-erase_peer p peer_id peers)) v)
    ]
