-- ===== src/ZoneManager/Address.antt =====
-- The list of addresses from which a zone may register, and registration. `junk` is what an array of
-- `split_ip` holds before the call, which is not initialised. A write behind its end is `none`.
use netsystem.Base.{
  ℕ, ◌+◌, ◌%◌, ◌^◌, ◌≤◌, ◌<◌, ◌≡◌, refl, inl, inr, ◌∙◌, Bool, true, false, Option, none, some, List,
  [], ◌∷◌, ◌++◌, ltb, ◌==◌, if◌then◌else◌, length, set, take, bit_and, put, ◌>>=◌, arith,
  Bool-cases, if-both, length-set, ltb→lt, lt→ltb,
}
use netsystem.ZoneManager.{ZoneInfo, IpPair, Zones, remove_dirty_peers, remove_dirty_channels}

-- `atoi` of libc, and the text of `Server%d`.
module _ (atoi : List ℕ → ℕ) (format_server : ℕ → List ℕ) where
  -- The end of `split_ip`: the part behind the last dot.
  unfoldable pub finish_split : List ℕ → ℕ → List ℕ → Option (ℕ × List ℕ)
  finish_split [] n av = some (n, av)
  finish_split (c ∷ part) n av =
      if ltb n 8 then some (n + 1, set av n (atoi (c ∷ part) % 2 ^ 8)) else none

  -- The loop of `split_ip`, with the bytes since the last dot and the count of the numbers so far.
  unfoldable pub split_from : List ℕ → List ℕ → ℕ → List ℕ → Option (ℕ × List ℕ)
  split_from [] part n av = finish_split part n av
  split_from (c ∷ str) part n av =
      let part' = if c == 46 then [] else part ++ (c ∷ []) in
      let n' = if c == 46 then n + 1 else n in
      let av' = if c == 46 then set av n (atoi part % 2 ^ 8) else av in
      let rest = split_from str part' n' av' in if ltb n 8 then rest else finish_split part n av

  -- The count, and the array.
  unfoldable pub split_ip : List ℕ → List ℕ → Option (ℕ × List ℕ)
  split_ip str av = split_from str [] 0 av

  -- The inner loop of `CheckIpInWhiteList`.
  unfoldable pub all_matched : List ℕ → List ℕ → List ℕ → Bool
  all_matched (n1 ∷ ip) (n2 ∷ ip2) (n_mask ∷ mask) =
      let rest = all_matched ip ip2 mask in
      if bit_and n1 n_mask == bit_and n2 n_mask then rest else false
  all_matched _ _ _ = true

  -- The outer loop of `CheckIpInWhiteList`.
  unfoldable pub in_white_list : List ℕ → List IpPair → Bool
  in_white_list ip [] = false
  in_white_list ip (pair ∷ pairs) =
      let rest = in_white_list ip pairs in if all_matched ip pair.ip pair.mask then true else rest

  -- `chIp` holds 31 bytes and a zero.
  unfoldable pub check_list : List ℕ → List ℕ → List IpPair → Option Bool
  check_list junk ip [] = some true
  check_list junk ip (pair ∷ pairs) =
      split_ip (take 31 ip) junk >>= (λ r. some (in_white_list r.1 (pair ∷ pairs)))

  unfoldable pub check_ip_in_white_list : List ℕ → List ℕ → Zones → Option Bool
  check_ip_in_white_list junk ip z = check_list junk ip z.white_list

  unfoldable pub set_white_name : List ℕ → List ℕ → List ℕ → List ℕ → Zones → Option Zones
  set_white_name junk_ip junk_mask ip mask z = split_ip ip junk_ip >>= (λ r.
      split_ip mask junk_mask >>= (λ s.
        some (record z { white_list = z.white_list ++ (record { ip = r.1; mask = s.1 } ∷ []) })))

  -- What `Register` stores. The field `uConnId` has 32 bits, the names have 31, 31 and 63 bytes.
  unfoldable pub zone_info : ℕ → ℕ → List ℕ → List ℕ → ℕ → ZoneInfo
  zone_info zone_id conn_id domain ip port = record {
    zone_id = zone_id;
    zone_type = 0;
    name = take 31 (format_server zone_id);
    ip = take 31 ip;
    domain = take 63 domain;
    port = port;
    conn_id = conn_id % 2 ^ 32;
  }

  -- The rest of `Register`, once the address is allowed.
  unfoldable pub add_zone : ZoneInfo → ℕ → Zones → Zones
  add_zone info zone_id z =
      let z = record z { zone_infos = put zone_id info z.zone_infos } in
      remove_dirty_channels zone_id (remove_dirty_peers zone_id z)

  unfoldable pub register : List ℕ → ℕ → ℕ → List ℕ → List ℕ → ℕ → Zones → Option Zones
  register junk zone_id conn_id domain ip port z = check_ip_in_white_list junk ip z >>= (λ allowed.
      some (if allowed then add_zone (zone_info zone_id conn_id domain ip port) zone_id z else z))

  finish_split_lem :
      (part : List ℕ) (n : ℕ) (av : List ℕ)
      → n ≤ 8
      → (0 < length part → n < 8)
      → length av ≡ 8
      → (r : ℕ × List ℕ) × (finish_split part n av ≡ some r) × (r.0 ≤ 8) × (length r.1 ≡ 8)
  unfolding finish_split
  finish_split_lem [] n av small room len = ((n, av), refl, small, len)
  finish_split_lem (c ∷ part) n av small room len =
      let inside : ltb n 8 ≡ true = lt→ltb n 8 (room (omega arith)) in
      rw inside (
        (_, _),
        refl,
        omega (arith, room (omega arith)),
        length-set av n (atoi (c ∷ part) % 2 ^ 8) ∙ len,
      )

  split_from_lem :
      (str part : List ℕ) (n : ℕ) (av : List ℕ)
      → n ≤ 8
      → (0 < length part → n < 8)
      → length av ≡ 8
      → (r : ℕ × List ℕ) × (split_from str part n av ≡ some r) × (r.0 ≤ 8) × (length r.1 ≡ 8)
  unfolding split_from
  split_from_lem [] part n av small room len = finish_split_lem part n av small room len
  split_from_lem (c ∷ str) part n av small room len =
      if-both (λ o. (r : ℕ × List ℕ) × (o ≡ some r) × (r.0 ≤ 8) × (length r.1 ≡ 8)) (ltb n 8)
        (λ less. elim (Bool-cases (c == 46)) [
          | inl dot ↦ rw dot (
              split_from_lem str [] (n + 1) (set av n (atoi part % 2 ^ 8))
                (omega (arith, ltb→lt n 8 less)) (λ h. absurd (omega arith))
                (length-set av n (atoi part % 2 ^ 8) ∙ len))
          | inr other ↦
              rw other (split_from_lem str (part ++ (c ∷ [])) n av small (λ _. ltb→lt n 8 less) len)
        ])
        (λ _. finish_split_lem part n av small room len)

  -- Whatever the address is, `split_ip` writes only inside the array of eight numbers, and answers a
  -- count of at most eight.
  pub split_ip_total :
      (str av : List ℕ)
      → length av ≡ 8
      → (r : ℕ × List ℕ) × (split_ip str av ≡ some r) × (r.0 ≤ 8) × (length r.1 ≡ 8)
  unfolding split_ip
  split_ip_total str av len =
      split_from_lem str [] 0 av (omega arith) (λ h. absurd (omega arith)) len
