-- ===== src/Tests/Selection.antt =====
-- Selection, listing and the proxy.
use eggdfs.Base.{
  ◌↔◌, List, ℕ, arith, ◌≡◌, ◌≢◌, refl, Option, none, some, List, [], ◌∷◌, Outcome, done, Result, ok,
  err, ◌⊎◌, ◌&&◌, false, if◌then◌else◌, ◌%◌, get_elem?, subst, sym, ◌∙◌, done-injective,
}
use eggdfs.Base.Dict.{insert, lookup}
use eggdfs.Base.Text.{Text, text_eq}
use eggdfs.Base.Visit.{forwards, backwards}
use eggdfs.Group.{StorageServer, Group, get_storage, get_storages}
use eggdfs.Tests.{group_name, http, addr_a, node_a, node_b, pair}
use eggdfs.Tests.Groups.{pair-IsWell}
use eggdfs.Tracker.{Tracker, IsSound, get_group}
use eggdfs.Tracker.Proxy.{TrackerProxy, abort_error_handler}
use eggdfs.Tracker.Proxy.Offline.{abort_error_handler_lem}
use eggdfs.Tracker.Report.Servers.{server_at}
use eggdfs.Tracker.Select.{
  select_storage_ip_hash, select_group_for_upload, first_group, active_groups, no_available_group,
  no_available_storage, active_storages,
}
use eggdfs.Tracker.{get_groups}
use eggdfs.Tracker.Select.ByAddress.{select_storage_ip_hash_lem}
use eggdfs.Tracker.Select.Rota.{IsRota, rota, select_storage_ip_hash-rota}
use eggdfs.Tracker.Select.ForUpload.{select_group_for_upload_lem, select_group_for_upload-first}
use eggdfs.Tests.Trackers.{calm, calm-IsSound, tracker_of}

-- The hash 5 picks the second of the two active servers.
select_storage_ip_hash-pair : select_storage_ip_hash forwards (λ ip. 5) [] pair ≡ done (ok node_b)
unfolding select_storage_ip_hash eggdfs.Group.get_storages eggdfs.Base.Sort.sort_strings
    eggdfs.Base.Dict.values lookup text_eq
select_storage_ip_hash-pair = refl

select_storage_ip_hash_lem_example :
    (((s : StorageServer) × (select_storage_ip_hash forwards (λ ip. 5) [] pair ≡ done (ok s))
        × (get_storage s.addr pair ≡ some s)
        × (s.status ≡ 1))
      ⊎ ((select_storage_ip_hash forwards (λ ip. 5) [] pair ≡ done (err no_available_storage))
          × ((s : StorageServer) → get_storage s.addr pair ≡ some s → s.status ≢ 1)))
    × (select_storage_ip_hash forwards (λ ip. 5) [] pair
        ≡ select_storage_ip_hash backwards (λ ip. 5) [] pair)
select_storage_ip_hash_lem_example =
    select_storage_ip_hash_lem forwards backwards (λ ip. 5) [] pair pair-IsWell

both_active : active_storages (get_storages forwards pair) ≡ done (node_a ∷ node_b ∷ [])
unfolding active_storages get_storages eggdfs.Base.Sort.sort_strings eggdfs.Base.Dict.values lookup
    text_eq
both_active = refl

-- Both servers are active, so the listing holds both, by address.
pair-IsRota : IsRota pair (node_a ∷ node_b ∷ [])
pair-IsRota =
    let (l, run, listed) = rota forwards pair pair-IsWell in
    subst (IsRota pair) (done-injective l (node_a ∷ node_b ∷ []) (sym run ∙ both_active)) listed

select_storage_ip_hash-rota_example :
    ((◌≡◌ {A = List StorageServer} (node_a ∷ node_b ∷ []) [])
      × (select_storage_ip_hash backwards (λ ip. 5) [] pair ≡ done (err no_available_storage)))
    ⊎ ((s : StorageServer) × (get_elem? (node_a ∷ node_b ∷ []) (5 % 2) ≡ some s)
        × (select_storage_ip_hash backwards (λ ip. 5) [] pair ≡ done (ok s)))
select_storage_ip_hash-rota_example =
    select_storage_ip_hash-rota backwards (λ ip. 5) [] pair (node_a ∷ node_b ∷ []) pair-IsWell
      pair-IsRota

select_group_for_upload_lem_example :
    ((g : Group) × (select_group_for_upload forwards calm ≡ ok g)
      × (get_group g.name calm ≡ some g)
      × (g.status ≡ 1))
    ⊎ ((select_group_for_upload forwards calm ≡ err no_available_group)
        × ((n : Text) (g : Group) → get_group n calm ≡ some g → g.status ≢ 1))
select_group_for_upload_lem_example = select_group_for_upload_lem forwards calm calm-IsSound

-- Two active groups: the first in the order of the visit is taken, though the other has more room.
abbrev two_groups : Tracker ℕ
two_groups = record {
  groups =
      (group_name, pair)
      ∷ (b'h' ∷ [], record pair { name = b'h' ∷ []; cap = 9; storages = [] })
      ∷ [];
  sync_db = 7;
  locked = false;
}

select_group_for_upload-first_example :
    select_group_for_upload forwards two_groups
    ≡ first_group (active_groups (get_groups forwards two_groups))
select_group_for_upload-first_example = select_group_for_upload-first forwards two_groups

first_of_two : select_group_for_upload forwards two_groups ≡ ok pair
unfolding select_group_for_upload get_groups eggdfs.Base.Dict.values
first_of_two = refl

abbrev to_a : TrackerProxy
to_a = record { schema = http; addr = addr_a; target = b'u' ∷ []; group = group_name }

pub pair_at : {S : Type 0} (d : S) → get_group group_name (tracker_of d pair) ≡ some pair
unfolding get_group lookup text_eq
pair_at d = refl

pub a_in_pair : get_storage addr_a pair ≡ some node_a
unfolding get_storage lookup text_eq
a_in_pair = refl

abort_error_handler_lem_example :
    (u : Tracker ℕ) × (abort_error_handler to_a calm ≡ done u)
    × IsSound u
    × ((n k : Text)
        → server_at n k u ≡ (
            if text_eq group_name n && text_eq addr_a k
            then some (record node_a { status = 0 })
            else server_at n k calm))
    × (u.sync_db ≡ 7)
abort_error_handler_lem_example =
    abort_error_handler_lem to_a calm calm-IsSound pair node_a (pair_at 7) a_in_pair
