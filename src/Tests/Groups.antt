-- ===== src/Tests/Groups.antt =====
-- Groups: the sorted list of servers, the capacity, the pass over the statuses and the writers.
use mathlib.Core.List.{Mem}
use eggdfs.Base.{ℕ, ◌≡◌, ◌≢◌, refl, none, some, [], ◌∷◌, done, blocked, if◌then◌else◌, false}
use eggdfs.Base.Text.{text_eq, bytes, has_byte, path_ext}
use eggdfs.Base.Dict.{lookup, insert, values}
use eggdfs.Base.Sort.{sort_strings}
use eggdfs.Base.Visit.{forwards, backwards}
use eggdfs.Common.Mime.{default_file_download_content_type, file_content_type}
use eggdfs.Group.{
  Group, IsWell, storage_keys, get_storages, get_storage, get_group_cap, save_or_update_storage,
  register_storage, update_storage, remove_storage,
}
use eggdfs.Group.Capacity.{IsLeast, frees, get_group_cap-IsLeast, get_group_cap_empty}
use eggdfs.Group.Registry.{Becomes, save_or_update_storage_lem}
use eggdfs.Group.Storages.{get_storages_complete}
use eggdfs.Group.Sweep.{refresh_group}
use eggdfs.Group.Sweep.Status.{Refreshed, refresh_group_lem}
use eggdfs.Tests.{addr_a, addr_b, addr_c, node, node_a, node_b, pair, lonely}
use eggdfs.Util.{parse_header_file_path, get_file_content_type}
use eggdfs.Util.ContentType.{get_file_content_type-path_ext}
use eggdfs.Util.Paths.{parse_header_file_path_iff}

full_name : addr_a ≢ []
full_name e = cc

pub pair-IsWell : IsWell pair
unfolding lookup text_eq
pair-IsWell = record {
  distinct = (refl, (refl, tt));
  slots = ((refl, (λ e. cc), refl), ((refl, (λ e. cc), refl), tt));
  released = refl;
}

get_storages_sorted : get_storages forwards pair ≡ some node_a ∷ some node_b ∷ []
unfolding get_storages sort_strings values lookup text_eq
get_storages_sorted = refl

get_storages_complete_example : ¬ Mem none (get_storages backwards pair)
get_storages_complete_example = (get_storages_complete backwards pair pair-IsWell).0

-- The capacity is that of the fuller server.
get_group_cap-pair : get_group_cap backwards pair ≡ done (200000, pair)
unfolding get_group_cap values
get_group_cap-pair = refl

pair_filled : pair.storages ≢ []
pair_filled e = cc

get_group_cap-IsLeast_example :
    (c : ℕ) × (get_group_cap backwards pair ≡ done (c, pair)) × IsLeast c (frees pair)
get_group_cap-IsLeast_example = get_group_cap-IsLeast backwards pair pair_filled

get_group_cap_empty_example :
    (h : Group) × (get_group_cap forwards lonely ≡ done (0, h))
    × (save_or_update_storage node_a h ≡ blocked)
    × (register_storage node_a h ≡ blocked)
    × (update_storage node_a h ≡ blocked)
    × (remove_storage node_a h ≡ blocked)
get_group_cap_empty_example = get_group_cap_empty forwards lonely node_a refl full_name

-- At time 200 the first server has been silent for 100 seconds, the second for 40.
refresh_group-pair :
    refresh_group forwards 200 pair
    ≡ done (record pair {
      storages = (addr_b, node_b) ∷ (addr_a, record node_a { status = 0 }) ∷ [];
      cap = 200000;
    })
unfolding refresh_group storage_keys sort_strings values lookup text_eq insert get_group_cap
refresh_group-pair = refl

refresh_group_lem_example :
    (h : Group) × (refresh_group backwards 200 pair ≡ done h) × Refreshed 200 pair h
refresh_group_lem_example = refresh_group_lem backwards 200 pair pair-IsWell

save_or_update_storage_lem_example :
    Becomes
      (save_or_update_storage (node addr_c 1 7 1) pair)
      pair
      (λ k. if text_eq addr_c k then some (node addr_c 1 7 1) else get_storage k pair)
save_or_update_storage_lem_example =
    save_or_update_storage_lem (node addr_c 1 7 1) pair pair-IsWell (λ e. cc) refl

no_slash_f : has_byte b'/' (b'f' ∷ []) ≡ false
unfolding has_byte
no_slash_f = refl

parse_header_file_path_iff_example :
    parse_header_file_path (b'd' ∷ b'/' ∷ b'f' ∷ []) ≡ done (b'd' ∷ [], b'f' ∷ [])
parse_header_file_path_iff_example =
    (parse_header_file_path_iff (b'd' ∷ b'/' ∷ b'f' ∷ []) (b'd' ∷ []) (b'f' ∷ [])).1
      (refl, no_slash_f)

get_file_content_type-path_ext_example :
    get_file_content_type (path_ext (bytes "a.png")) ≡ default_file_download_content_type
get_file_content_type-path_ext_example = get_file_content_type-path_ext (bytes "a.png")

get_file_content_type-png : get_file_content_type (bytes "png") ≡ bytes "image/png"
unfolding get_file_content_type bytes lookup file_content_type text_eq
get_file_content_type-png = refl
