-- ===== src/Common/Const.antt =====
-- The constants of common/const.go.
use eggdfs.Base.{ℕ}
use eggdfs.Base.Text.{Text, bytes}

-- response codes
abbrev pub success : ℕ
success = 20000

abbrev pub fail : ℕ
fail = 10000

abbrev pub dir_create_fail : ℕ
dir_create_fail = 40000

abbrev pub form_file_not_found : ℕ
form_file_not_found = 40001

abbrev pub file_size_exceeded : ℕ
file_size_exceeded = 40002

abbrev pub file_save_fail : ℕ
file_save_fail = 40003

abbrev pub proxy_bad_gate_way : ℕ
proxy_bad_gate_way = 40004

abbrev pub file_check_sum_fail : ℕ
file_check_sum_fail = 40005

abbrev pub param_bind_fail : ℕ
param_bind_fail = 40006

-- status of a group
abbrev pub group_unavailable : ℕ
group_unavailable = 0

abbrev pub group_active : ℕ
group_active = 1

-- status of a storage
abbrev pub storage_offline : ℕ
storage_offline = 0

abbrev pub storage_active : ℕ
storage_active = 1

abbrev pub storage_not_enough_space : ℕ
storage_not_enough_space = 2

-- actions of a synchronisation
unfoldable pub sync_add : Text
sync_add = bytes "ADD"

unfoldable pub sync_delete : Text
sync_delete = bytes "DELETE"

abbrev pub min_storage_space : ℕ
min_storage_space = 100000

-- kinds of deployment
unfoldable pub deploy_type_storages : Text
deploy_type_storages = bytes "storage"

unfoldable pub deploy_type_tracker : Text
deploy_type_tracker = bytes "tracker"
