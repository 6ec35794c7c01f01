-- ===== src/Tests.antt =====
-- Runs of the model on concrete inputs: two storages of one group, and a tracker that holds them.
mod Groups
mod Databases
mod Trackers
mod Selection
mod Handlers
mod Failures
mod Storages
mod Copies
mod Clusters
mod Lasting
mod Removals
mod Boots
mod Clearings
mod Networks
mod Starts
use eggdfs.Base.{ℕ, ◌≡◌, refl, List, [], ◌∷◌}
use eggdfs.Base.Text.{Text}
use eggdfs.Group.{StorageServer, Group, IsWell}
use eggdfs.Base.Dict.{Dict}

abbrev pub group_name : Text
group_name = b'g' ∷ []

abbrev pub http : Text
http = b'h' ∷ []

abbrev pub addr_a : Text
addr_a = b'a' ∷ b':' ∷ b'1' ∷ []

abbrev pub addr_b : Text
addr_b = b'b' ∷ b':' ∷ b'1' ∷ []

abbrev pub addr_c : Text
addr_c = b'c' ∷ b':' ∷ b'1' ∷ []

abbrev pub node : Text → ℕ → ℕ → ℕ → StorageServer
node addr status free time = record {
  group = group_name;
  http_schema = http;
  addr = addr;
  status = status;
  free = free;
  update_time = time;
}

abbrev pub node_a : StorageServer
node_a = node addr_a 1 300000 100

abbrev pub node_b : StorageServer
node_b = node addr_b 1 200000 160

abbrev with_storages : Dict StorageServer → Group
with_storages m = record { name = group_name; status = 1; cap = 5; storages = m; readers = 0 }

abbrev pub pair : Group
pair = with_storages ((addr_b, node_b) ∷ (addr_a, node_a) ∷ [])

abbrev pub lonely : Group
lonely = with_storages []
