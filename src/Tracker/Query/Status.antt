-- ===== src/Tracker/Query/Status.antt =====
-- The listing of all groups.
use mathlib.Core.List.{Mem}
use mathlib.Core.List.Perm
use eggdfs.Base.{◌≡◌, ◌↔◌, refl, some, List, []}
use eggdfs.Base.Dict.{Each-map, lookup_of_mem-values, mem-values_of_lookup}
use eggdfs.Base.Text.{text_eq}
use eggdfs.Base.Visit.{Visit}
use eggdfs.Common.Const.{success}
use eggdfs.Group.{Group}
use eggdfs.Tracker.{Tracker, IsSound, get_groups, get_group}
use eggdfs.Tracker.Query.{every, answer, group_status}
use eggdfs.Tracker.Select.ForUpload.{Group-set}

-- Asked about no group in particular, `GroupStatus` of a sound tracker answers with success and with
-- exactly the registered groups, whatever the order of the visit is.
pub group_status_all :
    {S : Type 0} (v : Visit Group) (t : Tracker S)
    → IsSound t
    → (l : List Group) × (group_status v [] t ≡ answer success [] (every l))
      × ((g : Group) → Mem g l ↔ (get_group g.name t ≡ some g))
unfolding group_status get_groups get_group text_eq
group_status_all v t sound = (
  get_groups v t,
  refl,
  λ g. (
    (λ m.
        lookup_of_mem-values (λ g. g.name) Group-set t.groups sound.distinct
          (Each-map (λ n g h. h.0) _ sound.entries) g ((Perm.mem_iff (v.visit-perm _)).0 m)),
    λ e. (Perm.mem_iff (v.visit-perm _)).1 (mem-values_of_lookup g.name t.groups g e),
  ),
)
